-- ===== src/Driver/HttpSigning/Parser.antt =====
-- driver/src/http_signing/cavage/parser.rs: the header `Signature`.
pub mod RoundTrip
pub mod Headers
use Prim.Native.Char.{code}
use emumet.Prelude.{
  ℕ, Option, none, some, Bool, true, false, not, ◌&&◌, List, [], ◌∷◌, ◌++◌, map, ◌==◌,
  if◌then◌else◌, any, is_some,
}
use emumet.Kernel.Text.{chars, trim, is_empty}
use emumet.Kernel.HttpSigning.{Text}
use emumet.Driver.HttpSigning.Texts.{
  to_ascii_lowercase, same_text, split_once, split_whitespace, last_is, init,
}
use emumet.Driver.HttpSigning.Messages.{
  Message, Outcome, good, bad, ◌>>=◌, duplicate_parameter, key_id_required, signature_required,
  signature_not_base64, unterminated_quote, header_empty, missing_equals, name_empty,
  quote_not_closed, ends_with_escape,
}

pub record CavageSignature : Type 0 where
  pub key_id : Text
  pub algorithm : Text
  pub headers : List Text
  pub signature : List ℕ

abbrev pub quote : ℕ
quote = 0x22

abbrev pub backslash : ℕ
backslash = 0x5c

abbrev pub comma : ℕ
comma = 0x2c

abbrev pub equals_sign : ℕ
equals_sign = 0x3d

-- the variables of the loop
pub record SplitState : Type 0 where
  pub params : List Text
  pub current : Text
  pub in_quotes : Bool
  pub escaped : Bool

-- `if !current.trim().is_empty() { params.push(current.trim().to_string()); }`
unfoldable pub push_current : List Text → Text → List Text
unfolding trim
push_current params current =
    if is_empty (trim current) then params else params ++ trim current ∷ []

-- one turn of the loop
unfoldable pub split_step : SplitState → ℕ → SplitState
unfolding push_current
split_step s ch =
    if s.escaped
    then record s { current = s.current ++ ch ∷ []; escaped = false }
    else if (ch == backslash) && s.in_quotes
    then record s { current = s.current ++ ch ∷ []; escaped = true }
    else if ch == quote
    then record s { current = s.current ++ ch ∷ []; in_quotes = not s.in_quotes }
    else if (ch == comma) && not s.in_quotes
    then record s { params = push_current s.params s.current; current = [] }
    else record s { current = s.current ++ ch ∷ [] }

unfoldable pub split_loop : SplitState → Text → SplitState
unfolding split_step
split_loop s [] = s
split_loop s (ch ∷ chs) = split_loop (split_step s ch) chs

abbrev pub non_empty : List Text → Outcome (List Text)
non_empty [] = bad header_empty
non_empty (p ∷ ps) = good (p ∷ ps)

abbrev pub start : SplitState
start = record { params = []; current = []; in_quotes = false; escaped = false }

unfoldable pub finish : SplitState → Outcome (List Text)
unfolding push_current
finish s =
    if s.in_quotes then bad unterminated_quote else non_empty (push_current s.params s.current)

unfoldable pub split_signature_params : Text → Outcome (List Text)
unfolding split_loop finish
split_signature_params header = finish (split_loop start header)

-- the loop over the text between the quotes
unfoldable pub unescape : Text → Text → Bool → Outcome Text
unescape output [] true = bad ends_with_escape
unescape output [] false = good output
unescape output (ch ∷ chs) true = unescape (output ++ ch ∷ []) chs false
unescape output (ch ∷ chs) false = elim (ch == backslash) [
  | true ↦ unescape output chs true
  | false ↦ unescape (output ++ ch ∷ []) chs false
]

-- given the text behind the first quote, which the caller has seen
unfoldable pub parse_quoted_value : Text → Outcome Text
unfolding unescape
parse_quoted_value rest =
    if last_is quote rest then unescape [] (init rest) false else bad quote_not_closed

unfoldable pub parse_value : Text → Outcome Text
unfolding parse_quoted_value
parse_value [] = good []
parse_value (c ∷ cs) = elim (c == quote) [ true ↦ parse_quoted_value cs | false ↦ good (c ∷ cs) ]

unfoldable pub parse_pair : Option (Text × Text) → Outcome (Text × Text)
unfolding trim parse_value
parse_pair none = bad missing_equals
parse_pair (some (name, value)) =
    if is_empty (trim name)
    then bad name_empty
    else parse_value (trim value) >>= λ v. good (trim name, v)

unfoldable pub parse_signature_param : Text → Outcome (Text × Text)
unfolding split_once parse_pair
parse_signature_param part = parse_pair (split_once equals_sign part)

-- the map of parameters, a list of pairs
abbrev pub Params : Type 0
Params = List (Text × Text)

unfoldable pub param : Text → Params → Option Text
unfolding same_text
param name [] = none
param name (p ∷ ps) = let rest = param name ps in if same_text p.0 name then some p.1 else rest

-- the loop over the parts
unfoldable pub read_params : Params → List Text → Outcome Params
unfolding parse_signature_param param to_ascii_lowercase
read_params params [] = good params
read_params params (part ∷ parts) = parse_signature_param part >>= λ p.
    if is_some (param (to_ascii_lowercase p.0) params)
    then bad duplicate_parameter
    else read_params (params ++ (to_ascii_lowercase p.0, p.1) ∷ []) parts

abbrev required : Message → Option Text → Outcome Text
required message none = bad message
required message (some value) = good value

abbrev or_rsa_sha256 : Option Text → Text
or_rsa_sha256 none = chars "rsa-sha256"
or_rsa_sha256 (some algorithm) = algorithm

abbrev pub or_date : List Text → List Text
or_date [] = chars "date" ∷ []
or_date (h ∷ hs) = h ∷ hs

unfoldable pub signed_headers : Option Text → List Text
unfolding to_ascii_lowercase split_whitespace
signed_headers none = chars "date" ∷ []
signed_headers (some value) = or_date (map to_ascii_lowercase (split_whitespace value))

abbrev pub or_not_base64 : Option (List ℕ) → Outcome (List ℕ)
or_not_base64 none = bad signature_not_base64
or_not_base64 (some bytes) = good bytes

module _ (decode : Text → Option (List ℕ)) where
  unfoldable pub signature_of : Params → Outcome CavageSignature
  unfolding param signed_headers chars
  signature_of params = do
    key_id ← required key_id_required (param (chars "keyid") params)
    encoded ← required signature_required (param (chars "signature") params)
    signature ← or_not_base64 (decode encoded)
    good (record {
      key_id = key_id;
      algorithm = or_rsa_sha256 (param (chars "algorithm") params);
      headers = signed_headers (param (chars "headers") params);
      signature = signature;
    })

  -- `decode` is the base64 crate's
  unfoldable pub parse_cavage_signature : Text → Outcome CavageSignature
  unfolding split_signature_params read_params signature_of
  parse_cavage_signature header = do
    parts ← split_signature_params header
    params ← read_params [] parts
    signature_of params
