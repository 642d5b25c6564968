-- ===== src/Driver/HttpSigning/Cavage.antt =====
-- driver/src/http_signing/cavage/mod.rs: what a signature of a request covers, and the checks on the
-- request.
use emumet.Prelude.{
  ℕ, ◌-◌, Option, none, some, Bool, true, false, not, ◌&&◌, ◌||◌, List, [], ◌∷◌, ◌++◌, ltb,
  if◌then◌else◌, any, is_some,
}
use emumet.Kernel.Error.{Result, ok, err}
use emumet.Kernel.Text.{chars, trim}
use emumet.Kernel.HttpSigning.{Text, HttpSignatureVerificationInput}
use emumet.Driver.HttpSigning.Texts.{
  to_ascii_lowercase, eq_ignore_ascii_case, same_text, split_once, split, join_lines, get_header,
}
use emumet.Driver.HttpSigning.Parser.{equals_sign, comma}
use emumet.Driver.HttpSigning.Messages.{
  Message, Outcome, good, bad, ◌>>=◌, url_invalid, signed_header_missing, ed25519_failed,
  rsa_failed, hs2019_failed, unsupported_algorithm, date_required, date_malformed, date_in_future,
  date_expired, digest_required, digest_missing, digest_not_base64, digest_mismatch,
  required_header_not_signed, digest_not_signed,
}

-- the path and the query of a url
pub record Target : Type 0 where
  pub path : Text
  pub query : Option Text

-- what the crates answer; the text that is signed stands for its bytes
pub record Crates : Type 0 where
  -- url
  pub parse_target : Text → Option Target
  -- base64
  pub decode : Text → Option (List ℕ)
  -- sha2
  pub sha256 : List ℕ → List ℕ
  -- httpdate, an instant in seconds
  pub parse_http_date : Text → Option ℕ
  -- rsa and ed25519, of the text, the signature and the public key
  pub rsa_verify : Text → List ℕ → Text → Result Bool
  pub ed25519_verify : Text → List ℕ → Text → Result Bool

abbrev path_and_query : Target → Text
path_and_query target = elim target.query [
  | none ↦ target.path
  | some query ↦ target.path ++ chars "?" ++ query
]

abbrev pub request_target : Text
request_target = chars "(request-target)"

abbrev cons_good : Outcome Text → Outcome (List Text) → Outcome (List Text)
cons_good l ls = l >>= λ x. ls >>= λ xs. good (x ∷ xs)

abbrev request_target_line : HttpSignatureVerificationInput → Target → Text
request_target_line request target =
    chars "(request-target): "
    ++ to_ascii_lowercase request.method
    ++ chars " "
    ++ path_and_query target

abbrev header_line : Text → Option Text → Outcome Text
header_line header none = bad signed_header_missing
header_line header (some value) = good (to_ascii_lowercase header ++ chars ": " ++ value)

unfoldable pub line_of : HttpSignatureVerificationInput → Target → Text → Outcome Text
unfolding same_text get_header to_ascii_lowercase chars
line_of request target header =
    if same_text header request_target
    then good (request_target_line request target)
    else header_line header (get_header request.headers header)

-- the loop over the signed headers
unfoldable pub lines_of : HttpSignatureVerificationInput → Target → List Text → Outcome (List Text)
unfolding line_of
lines_of request target [] = good []
lines_of request target (header ∷ headers) =
    let rest = lines_of request target headers in cons_good (line_of request target header) rest

abbrev pub has_body : HttpSignatureVerificationInput → Bool
has_body request = elim request.body [ none ↦ false | some [] ↦ false | some (_ ∷ _) ↦ true ]

abbrev pub body_or_empty : Option (List ℕ) → List ℕ
body_or_empty none = []
body_or_empty (some body) = body

-- one part of a `Digest` header, where it is the SHA-256 value
abbrev sha256_value : Option (Text × Text) → Option Text
sha256_value none = none
sha256_value (some (name, value)) =
    if eq_ignore_ascii_case name (chars "sha-256") then some (trim value) else none

unfoldable pub find_sha256 : List Text → Option Text
unfolding trim split_once eq_ignore_ascii_case chars
find_sha256 [] = none
find_sha256 (part ∷ parts) =
    let rest = find_sha256 parts in
    elim (sha256_value (split_once equals_sign (trim part))) [
      | none ↦ rest
      | some value ↦ some value
    ]

module _ (crates : Crates) where
  unfoldable pub cavage_signing_string : HttpSignatureVerificationInput → List Text → Outcome Text
  unfolding lines_of join_lines
  cavage_signing_string request headers = elim (crates.parse_target request.url) [
    | none ↦ bad url_invalid
    | some target ↦ lines_of request target headers >>= λ lines. good (join_lines lines)
  ]

  abbrev checked : Message → Result Bool → Outcome Bool
  checked message (ok b) = good b
  checked message (err e) = bad message

  -- an error of the first crate falls through to the second one for `hs2019`
  abbrev or_else : Bool → Result Bool → Outcome Bool → Outcome Bool
  or_else hs2019 (ok b) second = good b
  or_else true (err e) second = second
  or_else false (err e) second = bad rsa_failed

  unfoldable pub verify_cavage_signature : Text → List ℕ → Text → Text → Outcome Bool
  unfolding to_ascii_lowercase same_text chars
  verify_cavage_signature signing_string signature public_key_pem algorithm =
      let name = to_ascii_lowercase algorithm in
      let hs2019 = same_text name (chars "hs2019") in
      let by_ed25519 = crates.ed25519_verify signing_string signature public_key_pem in
      if same_text name (chars "ed25519") || same_text name (chars "ed25519-sha256")
      then checked ed25519_failed by_ed25519
      else if same_text name (chars "rsa-sha256") || hs2019
      then or_else hs2019 (crates.rsa_verify signing_string signature public_key_pem)
          (checked hs2019_failed by_ed25519)
      else bad unsupported_algorithm

  unfoldable pub within : ℕ → ℕ → ℕ → Outcome (Unit {0})
  within tolerance now date =
      if ltb now date
      then (if ltb tolerance (date - now) then bad date_in_future else good tt)
      else (if ltb tolerance (now - date) then bad date_expired else good tt)

  abbrev pub within_parsed : ℕ → ℕ → Option ℕ → Outcome (Unit {0})
  within_parsed now tolerance none = bad date_malformed
  within_parsed now tolerance (some parsed) = within tolerance now parsed

  abbrev pub check_date : ℕ → ℕ → Option Text → Outcome (Unit {0})
  check_date now tolerance none = bad date_required
  check_date now tolerance (some date) = within_parsed now tolerance (crates.parse_http_date date)

  -- `now` is `SystemTime::now()`, in the unit of `tolerance`
  unfoldable pub validate_date_header : ℕ → HttpSignatureVerificationInput → ℕ → Outcome (Unit {0})
  unfolding get_header within chars
  validate_date_header now request tolerance =
      check_date now tolerance (get_header request.headers (chars "date"))

  -- two lists of bytes
  abbrev pub compare_bytes : HttpSignatureVerificationInput → Option (List ℕ) → Outcome (Unit {0})
  compare_bytes request none = bad digest_not_base64
  compare_bytes request (some expected) =
      if same_text expected (crates.sha256 (body_or_empty request.body))
      then good tt
      else bad digest_mismatch

  abbrev pub compare_digest : HttpSignatureVerificationInput → Option Text → Outcome (Unit {0})
  compare_digest request none = bad digest_missing
  compare_digest request (some value) = compare_bytes request (crates.decode value)

  abbrev pub check_digest : HttpSignatureVerificationInput → Option Text → Outcome (Unit {0})
  check_digest request none = if has_body request then bad digest_required else good tt
  check_digest request (some digest_header) =
      compare_digest request (find_sha256 (split comma digest_header))

  unfoldable pub validate_digest_header : HttpSignatureVerificationInput → Outcome (Unit {0})
  unfolding get_header find_sha256 split same_text chars
  validate_digest_header request =
      check_digest request (get_header request.headers (chars "digest"))

abbrev pub is_signed : List Text → Text → Bool
is_signed signed_headers name = any (λ header. same_text header name) signed_headers

-- the loop over the headers that must be signed
unfoldable pub required_are_signed : List Text → List Text → Outcome (Unit {0})
unfolding same_text
required_are_signed signed_headers [] = good tt
required_are_signed signed_headers (required ∷ names) =
    let rest = required_are_signed signed_headers names in
    if is_signed signed_headers required then rest else bad required_header_not_signed

unfoldable pub validate_required_signed_headers :
    HttpSignatureVerificationInput → List Text → Outcome (Unit {0})
unfolding required_are_signed same_text get_header chars
validate_required_signed_headers request signed_headers =
    required_are_signed signed_headers (request_target ∷ chars "host" ∷ chars "date" ∷ []) >>= λ _.
    if (has_body request || is_some (get_header request.headers (chars "digest")))
      && not (is_signed signed_headers (chars "digest"))
    then bad digest_not_signed
    else good tt
