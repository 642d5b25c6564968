-- ===== src/Driver/HttpSigning/Parser/Headers.antt =====
-- A whole header `Signature`, from its printed form.
use mathlib.Core.List.{append-nil, append_assoc}
use emumet.Prelude.{
  ℕ, ◌≡◌, refl, sym, ap, ◌∙◌, arith, Option, none, some, Bool, true, false, List, [], ◌∷◌, ◌++◌,
  map, All, ◌==◌, not, ◌&&◌, all, Bool-cases, inl, inr,
}
use emumet.Kernel.Text.{is_whitespace, chars}
use emumet.Kernel.HttpSigning.{Text}
use emumet.Driver.HttpSigning.Texts.{
  to_ascii_lowercase, same_text, split_whitespace, words_from, lower,
}
use emumet.Driver.HttpSigning.Messages.{good, ◌>>=◌}
use emumet.Driver.HttpSigning.Parser.{
  CavageSignature, parse_cavage_signature, read_params, signature_of, param, signed_headers,
  or_not_base64, or_date, Params, quote, comma, equals_sign,
}
use emumet.Driver.HttpSigning.Parser.RoundTrip.{
  IsPlain, IsName, print_param, print_params, split_signature_params-print_params,
  parse_signature_param-print_param,
}

-- a word is not empty and has no white space
abbrev pub IsWord : Text → Type 0
IsWord [] = ⊥
IsWord (c ∷ cs) = (is_whitespace c ≡ false) × All (λ d. is_whitespace d ≡ false) cs

-- words with a space between them
abbrev pub join_words : Text → List Text → Text
join_words w [] = w
join_words w (v ∷ ws) = w ++ 0x20 ∷ join_words v ws

words_from-letters :
    (current w rest : Text)
    → All (λ d. is_whitespace d ≡ false) w
    → words_from current (w ++ rest) ≡ words_from (current ++ w) rest
unfolding words_from
words_from-letters current [] rest h =
    ap (λ (l : Text). words_from l rest) (sym (append-nil current))
words_from-letters current (c ∷ cs) rest h =
    rw (words_from, h.0)
      (words_from-letters (current ++ c ∷ []) cs rest h.1
        ∙ ap (λ (l : Text). words_from l rest) (append_assoc current (c ∷ []) cs))

letters : (w : Text) → IsWord w → All (λ d. is_whitespace d ≡ false) w
letters [] h = absurd h
letters (c ∷ cs) h = h

split_whitespace-last : (w : Text) → IsWord w → words_from [] w ≡ w ∷ []
unfolding words_from
split_whitespace-last [] h = absurd h
split_whitespace-last (c ∷ cs) h =
    ap (words_from []) (sym (append-nil (c ∷ cs))) ∙ words_from-letters [] (c ∷ cs) [] h

split_whitespace-next :
    (w rest : Text) → IsWord w → words_from [] (w ++ 0x20 ∷ rest) ≡ w ∷ words_from [] rest
unfolding words_from is_whitespace
split_whitespace-next [] rest h = absurd h
split_whitespace-next (c ∷ cs) rest h = words_from-letters [] (c ∷ cs) (0x20 ∷ rest) h

split_whitespace-join_words :
    (w : Text) (ws : List Text)
    → IsWord w
    → All IsWord ws
    → split_whitespace (join_words w ws) ≡ w ∷ ws
unfolding split_whitespace
split_whitespace-join_words w [] h hs = split_whitespace-last w h
split_whitespace-join_words w (v ∷ ws) h hs =
    split_whitespace-next w (join_words v ws) h
    ∙ ap (◌∷◌ w) (split_whitespace-join_words v ws hs.0 hs.1)

abbrev is_plain : ℕ → Bool
is_plain c = not (c == quote) && not (c == comma) && not (c == equals_sign) && not (is_whitespace c)

IsPlain-letter : (c : ℕ) → is_plain c ≡ true → IsPlain c
IsPlain-letter c h = record {
  no_quote = ground arith;
  no_comma = ground arith;
  no_equals = ground arith;
  no_space = ground arith;
}

IsPlain-letters : (cs : Text) → all is_plain cs ≡ true → All IsPlain cs
IsPlain-letters [] h = tt
IsPlain-letters (c ∷ cs) h = elim (Bool-cases (is_plain c)) [
  | inl e ↦ (IsPlain-letter c e, IsPlain-letters cs (sym (rw e refl) ∙ h))
  | inr e ↦ absurd (ground arith)
]

-- the four parameters that a signer writes
abbrev pub print_signature : (List ℕ → Text) → CavageSignature → Text → List Text → Text
print_signature encode s w ws =
    print_params (chars "keyId", s.key_id)
      ((chars "algorithm", s.algorithm)
        ∷ (chars "headers", join_words w ws)
        ∷ (chars "signature", encode s.signature)
        ∷ [])

key_id-IsName : IsName (chars "keyId")
unfolding chars is_whitespace
key_id-IsName = IsPlain-letters (chars "keyId") refl

algorithm-IsName : IsName (chars "algorithm")
unfolding chars is_whitespace
algorithm-IsName = IsPlain-letters (chars "algorithm") refl

headers-IsName : IsName (chars "headers")
unfolding chars is_whitespace
headers-IsName = IsPlain-letters (chars "headers") refl

signature-IsName : IsName (chars "signature")
unfolding chars is_whitespace
signature-IsName = IsPlain-letters (chars "signature") refl

-- one turn of the loop over the parts
read_params-next :
    (params : Params) (p : Text × Text) (ps : List (Text × Text))
    → IsName p.0
    → param (to_ascii_lowercase p.0) params ≡ none
    → read_params params (map print_param (p ∷ ps))
      ≡ read_params (params ++ (to_ascii_lowercase p.0, p.1) ∷ []) (map print_param ps)
unfolding read_params
read_params-next params p ps h k = rw (read_params, parse_signature_param-print_param p h, k) refl

abbrev read_form : Text → Text → Text → Text → Params
read_form key_id algorithm headers signature =
    (chars "keyid", key_id)
    ∷ (chars "algorithm", algorithm)
    ∷ (chars "headers", headers)
    ∷ (chars "signature", signature)
    ∷ []

-- the parameters as they are written
abbrev written_form : Text → Text → Text → Text → List (Text × Text)
written_form key_id algorithm headers signature =
    (chars "keyId", key_id)
    ∷ (chars "algorithm", algorithm)
    ∷ (chars "headers", headers)
    ∷ (chars "signature", signature)
    ∷ []

read_params-written_form :
    (key_id algorithm headers signature : Text)
    → read_params [] (map print_param (written_form key_id algorithm headers signature))
      ≡ good (read_form key_id algorithm headers signature)
unfolding read_params param same_text to_ascii_lowercase lower chars
read_params-written_form key_id algorithm headers signature =
    let a : Text × Text = (chars "algorithm", algorithm) in
    let h : Text × Text = (chars "headers", headers) in
    let s : Text × Text = (chars "signature", signature) in
    read_params-next [] (chars "keyId", key_id) (a ∷ h ∷ s ∷ []) key_id-IsName refl
    ∙ read_params-next ((chars "keyid", key_id) ∷ []) a (h ∷ s ∷ []) algorithm-IsName refl
    ∙ read_params-next ((chars "keyid", key_id) ∷ a ∷ []) h (s ∷ []) headers-IsName refl
    ∙ read_params-next ((chars "keyid", key_id) ∷ a ∷ h ∷ []) s [] signature-IsName refl

module _ (decode : Text → Option (List ℕ)) (encode : List ℕ → Text) where
  signature_of-read_form :
      (s : CavageSignature) (w : Text) (ws : List Text)
      → IsWord w
      → All IsWord ws
      → map to_ascii_lowercase (w ∷ ws) ≡ s.headers
      → decode (encode s.signature) ≡ some s.signature
      → signature_of decode (read_form s.key_id s.algorithm (join_words w ws) (encode s.signature))
        ≡ good s
  unfolding signature_of param same_text chars signed_headers
  signature_of-read_form s w ws h hs lowered decodes =
      ap
        (λ o. or_not_base64 o >>= λ bytes. good (record s {
          headers = or_date (map to_ascii_lowercase (split_whitespace (join_words w ws)));
          signature = bytes;
        }))
        decodes
      ∙ ap (λ (l : List Text). good (record s { headers = or_date (map to_ascii_lowercase l) }))
          (split_whitespace-join_words w ws h hs)
      ∙ ap (λ (l : List Text). good (record s { headers = l })) lowered

  -- A header `Signature` with the four parameters that a signer writes, each between quotes with a
  -- backslash before the quotes and backslashes in it, parses to the signature that it was written
  -- of, where the names of the signed headers are words and the base64 crate decodes what it
  -- encodes. The names are read in lower case.
  pub parse_cavage_signature-print_signature :
      (s : CavageSignature) (w : Text) (ws : List Text)
      → IsWord w
      → All IsWord ws
      → map to_ascii_lowercase (w ∷ ws) ≡ s.headers
      → decode (encode s.signature) ≡ some s.signature
      → parse_cavage_signature decode (print_signature encode s w ws) ≡ good s
  unfolding parse_cavage_signature
  parse_cavage_signature-print_signature s w ws h hs lowered decodes =
      let names = join_words w ws in
      let code = encode s.signature in
      ap (λ o. o >>= λ parts. read_params [] parts >>= signature_of decode)
        (split_signature_params-print_params (chars "keyId", s.key_id)
          ((chars "algorithm", s.algorithm)
            ∷ (chars "headers", names)
            ∷ (chars "signature", code)
            ∷ [])
          key_id-IsName (algorithm-IsName, (headers-IsName, (signature-IsName, tt))))
      ∙ ap (λ o. o >>= signature_of decode)
          (read_params-written_form s.key_id s.algorithm names code)
      ∙ signature_of-read_form s w ws h hs lowered decodes
