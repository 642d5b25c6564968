-- ===== src/Driver/HttpSigning/Messages.antt =====
-- The messages of driver/src/http_signing/: a constructor for each text, without what the text
-- quotes of the request or of another error.
use emumet.Prelude.{◌≡◌, refl}

pub data Message : Type 0 where
  -- cavage/parser.rs
  duplicate_parameter key_id_required signature_required signature_not_base64 : Message
  unterminated_quote header_empty missing_equals name_empty quote_not_closed ends_with_escape :
      Message
  -- cavage/mod.rs
  url_invalid signed_header_missing ed25519_failed rsa_failed hs2019_failed : Message
  unsupported_algorithm date_required date_malformed date_in_future date_expired : Message
  digest_required digest_missing digest_not_base64 digest_mismatch : Message
  required_header_not_signed digest_not_signed : Message
  -- actor_key.rs
  public_key_missing key_id_mismatch array_without_key not_an_object pem_missing : Message
  -- verifier.rs
  rfc9421_not_implemented signature_missing key_fetch_failed signature_mismatch : Message
  malformed : Message → Message

pub data Outcome (A : Type 0) : Type 0 where
  good : A → Outcome A
  bad : Message → Outcome A

infixl 5 ◌>>=◌ ◌>>◌
abbrev pub ◌>>=◌ : {A B : Type 0} → Outcome A → (A → Outcome B) → Outcome B
good a >>= f = f a
bad m >>= f = bad m

abbrev pub ◌>>◌ : {A B : Type 0} → Outcome A → Outcome B → Outcome B
m >> k = m >>= λ _. k

-- What a sequence returns comes from what its first part returns.
pub bind_good :
    {A B : Type 0} (o : Outcome A) (f : A → Outcome B) {b : B}
    → (o >>= f) ≡ good b
    → (a : A) × (o ≡ good a) × (f a ≡ good b)
bind_good (good a) f h = (a, refl, h)
bind_good (bad m) f h = cc
