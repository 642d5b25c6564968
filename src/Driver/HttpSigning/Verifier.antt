-- ===== src/Driver/HttpSigning/Verifier.antt =====
-- driver/src/http_signing/verifier.rs: the check of a request's signature.
pub mod Soundness
use emumet.Prelude.{ℕ, Option, none, some, Bool, true, false, ◌≡◌, if◌then◌else◌, is_some}
use emumet.Kernel.Error.{KernelError, Result, ok, err, rejected}
use emumet.Kernel.Text.{chars}
use emumet.Kernel.HttpSigning.{
  Text, HttpSignatureVerificationInput, ActorPublicKey, SignatureVerificationResult, valid, invalid,
}
use emumet.Kernel.Activity.{Value}
use emumet.Driver.HttpSigning.Texts.{get_header, same_text}
use emumet.Driver.HttpSigning.Messages.{
  Message, Outcome, good, bad, ◌>>=◌, ◌>>◌, malformed, rfc9421_not_implemented, signature_missing,
  key_fetch_failed, signature_mismatch,
}
use emumet.Driver.HttpSigning.Parser.{CavageSignature, parse_cavage_signature}
use emumet.Driver.HttpSigning.Cavage.{
  Crates, cavage_signing_string, verify_cavage_signature, validate_date_header,
  validate_digest_header, validate_required_signed_headers,
}
use emumet.Driver.HttpSigning.ActorKey.{actor_public_key_from_json}
use emumet.Driver.HttpSigning.Ssrf.{Url}

-- `date_tolerance`, five minutes in seconds
abbrev pub date_tolerance : ℕ
date_tolerance = 300

abbrev verdict : Outcome (SignatureVerificationResult Message) → SignatureVerificationResult Message
verdict (good result) = result
verdict (bad message) = invalid message

abbrev as_malformed : {A : Type 0} → Outcome A → Outcome A
as_malformed (good a) = good a
as_malformed (bad message) = bad (malformed message)

abbrev as_fetched : Result ActorPublicKey → Outcome ActorPublicKey
as_fetched (ok key) = good key
as_fetched (err e) = bad key_fetch_failed

abbrev present : Message → Option Text → Outcome Text
present message none = bad message
present message (some value) = good value

abbrev matched : CavageSignature → Bool → Outcome (SignatureVerificationResult Message)
matched signature true = good (valid signature.key_id)
matched signature false = bad signature_mismatch

-- what the verifier asks of the outside: the url of a key without its fragment, the injected keys,
-- the document at a url, and the text of a url
pub record Keys : Type 0 where
  pub parse_without_fragment : Text → Option Url
  pub static_actor_keys : Text → Option ActorPublicKey
  pub fetch_limited_json : Url → Result Value

abbrev from_document : Text → Result Value → Result ActorPublicKey
from_document key_id (err e) = err e
from_document key_id (ok body) = elim (actor_public_key_from_json key_id body) [
  | good key ↦ ok key
  | bad message ↦ err rejected
]

module _ (keys : Keys) where
  fetch_from_url : Text → Option Url → Result ActorPublicKey
  unfolding actor_public_key_from_json
  fetch_from_url key_id none = err rejected
  fetch_from_url key_id (some url) = elim (keys.static_actor_keys url.text) [
    | some key ↦ ok key
    | none ↦ from_document key_id (keys.fetch_limited_json url)
  ]

  -- the map of keys that tests fill is empty
  unfoldable pub fetch_actor_key : Text → Result ActorPublicKey
  unfolding fetch_from_url
  fetch_actor_key key_id = elim (keys.static_actor_keys key_id) [
    | some key ↦ ok key
    | none ↦ fetch_from_url key_id (keys.parse_without_fragment key_id)
  ]

module _ (crates : Crates) (fetch_actor_key : Text → Result ActorPublicKey) (now : ℕ) where
  -- the checks behind the two headers
  unfoldable pub verify_signature :
      HttpSignatureVerificationInput → Text → Outcome (SignatureVerificationResult Message)
  unfolding parse_cavage_signature validate_required_signed_headers validate_date_header
      validate_digest_header cavage_signing_string verify_cavage_signature
  verify_signature request header = do
    parsed ← as_malformed (parse_cavage_signature crates.decode header)
    validate_required_signed_headers request parsed.headers
    validate_date_header crates now request date_tolerance
    validate_digest_header crates request
    signing_string ← cavage_signing_string crates request parsed.headers
    key ← as_fetched (fetch_actor_key parsed.key_id)
    matches ←
        verify_cavage_signature crates signing_string parsed.signature key.public_key_pem
          parsed.algorithm
    matched parsed matches

  unfoldable pub verify : HttpSignatureVerificationInput → SignatureVerificationResult Message
  unfolding get_header verify_signature chars
  verify request =
      if is_some (get_header request.headers (chars "signature-input"))
      then invalid rfc9421_not_implemented
      else verdict (
          present signature_missing (get_header request.headers (chars "signature"))
          >>= verify_signature request)
