-- ===== src/Kernel/HttpSigning.antt =====
-- kernel/src/http_signing.rs: what is signed of a request, and what a check of a signature says. A
-- text is the list of its characters, and a map of headers is a list of pairs in the order in which
-- the map yields them.
use emumet.Prelude.{ℕ, Option, List}

abbrev pub Text : Type 0
Text = List ℕ

abbrev pub Headers : Type 0
Headers = List (Text × Text)

pub record HttpSigningRequest : Type 0 where
  pub method : Text
  pub url : Text
  pub headers : Headers
  pub body : Option (List ℕ)

pub record HttpSigningResponse : Type 0 where
  pub cavage_headers : Headers
  pub rfc9421_headers : Headers

pub record HttpSignatureVerificationInput : Type 0 where
  pub method : Text
  pub url : Text
  pub headers : Headers
  pub body : Option (List ℕ)

pub record ActorPublicKey : Type 0 where
  pub id : Text
  pub owner : Text
  pub public_key_pem : Text

-- `Invalid` carries a message of a type of its own
pub data SignatureVerificationResult (M : Type 0) : Type 0 where
  -- key_id
  valid : Text → SignatureVerificationResult M
  invalid : M → SignatureVerificationResult M
