-- ===== src/Driver/HttpSigning/Verifier/Soundness.antt =====
-- What a signature that the verifier accepts has proved.
use emumet.Prelude.{
  ℕ, ◌+◌, ◌≤◌, ◌≡◌, refl, sym, ap, arith, Option, none, some, Bool, true, false, List, inl, inr,
  Bool-cases, is_some,
}
use emumet.Kernel.Error.{Result, ok, err}
use emumet.Kernel.Text.{chars}
use emumet.Kernel.HttpSigning.{
  Text, HttpSignatureVerificationInput, ActorPublicKey, SignatureVerificationResult, valid,
}
use emumet.Driver.HttpSigning.Texts.{get_header, same_text, split}
use emumet.Driver.HttpSigning.Messages.{
  Message, Outcome, good, bad, ◌>>=◌, bind_good, signature_missing,
}
use emumet.Driver.HttpSigning.Parser.{CavageSignature, parse_cavage_signature, comma}
use emumet.Driver.HttpSigning.Cavage.{
  Crates, cavage_signing_string, verify_cavage_signature, validate_date_header,
  validate_digest_header, validate_required_signed_headers, is_signed, request_target, has_body,
  find_sha256, compare_digest, compare_bytes, check_digest, check_date, within_parsed,
  body_or_empty, within, required_are_signed,
}
use emumet.Driver.HttpSigning.Verifier.{
  verify, verify_signature, date_tolerance, matched, as_malformed, as_fetched, verdict, present,
}

module _ (crates : Crates) (request : HttpSignatureVerificationInput) where
  -- the `Date` header names an instant within the tolerance
  pub record IsFresh (now : ℕ) : Type 0 where
    pub date : Text
    pub at : ℕ
    pub header : get_header request.headers (chars "date") ≡ some date
    pub instant : crates.parse_http_date date ≡ some at
    pub not_late : at ≤ now + date_tolerance
    pub not_early : now ≤ at + date_tolerance

  -- the `Digest` header holds the SHA-256 of the body
  pub record MatchesDigest : Type 0 where
    pub header : Text
    pub value : Text
    pub bytes : List ℕ
    pub present : get_header request.headers (chars "digest") ≡ some header
    pub sha256 : find_sha256 (split comma header) ≡ some value
    pub decoded : crates.decode value ≡ some bytes
    pub same : same_text bytes (crates.sha256 (body_or_empty request.body)) ≡ true

  parsed-IsFresh :
      (now : ℕ) (date : Text) (o : Option ℕ)
      → get_header request.headers (chars "date") ≡ some date
      → crates.parse_http_date date ≡ o
      → within_parsed crates now date_tolerance o ≡ good tt
      → IsFresh now
  unfolding within
  parsed-IsFresh now date none header e h = cc
  parsed-IsFresh now date (some at) header e h = record {
    date = date;
    at = at;
    header = header;
    instant = e;
    not_late = ground arith;
    not_early = ground arith;
  }

  date-IsFresh :
      (now : ℕ) (o : Option Text)
      → get_header request.headers (chars "date") ≡ o
      → check_date crates now date_tolerance o ≡ good tt
      → IsFresh now
  date-IsFresh now none e h = cc
  date-IsFresh now (some date) e h = parsed-IsFresh now date _ e refl h

  bytes-MatchesDigest :
      (header value : Text) (o : Option (List ℕ))
      → get_header request.headers (chars "digest") ≡ some header
      → find_sha256 (split comma header) ≡ some value
      → crates.decode value ≡ o
      → compare_bytes crates request o ≡ good tt
      → MatchesDigest
  bytes-MatchesDigest header value none present sha256 decoded h = cc
  bytes-MatchesDigest header value (some bytes) present sha256 decoded h = record {
    header = header;
    value = value;
    bytes = bytes;
    present = present;
    sha256 = sha256;
    decoded = decoded;
    same = ground arith;
  }

  value-MatchesDigest :
      (header : Text) (o : Option Text)
      → get_header request.headers (chars "digest") ≡ some header
      → find_sha256 (split comma header) ≡ o
      → compare_digest crates request o ≡ good tt
      → MatchesDigest
  value-MatchesDigest header none present e h = cc
  value-MatchesDigest header (some value) present e h =
      bytes-MatchesDigest header value _ present e refl h

  digest-MatchesDigest :
      (o : Option Text)
      → get_header request.headers (chars "digest") ≡ o
      → check_digest crates request o ≡ good tt
      → has_body request ≡ true
      → MatchesDigest
  digest-MatchesDigest none e h body = absurd (ground arith)
  digest-MatchesDigest (some header) e h body = value-MatchesDigest header _ e refl h

  -- The headers that a signature must cover.
  pub record CoversRequest (headers : List Text) : Type 0 where
    pub target : is_signed headers request_target ≡ true
    pub host : is_signed headers (chars "host") ≡ true
    pub date : is_signed headers (chars "date") ≡ true
    pub body : has_body request ≡ true → is_signed headers (chars "digest") ≡ true

  headers-CoversRequest :
      (headers : List Text)
      → validate_required_signed_headers request headers ≡ good tt
      → CoversRequest headers
  unfolding validate_required_signed_headers required_are_signed
  headers-CoversRequest headers h = record {
    target = ground arith;
    host = ground arith;
    date = ground arith;
    body = λ b. ground arith;
  }

module _ (crates : Crates) (fetch_actor_key : Text → Result ActorPublicKey) (now : ℕ) where
  -- what stands behind the answer that a request is signed by a key
  pub record HasProof (request : HttpSignatureVerificationInput) (key_id : Text) : Type 0 where
    pub header : Text
    pub signature : CavageSignature
    pub key : ActorPublicKey
    pub text : Text
    pub header_eq : get_header request.headers (chars "signature") ≡ some header
    pub parsed : parse_cavage_signature crates.decode header ≡ good signature
    pub named : signature.key_id ≡ key_id
    pub covers : CoversRequest crates request signature.headers
    pub fresh : IsFresh crates request now
    pub digest : has_body request ≡ true → MatchesDigest crates request
    pub signed_text : cavage_signing_string crates request signature.headers ≡ good text
    pub fetched : fetch_actor_key signature.key_id ≡ ok key
    pub verified :
        verify_cavage_signature crates text signature.signature key.public_key_pem
          signature.algorithm
        ≡ good true

  as_malformed-good : {A : Type 0} (o : Outcome A) {a : A} → as_malformed o ≡ good a → o ≡ good a
  as_malformed-good (good a) h = h
  as_malformed-good (bad m) h = cc

  as_fetched-good :
      (r : Result ActorPublicKey) {key : ActorPublicKey} → as_fetched r ≡ good key → r ≡ ok key
  as_fetched-good (ok key) h = ground arith
  as_fetched-good (err e) h = cc

  matched-valid :
      (signature : CavageSignature) (b : Bool) {key_id : Text}
      → matched signature b ≡ good (valid key_id)
      → (b ≡ true) × (signature.key_id ≡ key_id)
  matched-valid signature true h = (refl, ground arith)
  matched-valid signature false h = cc

  verify_signature-HasProof :
      (request : HttpSignatureVerificationInput) (header key_id : Text)
      → get_header request.headers (chars "signature") ≡ some header
      → verify_signature crates fetch_actor_key now request header ≡ good (valid key_id)
      → HasProof request key_id
  unfolding verify_signature validate_date_header validate_digest_header
  verify_signature-HasProof request header key_id e h =
      let (signature, parsed, h1) = bind_good _ _ h in
      let (_, covered, h2) = bind_good _ _ h1 in
      let (_, dated, h3) = bind_good _ _ h2 in
      let (_, digested, h4) = bind_good _ _ h3 in
      let (text, signed, h5) = bind_good _ _ h4 in
      let (key, fetched, h6) = bind_good _ _ h5 in
      let (b, verified, h7) = bind_good _ _ h6 in
      let (matches, named) = matched-valid signature b h7 in
      record {
        header = header;
        signature = signature;
        key = key;
        text = text;
        header_eq = e;
        parsed = as_malformed-good _ parsed;
        named = named;
        covers = headers-CoversRequest crates request signature.headers covered;
        fresh = date-IsFresh crates request now _ refl dated;
        digest = digest-MatchesDigest crates request _ refl digested;
        signed_text = signed;
        fetched = as_fetched-good _ fetched;
        verified = rw (sym matches) verified;
      }

  verdict-valid :
      (o : Outcome (SignatureVerificationResult Message)) {key_id : Text}
      → verdict o ≡ valid key_id
      → o ≡ good (valid key_id)
  verdict-valid (good result) h = ap good h
  verdict-valid (bad m) h = cc

  verdict-HasProof :
      (request : HttpSignatureVerificationInput) (o : Option Text) {key_id : Text}
      → get_header request.headers (chars "signature") ≡ o
      → verdict
          (present signature_missing o >>= verify_signature crates fetch_actor_key now request)
        ≡ valid key_id
      → HasProof request key_id
  verdict-HasProof request none e h = cc
  verdict-HasProof request (some header) {key_id} e h =
      verify_signature-HasProof request header key_id e (verdict-valid _ h)

  -- If the verifier answers that a request is validly signed by a key, then the `Signature` header
  -- parses to a signature that names the key and covers the request target, the host, the date and,
  -- for a request with a body, the digest; the `Date` header is at most five minutes away; for a
  -- request with a body the `Digest` header holds the SHA-256 of the body; and the fetched public
  -- key verifies the signature of the text that the covered headers make.
  pub verify-HasProof :
      (request : HttpSignatureVerificationInput) (key_id : Text)
      → verify crates fetch_actor_key now request ≡ valid key_id
      → HasProof request key_id
  unfolding verify
  verify-HasProof request key_id h =
      elim (Bool-cases (is_some (get_header request.headers (chars "signature-input")))) [
        | inl e ↦ absurd (ground arith)
        | inr e ↦ verdict-HasProof request _ refl (ground arith)
      ]
