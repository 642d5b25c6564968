-- ===== src/Server/Inbox/Signed.antt =====
-- What a request to the inbox that changes something has proved.
use emumet.Prelude.{
  ℕ, ◌≡◌, refl, ap, subst, Option, none, some, Bool, true, false, ◌&&◌, ◌⊎◌, inl, inr,
}
use emumet.Kernel.Error.{Result, ok, err}
use emumet.Kernel.Text.{chars}
use emumet.Kernel.Account.{AccountId}
use emumet.Kernel.Activity.{Activity}
use emumet.Kernel.HttpSigning.{Text, ActorPublicKey, SignatureVerificationResult, valid, invalid}
use emumet.Driver.HttpSigning.Messages.{Message}
use emumet.Driver.HttpSigning.Cavage.{Crates}
use emumet.Driver.HttpSigning.Verifier.{verify}
use emumet.Driver.HttpSigning.Verifier.Soundness.{HasProof, verify-HasProof}
use emumet.Application.Network.{Network, Outside}
use emumet.Application.Inbox.{InboxActivityDto, handle_inbox_activity}
use emumet.Server.Inbox.{
  Answer, answered, refused, ErrorStatus, ◌>>=◌, Server, InboxRequest, verification_input,
  same_activitypub_id, key_document_matches_actor, ensure_signature_owner_matches_actor, admit,
  bad_request, unauthorized, check_request, read_activity, dto_of, post_inbox, handled, require,
  unless_none, key_id_of, key_or_unauthorized,
}

-- What a sequence answers comes from what its first part answers.
bind_answered :
    {A B : Type 0} (m : Answer A) (f : A → Answer B) {b : B}
    → (m >>= f) ≡ answered b
    → (a : A) × (m ≡ answered a) × (f a ≡ answered b)
bind_answered (answered a) f h = (a, refl, h)
bind_answered (refused status) f h = cc

require-true :
    (b : Bool) (status : ErrorStatus) {u : Unit {0}} → require b status ≡ answered u → b ≡ true
require-true true status h = refl
require-true false status h = cc

unless_none-some :
    {A : Type 0} (status : ErrorStatus) (o : Option A) {a : A}
    → unless_none status o ≡ answered a
    → o ≡ some a
unless_none-some status none h = cc
unless_none-some status (some a) h = cc

and-true : (a b : Bool) → (a && b) ≡ true → (a ≡ true) × (b ≡ true)
and-true true b h = (refl, h)
and-true false b h = cc

abbrev activity_or : Activity → Answer InboxActivityDto → Activity
activity_or other (answered dto) = dto.activity
activity_or other (refused status) = other

module _ (env : Outside) (server : Server) where
  key_id_of-valid :
      (result : SignatureVerificationResult Message) {key_id : Text}
      → key_id_of env server result ≡ answered key_id
      → result ≡ valid key_id
  key_id_of-valid (valid key_id) h = cc
  key_id_of-valid (invalid message) h = cc

  key_or_unauthorized-ok :
      (r : Result ActorPublicKey) {key : ActorPublicKey}
      → key_or_unauthorized env server r ≡ answered key
      → r ≡ ok key
  key_or_unauthorized-ok (ok key) h = cc
  key_or_unauthorized-ok (err e) h = cc

  module _ (crates : Crates) (fetch_actor_key : Text → Result ActorPublicKey) (now : ℕ) where
    -- the key of a signed request is that of the activity's actor
    pub record IsSignedBy (request : InboxRequest) (activity : Activity) : Type 0 where
      pub key_id : Text
      pub key : ActorPublicKey
      pub proof : HasProof crates fetch_actor_key now (verification_input env server request) key_id
      pub read : server.from_slice request.body ≡ some activity
      pub fetched : fetch_actor_key key_id ≡ ok key
      pub owner : same_activitypub_id key.owner (chars activity.actor) ≡ true
      pub document : key_document_matches_actor env server key_id (chars activity.actor) ≡ true

    read_activity-IsSignedBy :
        (request : InboxRequest) (account_id : AccountId) (key_id : Text) {dto : InboxActivityDto}
        → HasProof crates fetch_actor_key now (verification_input env server request) key_id
        → read_activity env server crates fetch_actor_key now request account_id key_id
          ≡ answered dto
        → IsSignedBy request dto.activity
    unfolding read_activity ensure_signature_owner_matches_actor
    read_activity-IsSignedBy request account_id key_id {dto} proof h =
        let owned : Activity → Answer (Unit {0}) =
          ensure_signature_owner_matches_actor env server crates fetch_actor_key now key_id in
        let same : ActorPublicKey → Activity → Bool = λ actor_key activity.
          same_activitypub_id actor_key.owner (chars activity.actor)
          && key_document_matches_actor env server key_id (chars activity.actor) in
        let (activity, read, h1) =
          bind_answered (unless_none bad_request (server.from_slice request.body))
            (λ activity. owned activity >>= λ _.
              answered (dto_of env server crates fetch_actor_key now request account_id activity))
            h in
        let (_, checked, h2) =
          bind_answered (owned activity)
            (λ _.
              answered (dto_of env server crates fetch_actor_key now request account_id activity))
            h1 in
        let (actor_key, fetched, h3) =
          bind_answered (key_or_unauthorized env server (fetch_actor_key key_id))
            (λ actor_key. require (same actor_key activity) unauthorized) checked in
        let (owner, document) =
          and-true _ _ (require-true (same actor_key activity) unauthorized h3) in
        subst (IsSignedBy request) (ap (activity_or activity) h2) (record {
          key_id = key_id;
          key = actor_key;
          proof = proof;
          read = unless_none-some bad_request (server.from_slice request.body) read;
          fetched = key_or_unauthorized-ok (fetch_actor_key key_id) fetched;
          owner = owner;
          document = document;
        })

    admit-IsSignedBy :
        (request : InboxRequest) (w : Network) {dto : InboxActivityDto}
        → admit env server crates fetch_actor_key now request w ≡ answered dto
        → IsSignedBy request dto.activity
    unfolding admit
    admit-IsSignedBy request w {dto} h =
        let verified =
          key_id_of env server
            (verify crates fetch_actor_key now (verification_input env server request)) in
        let read : AccountId → Text → Answer InboxActivityDto =
          read_activity env server crates fetch_actor_key now request in
        let (account_id, _, h1) =
          bind_answered (check_request env server crates fetch_actor_key now request w)
            (λ account_id. verified >>= read account_id) h in
        let (key_id, valid_eq, h2) = bind_answered verified (read account_id) h1 in
        read_activity-IsSignedBy request account_id key_id
          (verify-HasProof crates fetch_actor_key now (verification_input env server request) key_id
            (key_id_of-valid _ valid_eq))
          h2

    handled-eq :
        (request : InboxRequest) (w : Network) (a : Answer InboxActivityDto)
        → admit env server crates fetch_actor_key now request w ≡ a
        → ((handled env server crates fetch_actor_key now a w).1 ≡ w)
          ⊎ ((dto : InboxActivityDto) × IsSignedBy request dto.activity
              × ((handled env server crates fetch_actor_key now a w).1
                  ≡ (handle_inbox_activity env dto w).1))
    handled-eq request w (refused status) e = inl refl
    handled-eq request w (answered dto) e = inr (dto, admit-IsSignedBy request w e, refl)

    -- Whatever is posted to an inbox changes nothing, or it is what the handler makes of an activity
    -- that the body reads as, where the verifier's proof holds of the request for a key whose owner
    -- and whose document are the activity's actor, up to trailing slashes.
    pub post_inbox-IsSignedBy :
        (request : InboxRequest) (w : Network)
        → ((post_inbox env server crates fetch_actor_key now request w).1 ≡ w)
          ⊎ ((dto : InboxActivityDto) × IsSignedBy request dto.activity
              × ((post_inbox env server crates fetch_actor_key now request w).1
                  ≡ (handle_inbox_activity env dto w).1))
    unfolding post_inbox
    post_inbox-IsSignedBy request w = handled-eq request w _ refl
