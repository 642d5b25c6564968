-- ===== src/Server/Inbox.antt =====
-- server/src/route/activitypub/inbox.rs, and what it calls of server/src/api/activitypub.rs: a request
-- is admitted to the inbox if its signature is that of the activity's actor.
pub mod Signed
use Prim.Native.String.{String}
use emumet.Prelude.{
  ℕ, Option, none, some, Bool, true, false, ◌&&◌, ◌||◌, List, [], ◌∷◌, ◌++◌, ◌==◌, if◌then◌else◌,
  find?,
}
use emumet.Kernel.Error.{KernelError, Result, ok, err}
use emumet.Kernel.Text.{chars, trim, is_empty}
use emumet.Kernel.Account.{Account, AccountId}
use emumet.Kernel.Activity.{Activity, decimal}
use emumet.Kernel.HttpSigning.{
  Text, Headers, HttpSignatureVerificationInput, ActorPublicKey, SignatureVerificationResult, valid,
  invalid,
}
use emumet.Driver.Accounts.{find_by_nanoid}
use emumet.Driver.HttpSigning.Texts.{
  to_ascii_lowercase, same_text, eq_ignore_ascii_case, starts_with, trim_end_matches,
}
use emumet.Driver.HttpSigning.Messages.{Message}
use emumet.Driver.HttpSigning.Cavage.{Crates}
use emumet.Driver.HttpSigning.Verifier.{verify}
use emumet.Application.Network.{Network, Outside}
use emumet.Application.Inbox.{InboxActivityDto, handle_inbox_activity}

-- a status, or the one that an error of the kernel is answered with
pub data ErrorStatus : Type 0 where
  bad_request unauthorized not_found internal_server_error : ErrorStatus
  kernel_error : KernelError → ErrorStatus

pub data Answer (A : Type 0) : Type 0 where
  answered : A → Answer A
  refused : ErrorStatus → Answer A

infixl 5 ◌>>=◌ ◌>>◌
abbrev pub ◌>>=◌ : {A B : Type 0} → Answer A → (A → Answer B) → Answer B
answered a >>= f = f a
refused status >>= f = refused status

abbrev pub ◌>>◌ : {A B : Type 0} → Answer A → Answer B → Answer B
m >> k = m >>= λ _. k

abbrev pub unless_none : {A : Type 0} → ErrorStatus → Option A → Answer A
unless_none status none = refused status
unless_none status (some a) = answered a

-- an early return unless the test holds
abbrev pub require : Bool → ErrorStatus → Answer (Unit {0})
require true status = answered tt
require false status = refused status

-- the headers in their order, with the text of a value that is one; names are in lower case
abbrev pub HeaderMap : Type 0
HeaderMap = List (Text × Option Text)

abbrev text_of : Option (Text × Option Text) → Option Text
text_of none = none
text_of (some (name, value)) = value

-- `headers.get(name).and_then(|value| value.to_str().ok())`
unfoldable pub header_text : HeaderMap → Text → Option Text
unfolding same_text
header_text headers name =
    text_of (find? (λ (header : Text × Option Text). same_text header.0 name) headers)

-- `insert` of a HashMap
unfoldable pub insert_header : Text → Text → Headers → Headers
unfolding same_text
insert_header name value [] = (name, value) ∷ []
insert_header name value ((other, old) ∷ headers) =
    let rest = insert_header name value headers in
    if same_text other name then (name, value) ∷ headers else (other, old) ∷ rest

unfoldable pub collect_headers : Headers → HeaderMap → Headers
unfolding insert_header
collect_headers collected [] = collected
collect_headers collected ((name, none) ∷ headers) = collect_headers collected headers
collect_headers collected ((name, some value) ∷ headers) =
    collect_headers (insert_header name value collected) headers

abbrev headers_to_map : HeaderMap → Headers
headers_to_map = collect_headers []

unfoldable pub same_activitypub_id : Text → Text → Bool
unfolding same_text trim_end_matches
same_activitypub_id left right =
    same_text (trim_end_matches 0x2f left) (trim_end_matches 0x2f right)

-- the host and the port of a parsed url
pub record BaseUrl : Type 0 where
  pub host : Option Text
  pub port : Option ℕ

pub record InboxRequest : Type 0 where
  pub nanoid : String
  pub original_uri : Text
  pub method : Text
  pub headers : HeaderMap
  pub body : List ℕ

-- the build and the crates: `Url::parse` of the base url, a key's url without its fragment, and
-- `serde_json::from_slice`
pub record Server : Type 0 where
  pub test_mode : Bool
  pub parse_base : String → Option BaseUrl
  pub without_fragment : Text → Option Text
  pub from_slice : List ℕ → Option Activity

abbrev host_and_port : Text → Option ℕ → Text
host_and_port host none = host
host_and_port host (some port) = host ++ chars ":" ++ chars (decimal port)

abbrev is_localhost : Text → Bool
is_localhost actual =
    eq_ignore_ascii_case actual (chars "localhost")
    || starts_with (chars "localhost:") (to_ascii_lowercase actual)

abbrev or_empty : Option Text → Text
or_empty none = []
or_empty (some text) = text

module _ (env : Outside) (server : Server) where
  unfoldable pub public_base_host_header : Answer Text
  unfolding chars decimal
  public_base_host_header = do
    url ← unless_none internal_server_error (server.parse_base env.public_base_url)
    host ← unless_none internal_server_error url.host
    answered (host_and_port host url.port)

  unfoldable pub ensure_host_matches_public_base_url : Text → HeaderMap → Answer (Unit {0})
  unfolding header_text eq_ignore_ascii_case to_ascii_lowercase chars
  ensure_host_matches_public_base_url expected headers = do
    actual ← unless_none unauthorized (header_text headers (chars "host"))
    require (eq_ignore_ascii_case actual expected || server.test_mode && is_localhost actual)
        unauthorized

  abbrev id_or_not_found : Result (Option Account) → Answer AccountId
  id_or_not_found (err e) = refused (kernel_error e)
  id_or_not_found (ok none) = refused not_found
  id_or_not_found (ok (some account)) = answered account.id

  unfoldable pub find_account_id_by_nanoid : String → Network → Answer AccountId
  unfolding trim chars find_by_nanoid
  find_account_id_by_nanoid id w =
      if is_empty (trim (chars id))
      then refused bad_request
      else id_or_not_found (find_by_nanoid env.queried_at id w.accounts).0

  unfoldable pub verification_input : InboxRequest → HttpSignatureVerificationInput
  unfolding collect_headers trim_end_matches chars
  verification_input request = record {
    method = request.method;
    url = trim_end_matches 0x2f (chars env.public_base_url) ++ request.original_uri;
    headers = headers_to_map request.headers;
    body = some request.body;
  }

  abbrev pub key_id_of : SignatureVerificationResult Message → Answer Text
  key_id_of (valid key_id) = answered key_id
  key_id_of (invalid message) = refused unauthorized

  abbrev same_document : Option Text → Text → Bool
  same_document none actor = false
  same_document (some url) actor = same_activitypub_id url actor

  -- `signature_key_document_matches_actor`
  unfoldable pub key_document_matches_actor : Text → Text → Bool
  unfolding same_activitypub_id
  key_document_matches_actor key_id actor = same_document (server.without_fragment key_id) actor

  abbrev pub key_or_unauthorized : Result ActorPublicKey → Answer ActorPublicKey
  key_or_unauthorized (ok key) = answered key
  key_or_unauthorized (err e) = refused unauthorized

  module _ (crates : Crates) (fetch_actor_key : Text → Result ActorPublicKey) (now : ℕ) where
    unfoldable pub ensure_signature_owner_matches_actor : Text → Activity → Answer (Unit {0})
    unfolding same_activitypub_id key_document_matches_actor chars
    ensure_signature_owner_matches_actor key_id activity = do
      actor_key ← key_or_unauthorized (fetch_actor_key key_id)
      require
          (same_activitypub_id actor_key.owner (chars activity.actor)
            && key_document_matches_actor key_id (chars activity.actor))
          unauthorized

    -- the checks in front of the signature: the account whose inbox it is
    unfoldable pub check_request : InboxRequest → Network → Answer AccountId
    unfolding header_text find_account_id_by_nanoid public_base_host_header
        ensure_host_matches_public_base_url same_text chars
    check_request request w = do
      require
          (same_text (or_empty (header_text request.headers (chars "content-type")))
            (chars "application/activity+json"))
          bad_request
      account_id ← find_account_id_by_nanoid request.nanoid w
      host ← public_base_host_header
      ensure_host_matches_public_base_url host request.headers
      answered account_id

    abbrev pub dto_of : InboxRequest → AccountId → Activity → InboxActivityDto
    dto_of request account_id activity = record {
      account_id = account_id;
      account_nanoid = request.nanoid;
      activity = activity;
    }

    -- the activity, where the key is its actor's
    unfoldable pub read_activity : InboxRequest → AccountId → Text → Answer InboxActivityDto
    unfolding ensure_signature_owner_matches_actor
    read_activity request account_id key_id = do
      activity ← unless_none bad_request (server.from_slice request.body)
      ensure_signature_owner_matches_actor key_id activity
      answered (dto_of request account_id activity)

    -- what the handler is called with
    unfoldable pub admit : InboxRequest → Network → Answer InboxActivityDto
    unfolding check_request verification_input verify read_activity
    admit request w = do
      account_id ← check_request request w
      key_id ← key_id_of (verify crates fetch_actor_key now (verification_input request))
      read_activity request account_id key_id

    abbrev accepted : Result (Unit {0}) → Answer (Unit {0})
    accepted (ok _) = answered tt
    accepted (err e) = refused (kernel_error e)

    abbrev pub handled : Answer InboxActivityDto → Network → Answer (Unit {0}) × Network
    handled (refused status) w = (refused status, w)
    handled (answered dto) w = let (r, w') = handle_inbox_activity env dto w in (accepted r, w')

    unfoldable pub post_inbox : InboxRequest → Network → Answer (Unit {0}) × Network
    unfolding admit handle_inbox_activity
    post_inbox request w = handled (admit request w) w
