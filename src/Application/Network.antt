-- ===== src/Application/Network.antt =====
-- The state that the services on relations share, and the steps that they share: resolving an account
-- and delivering an activity. From application/src/service/activitypub/{remote_actor,outbox}.rs,
-- with the transaction manager of driver/src/database/postgres.rs.
pub mod Deliveries
use Prim.Native.Char.{code}
use Prim.Native.String.{String}
use Prim.Native.String as String
use emumet.Prelude.{
  ℕ, ◌≡◌, arith, Option, none, some, Bool, true, false, List, [], ◌∷◌, ◌++◌, ◌==◌, if◌then◌else◌,
  any,
}
use emumet.Kernel.Error.{KernelError, Result, ok, err, rejected, not_found, ok_or}
use emumet.Kernel.Exec.{Exec, pure, raise, lift, ◌>>=◌, ◌>>◌}
use emumet.Kernel.Event.{OffsetDateTime}
use emumet.Kernel.Account.{Account, AccountId}
use emumet.Kernel.Activity.{Activity, Serde}
use emumet.Kernel.Permission.{Check}
use emumet.Kernel.Relation.{RemoteAccountId}
use emumet.Driver.Accounts.{AccountTables, find_by_nanoid, with_id}
use emumet.Driver.Relations.{RelationRow, ForeignKeys}
use emumet.Driver.RemoteAccounts.{RemoteAccount, RemoteTable, with_remote_id}
use emumet.Driver.RemoteAccounts as RemoteAccounts
use emumet.Driver.Outbox.{Outbox, OutboxActivity, mark_delivered, mark_delivery_attempt}
use emumet.Application.Follows.{FollowTable}

-- a request to the inbox of a remote account
pub record Delivery : Type 0 where
  pub account_id : AccountId
  pub inbox_url : String
  pub activity : Activity

pub record Network : Type 0 where
  pub accounts : AccountTables
  pub remote_accounts : RemoteTable
  pub follows : FollowTable
  pub blocks : List (RelationRow (Unit {0}))
  pub mutes : List (RelationRow (Unit {0}))
  pub outbox : Outbox
  -- the deliveries that were asked for, the latest last
  pub deliveries : List Delivery

-- `ResolvedRemoteActor`
pub record ResolvedRemoteActor : Type 0 where
  pub acct : String
  pub url : String
  pub inbox_url : Option String
  pub public_key_pem : Option String

-- what the outside answers while one request runs
pub record Outside : Type 0 where
  -- the relation service
  pub check : Check
  pub public_base_url : String
  pub serde : Serde
  -- the requests to other servers: an actor document, WebFinger, and an inbox
  pub resolve_remote_actor : String → Result ResolvedRemoteActor
  pub resolve_remote_webfinger : String → String → Result ResolvedRemoteActor
  pub deliver : Delivery → Result (Unit {0})
  -- the text of an error report
  pub describe : KernelError → String
  -- the clock, where the queries, the approval and the outbox read it
  pub queried_at : OffsetDateTime
  pub approved_at : OffsetDateTime
  pub stored_at : OffsetDateTime
  pub marked_at : OffsetDateTime
  -- the ids that the generator returns
  pub remote_account_id : RemoteAccountId
  pub relation_id : ℕ
  pub activity_id : ℕ

-- the rows that the foreign keys refer to
abbrev pub foreign_keys : Network → ForeignKeys
foreign_keys w = record {
  has_account = λ id. any (with_id id) w.accounts.accounts;
  has_remote_account = λ id. any (with_remote_id id) w.remote_accounts;
}

-- what was written is taken back, but not the serial values that were drawn; no delivery is made
-- inside a transaction
abbrev pub roll_back : Network → Network → Network
roll_back before after = record before {
  outbox = record before.outbox { next_id = after.outbox.next_id };
}

module _ {A : Type 0} where
  abbrev pub on_accounts : Exec AccountTables A → Exec Network A
  on_accounts m w = let (r, accounts) = m w.accounts in (r, record w { accounts = accounts })

  abbrev pub on_remote_accounts : Exec RemoteTable A → Exec Network A
  on_remote_accounts m w =
      let (r, rows) = m w.remote_accounts in (r, record w { remote_accounts = rows })

  abbrev pub on_follows : (ForeignKeys → Exec FollowTable A) → Exec Network A
  on_follows m w = let (r, rows) = m (foreign_keys w) w.follows in (r, record w { follows = rows })

  abbrev pub on_blocks : (ForeignKeys → Exec (List (RelationRow (Unit {0}))) A) → Exec Network A
  on_blocks m w = let (r, rows) = m (foreign_keys w) w.blocks in (r, record w { blocks = rows })

  abbrev pub on_mutes : (ForeignKeys → Exec (List (RelationRow (Unit {0}))) A) → Exec Network A
  on_mutes m w = let (r, rows) = m (foreign_keys w) w.mutes in (r, record w { mutes = rows })

  abbrev pub on_outbox : Exec Outbox A → Exec Network A
  on_outbox m w = let (r, outbox) = m w.outbox in (r, record w { outbox = outbox })

  -- `TransactionManager::transaction`
  unfoldable pub transaction : Exec Network A → Exec Network A
  transaction operation w =
      let (r, w') = operation w in elim r [ ok a ↦ (ok a, w') | err e ↦ (err e, roll_back w w') ]

-- A transaction whose body succeeds is that body.
pub transaction_of_ok :
    {A : Type 0} (m : Exec Network A) (w w' : Network) (a : A)
    → m w ≡ (ok a, w')
    → transaction m w ≡ (ok a, w')
unfolding transaction
transaction_of_ok m w w' a h = ground arith

-- `strip_prefix`
unfoldable pub strip_prefix : String → String → Option String
strip_prefix String.[] s = some s
strip_prefix (String.◌∷◌ c p) String.[] = none
strip_prefix (String.◌∷◌ c p) (String.◌∷◌ d s) =
    let rest = strip_prefix p s in if code c == code d then rest else none

abbrev put_front : String → Option (String × String) → Option (String × String)
put_front c none = none
put_front c (some (front, rest)) = some (String.◌++◌ c front, rest)

-- `split_once('@')`
unfoldable pub split_once_at : String → Option (String × String)
split_once_at String.[] = none
split_once_at (String.◌∷◌ c s) =
    let rest = split_once_at s in
    if code c == b'@' then some ("", s) else put_front (String.◌∷◌ c "") rest

abbrev split_acct : Option String → Option (String × String)
split_acct none = none
split_acct (some handle) = split_once_at handle

abbrev is_empty : String → Bool
is_empty String.[] = true
is_empty (String.◌∷◌ c s) = false

module _ (env : Outside) where
  resolve_parts : String → Option (String × String) → Result ResolvedRemoteActor
  resolve_parts identifier none = env.resolve_remote_actor identifier
  resolve_parts identifier (some (user, domain)) =
      if is_empty user
      then err rejected
      else if is_empty domain
      then err rejected
      else env.resolve_remote_webfinger user domain

  unfoldable pub resolve_remote_actor_identifier : String → Result ResolvedRemoteActor
  unfolding resolve_parts strip_prefix split_once_at
  resolve_remote_actor_identifier identifier =
      resolve_parts identifier (split_acct (strip_prefix "acct:" identifier))

  upsert_existing : ResolvedRemoteActor → Option RemoteAccount → Exec RemoteTable RemoteAccount
  upsert_existing actor (some existing) = do
    let updated : RemoteAccount = record {
      id = existing.id;
      acct = actor.acct;
      url = actor.url;
      icon_id = existing.icon_id;
      inbox_url = actor.inbox_url;
      public_key_pem = actor.public_key_pem;
    }
    RemoteAccounts.update updated
    pure updated
  upsert_existing actor none = do
    let remote_account : RemoteAccount = record {
      id = env.remote_account_id;
      acct = actor.acct;
      url = actor.url;
      icon_id = none;
      inbox_url = actor.inbox_url;
      public_key_pem = actor.public_key_pem;
    }
    RemoteAccounts.create remote_account
    pure remote_account

  unfoldable pub upsert_remote_account : ResolvedRemoteActor → Exec RemoteTable RemoteAccount
  unfolding upsert_existing
  upsert_remote_account actor = RemoteAccounts.find_by_url actor.url >>= upsert_existing actor

  -- `account_query().find_by_nanoid(..)`, or `NotFound`
  unfoldable pub find_account : String → Exec Network Account
  find_account nanoid = do
    account ← on_accounts (find_by_nanoid env.queried_at nanoid)
    lift (ok_or not_found account)

  mark : ℕ → Result (Unit {0}) → Exec Network (Unit {0})
  mark outbox_id (ok _) = on_outbox (mark_delivered env.marked_at outbox_id)
  mark outbox_id (err e) =
      on_outbox (mark_delivery_attempt env.marked_at outbox_id (some (env.describe e))) >> raise e

  -- `deliver_activity_to_inbox`
  unfoldable pub deliver_activity_to_inbox : Delivery → Exec Network (Unit {0})
  deliver_activity_to_inbox delivery w =
      (env.deliver delivery, record w { deliveries = w.deliveries ++ delivery ∷ [] })

  unfoldable pub deliver_outbox_activity : ℕ → Delivery → Exec Network (Unit {0})
  unfolding mark
  deliver_outbox_activity outbox_id delivery w =
      let (answer, w') = deliver_activity_to_inbox delivery w in mark outbox_id answer w'

-- the result of a step as a value, for `match`
abbrev pub attempt : Exec Network (Unit {0}) → Exec Network (Result (Unit {0}))
attempt m w = (ok (m w).0, (m w).1)

-- `if let Err(error) = .. { tracing::warn!(..) }`
abbrev pub ignore_error : Exec Network (Unit {0}) → Exec Network (Unit {0})
ignore_error m w = (ok tt, (m w).1)

-- the entry of an activity
abbrev pub outbox_entry :
    AccountId → Activity → String → OffsetDateTime → Option OffsetDateTime → OutboxActivity
outbox_entry account_id activity object_json created_at delivered_at = record {
  id = 0;
  account_id = account_id;
  activity_id = activity.id;
  activity_type = activity.type_;
  object_json = object_json;
  created_at = created_at;
  delivered_at = delivered_at;
  attempted_at = none;
  error = none;
}
