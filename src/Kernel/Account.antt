-- ===== src/Kernel/Account.antt =====
-- kernel/src/entity/account.rs: the account aggregate, its events, its commands and `apply`.
pub mod Status
pub mod Lifecycle
pub mod Replay
pub mod Balance
pub mod Identity
pub use Status.{AccountStatus, is_active, is_suspended, is_banned}
use Prim.Native.String.{String}
use emumet.Prelude.{ℕ, Option, none, some, Bool, is_some, is_none, if◌then◌else◌}
use emumet.Kernel.Error.{Result, ok, err, internal}
use emumet.Kernel.Exec.{Exec}
use emumet.Kernel.Event.{
  OffsetDateTime, EventVersion, EventId, EventEnvelope, ExpectedVersion, nothing, at,
  CommandEnvelope, EventApplier,
}
use emumet.Kernel.Id.{Externals, extract_timestamp_ms, from_timestamp_ms}

abbrev pub AccountId : Type 0
AccountId = ℕ

abbrev pub AuthAccountId : Type 0
AuthAccountId = ℕ

pub record Account : Type 0 where
  pub id : AccountId
  pub name : String
  pub is_bot : Bool
  pub status : AccountStatus
  pub deleted_at : Option OffsetDateTime
  pub version : EventVersion
  pub nanoid : String
  pub created_at : OffsetDateTime

pub data AccountEvent : Type 0 where
  -- name, is_bot, nanoid, auth_account_id
  created : String → Bool → String → AuthAccountId → AccountEvent
  updated : Bool → AccountEvent
  deactivated : AccountEvent
  -- reason, suspended_at, expires_at
  suspended : String → OffsetDateTime → Option OffsetDateTime → AccountEvent
  unsuspended : AccountEvent
  -- reason, banned_at
  banned : String → OffsetDateTime → AccountEvent
  unbanned : AccountEvent
  reactivated : AccountEvent

abbrev pub AccountCommand : Type 0
AccountCommand = CommandEnvelope AccountEvent

unfoldable pub create : AccountId → String → Bool → String → AuthAccountId → AccountCommand
create id name is_bot nanoid auth_account_id = record {
  id = id;
  event = created name is_bot nanoid auth_account_id;
  prev_version = some nothing;
}

unfoldable pub update : AccountId → Bool → EventVersion → AccountCommand
update id is_bot current_version = record {
  id = id;
  event = updated is_bot;
  prev_version = some (at current_version);
}

unfoldable pub deactivate : AccountId → EventVersion → AccountCommand
deactivate id current_version = record {
  id = id;
  event = deactivated;
  prev_version = some (at current_version);
}

-- `now` is `OffsetDateTime::now_utc()`
unfoldable pub suspend :
    OffsetDateTime → AccountId → String → Option OffsetDateTime → EventVersion → AccountCommand
suspend now id reason expires_at current_version = record {
  id = id;
  event = suspended reason now expires_at;
  prev_version = some (at current_version);
}

unfoldable pub unsuspend : AccountId → EventVersion → AccountCommand
unsuspend id current_version = record {
  id = id;
  event = unsuspended;
  prev_version = some (at current_version);
}

unfoldable pub ban : OffsetDateTime → AccountId → String → EventVersion → AccountCommand
ban now id reason current_version = record {
  id = id;
  event = banned reason now;
  prev_version = some (at current_version);
}

unfoldable pub unban : AccountId → EventVersion → AccountCommand
unban id current_version = record {
  id = id;
  event = unbanned;
  prev_version = some (at current_version);
}

unfoldable pub reactivate : AccountId → EventVersion → AccountCommand
reactivate id current_version = record {
  id = id;
  event = reactivated;
  prev_version = some (at current_version);
}

-- the arm of `Created` on an empty slot
unfoldable pub create_entity :
    EventEnvelope AccountEvent
    → String
    → Bool
    → String
    → Result OffsetDateTime
    → Result (Unit {0}) × Option Account
create_entity event name is_bot nanoid (err e) = (err e, none)
create_entity event name is_bot nanoid (ok created_at) = (
  ok tt,
  some (record {
    id = event.id;
    name = name;
    is_bot = is_bot;
    status = AccountStatus.active;
    deleted_at = none;
    version = event.version;
    nanoid = nanoid;
    created_at = created_at;
  }),
)

-- the arms on an account, in the order of the source's guards
modify : OffsetDateTime → AccountEvent → EventVersion → Account → Result (Unit {0}) × Option Account
modify now (created _ _ _ _) version account = (err internal, some account)
modify now (updated is_bot) version account =
    (ok tt, some (record account { is_bot = is_bot; version = version }))
modify now deactivated version account =
    if is_some account.deleted_at
    then (err internal, some account)
    else (ok tt, some (record account { deleted_at = some now; version = version }))
modify now (suspended reason suspended_at expires_at) version account =
    if is_active account.status
    then (if is_some account.deleted_at then (err internal, some account) else (
      ok tt,
      some (record account {
        status = AccountStatus.suspended reason suspended_at expires_at;
        version = version;
      }),
    ))
    else (err internal, some account)
modify now unsuspended version account =
    if is_suspended account.status
    then (ok tt, some (record account { status = AccountStatus.active; version = version }))
    else (err internal, some account)
modify now (banned reason banned_at) version account =
    if is_banned account.status
    then (err internal, some account)
    else if is_some account.deleted_at
    then (err internal, some account)
    else (
      ok tt,
      some (record account { status = AccountStatus.banned reason banned_at; version = version }),
    )
modify now unbanned version account =
    if is_banned account.status
    then (ok tt, some (record account { status = AccountStatus.active; version = version }))
    else (err internal, some account)
modify now reactivated version account =
    if is_none account.deleted_at
    then (err internal, some account)
    else (ok tt, some (record account { deleted_at = none; version = version }))

-- `apply` of an event to an empty slot: only `Created` succeeds
start : Externals → AccountEvent → EventEnvelope AccountEvent → Result (Unit {0}) × Option Account
unfolding create_entity
start x (created name is_bot nanoid _) event =
    create_entity event name is_bot nanoid (from_timestamp_ms x (extract_timestamp_ms x event.id))
start x _ event = (err internal, none)

unfoldable pub apply :
    Externals → OffsetDateTime → EventEnvelope AccountEvent → Exec (Option Account) (Unit {0})
unfolding modify start
apply x now event none = start x event.event event
apply x now event (some account) = modify now event.event event.version account

unfoldable pub account_applier : Externals → EventApplier Account AccountEvent
unfolding apply
account_applier x = record { apply = apply x }
