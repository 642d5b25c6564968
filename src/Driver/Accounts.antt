-- ===== src/Driver/Accounts.antt =====
-- driver/src/database/postgres/account/{mod,row}.rs and the account writer of projection.rs: the
-- read model of accounts. A table is a list of rows; `now` is the database's `now()`, or the
-- process's `OffsetDateTime::now_utc()`. The unique columns are those of migrations/.
pub mod Rows
pub mod Upsert
pub mod Statements
use Prim.Native.String.{String}
use text.Mathlib.Text.{◌==◌ as str_eq}
use mathlib.Core.Option
use emumet.Prelude.{
  ℕ, Option, none, some, Bool, true, false, not, ◌&&◌, ◌||◌, List, [], ◌∷◌, ◌++◌, map, ltb, leb,
  ◌==◌, if◌then◌else◌, filter, any, find?, is_some, is_none,
}
use emumet.Kernel.Error.{ok, err, internal, not_found}
use emumet.Kernel.Exec.{Exec, pure, raise, gets}
use emumet.Kernel.Event.{OffsetDateTime, EventVersion}
use emumet.Kernel.Account.{Account, AccountId, AuthAccountId, AccountStatus}
use emumet.Kernel.Account.Status.{active, suspended, banned}

pub record AccountRow : Type 0 where
  pub id : AccountId
  pub name : String
  pub is_bot : Bool
  pub deleted_at : Option OffsetDateTime
  pub version : EventVersion
  pub nanoid : String
  pub created_at : OffsetDateTime
  pub suspended_at : Option OffsetDateTime
  pub suspend_expires_at : Option OffsetDateTime
  pub suspend_reason : Option String
  pub banned_at : Option OffsetDateTime
  pub ban_reason : Option String

-- `Some(expires_at)` with `expires_at <= now`
abbrev pub has_expired : OffsetDateTime → Option OffsetDateTime → Bool
has_expired now none = false
has_expired now (some expires_at) = leb expires_at now

suspension :
    OffsetDateTime
    → Bool
    → Option OffsetDateTime
    → Option String
    → Option OffsetDateTime
    → AccountStatus
suspension now check (some suspended_at) (some reason) expires_at =
    if check && has_expired now expires_at then active else suspended reason suspended_at expires_at
suspension now check _ _ expires_at = active

row_status :
    OffsetDateTime → Bool → Option OffsetDateTime → Option String → AccountRow → AccountStatus
unfolding suspension
row_status now check (some banned_at) (some reason) row = banned reason banned_at
row_status now check _ _ row =
    suspension now check row.suspended_at row.suspend_reason row.suspend_expires_at

unfoldable pub account_from_row : OffsetDateTime → AccountRow → Bool → Account
unfolding row_status
account_from_row now row check_suspend_expiry = record {
  id = row.id;
  name = row.name;
  is_bot = row.is_bot;
  status = row_status now check_suspend_expiry row.banned_at row.ban_reason row;
  deleted_at = row.deleted_at;
  version = row.version;
  nanoid = row.nanoid;
  created_at = row.created_at;
}

suspended_at_of : AccountStatus → Option OffsetDateTime
suspended_at_of (suspended _ suspended_at _) = some suspended_at
suspended_at_of _ = none

suspend_expires_at_of : AccountStatus → Option OffsetDateTime
suspend_expires_at_of (suspended _ _ expires_at) = expires_at
suspend_expires_at_of _ = none

suspend_reason_of : AccountStatus → Option String
suspend_reason_of (suspended reason _ _) = some reason
suspend_reason_of _ = none

banned_at_of : AccountStatus → Option OffsetDateTime
banned_at_of (banned _ banned_at) = some banned_at
banned_at_of _ = none

ban_reason_of : AccountStatus → Option String
ban_reason_of (banned reason _) = some reason
ban_reason_of _ = none

-- the values that `upsert` binds
unfoldable pub to_row : Account → AccountRow
unfolding suspended_at_of suspend_expires_at_of suspend_reason_of banned_at_of ban_reason_of
to_row account = record {
  id = account.id;
  name = account.name;
  is_bot = account.is_bot;
  deleted_at = account.deleted_at;
  version = account.version;
  nanoid = account.nanoid;
  created_at = account.created_at;
  suspended_at = suspended_at_of account.status;
  suspend_expires_at = suspend_expires_at_of account.status;
  suspend_reason = suspend_reason_of account.status;
  banned_at = banned_at_of account.status;
  ban_reason = ban_reason_of account.status;
}

-- the tables `accounts` and `auth_emumet_accounts`, and the ids of `auth_accounts`
pub record AccountTables : Type 0 where
  pub accounts : List AccountRow
  -- (emumet_id, auth_id)
  pub links : List (AccountId × AuthAccountId)
  pub auth_accounts : List AuthAccountId

abbrev pub with_id : AccountId → AccountRow → Bool
with_id id row = row.id == id

abbrev with_nanoid : String → AccountRow → Bool
with_nanoid nanoid row = str_eq row.nanoid nanoid

-- deleted_at IS NULL AND banned_at IS NULL AND (suspended_at IS NULL OR (.. expired))
abbrev pub is_visible : OffsetDateTime → AccountRow → Bool
is_visible now row =
    is_none row.deleted_at
    && is_none row.banned_at
    && (is_none row.suspended_at || has_expired now row.suspend_expires_at)

abbrev is_live : AccountRow → Bool
is_live row = is_none row.deleted_at

module _ (now : OffsetDateTime) where
  unfoldable pub find_by_nanoid : String → Exec AccountTables (Option Account)
  unfolding account_from_row
  find_by_nanoid nanoid = gets λ t.
      Option.map (λ row. account_from_row now row false)
        (find? (λ row. with_nanoid nanoid row && is_visible now row) t.accounts)

  unfoldable pub find_by_id : AccountId → Exec AccountTables (Option Account)
  unfolding account_from_row
  find_by_id id = gets λ t.
      Option.map (λ row. account_from_row now row false)
        (find? (λ row. with_id id row && is_visible now row) t.accounts)

  unfoldable pub find_by_name : String → Exec AccountTables (Option Account)
  unfolding account_from_row
  find_by_name name = gets λ t.
      Option.map (λ row. account_from_row now row false)
        (find? (λ row. str_eq row.name name && is_visible now row) t.accounts)

  unfoldable pub find_by_nanoid_unfiltered : String → Exec AccountTables (Option Account)
  unfolding account_from_row
  find_by_nanoid_unfiltered nanoid = gets λ t.
      Option.map (λ row. account_from_row now row true)
        (find? (λ row. with_nanoid nanoid row && is_live row) t.accounts)

  unfoldable pub find_by_nanoid_including_deleted : String → Exec AccountTables (Option Account)
  unfolding account_from_row
  find_by_nanoid_including_deleted nanoid =
      gets λ t.
        Option.map (λ row. account_from_row now row true) (find? (with_nanoid nanoid) t.accounts)

  unfoldable pub find_by_id_unfiltered : AccountId → Exec AccountTables (Option Account)
  unfolding account_from_row
  find_by_id_unfiltered id = gets λ t.
      Option.map (λ row. account_from_row now row true)
        (find? (λ row. with_id id row && is_live row) t.accounts)

  unfoldable pub find_by_id_including_deleted : AccountId → Exec AccountTables (Option Account)
  unfolding account_from_row
  find_by_id_including_deleted id =
      gets λ t. Option.map (λ row. account_from_row now row true) (find? (with_id id) t.accounts)

abbrev pub is_link : AccountId → AuthAccountId → AccountId × AuthAccountId → Bool
is_link id auth_id (i, a) = i == id && a == auth_id

unfoldable pub is_linked_including_deleted : AuthAccountId → AccountId → Exec AccountTables Bool
is_linked_including_deleted auth_id id = gets λ t. any (is_link id auth_id) t.links

-- LIMIT 1 without an order: of several linked principals the first row stands for the one that the
-- database picks
unfoldable pub find_auth_account_id_by_account_id :
    AccountId → Exec AccountTables (Option AuthAccountId)
find_auth_account_id_by_account_id id = gets λ t.
    Option.map (λ (link : AccountId × AuthAccountId). link.1)
      (find? (λ (link : AccountId × AuthAccountId). link.0 == id) t.links)

abbrev pub has_auth_account : AuthAccountId → AccountTables → Bool
has_auth_account auth_id t = any (λ a. a == auth_id) t.auth_accounts

-- INSERT .. ON CONFLICT DO NOTHING, under the foreign keys of both columns
unfoldable pub link_auth_account : AccountId → AuthAccountId → Exec AccountTables (Unit {0})
link_auth_account id auth_id t =
    if any (is_link id auth_id) t.links
    then (ok tt, t)
    else if any (with_id id) t.accounts && has_auth_account auth_id t
    then (ok tt, record t { links = t.links ++ (id, auth_id) ∷ [] })
    else (err internal, t)

-- another row holds the unique name or nanoid
abbrev clashes : AccountRow → AccountRow → Bool
clashes row other =
    not (other.id == row.id) && (str_eq other.name row.name || str_eq other.nanoid row.nanoid)

abbrev replace_row : AccountRow → List AccountRow → List AccountRow
replace_row row [] = []
replace_row row (r ∷ rows) = if r.id == row.id then row ∷ rows else r ∷ replace_row row rows

-- INSERT .. ON CONFLICT (id) DO UPDATE .. WHERE accounts.version < EXCLUDED.version
upsert_row : AccountRow → Option AccountRow → Exec AccountTables (Unit {0})
upsert_row row none t =
    if any (clashes row) t.accounts
    then (err internal, t)
    else (ok tt, record t { accounts = t.accounts ++ row ∷ [] })
upsert_row row (some old) t =
    if ltb old.version row.version
    then (if any (clashes row) t.accounts
        then (err internal, t)
        else (ok tt, record t { accounts = replace_row row t.accounts }))
    else (ok tt, t)

-- `AccountProjectionWriter::upsert`
unfoldable pub upsert : Account → Exec AccountTables (Unit {0})
unfolding upsert_row to_row
upsert account t = let row = to_row account in upsert_row row (find? (with_id row.id) t.accounts) t
