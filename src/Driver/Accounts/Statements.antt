-- ===== src/Driver/Accounts/Statements.antt =====
-- driver/src/database/postgres/account/mod.rs: the queries for several accounts, and the writes that
-- go around the projector. The unique columns and the checks are those of migrations/.
use Prim.Native.String.{String}
use text.Mathlib.Text.{◌==◌ as str_eq}
use emumet.Prelude.{
  Option, none, some, Bool, true, false, not, ◌&&◌, ◌||◌, List, [], ◌∷◌, ◌++◌, map, ◌==◌,
  if◌then◌else◌, filter, any, is_some, is_none,
}
use emumet.Kernel.Error.{ok, err, internal, not_found}
use emumet.Kernel.Exec.{Exec, gets}
use emumet.Kernel.Event.{OffsetDateTime}
use emumet.Kernel.Account.{Account, AccountId, AuthAccountId}
use emumet.Driver.Accounts.{
  AccountRow, AccountTables, account_from_row, to_row, with_id, is_visible,
}

abbrev named : List String → AccountRow → Bool
named nanoids row = any (λ nanoid. str_eq row.nanoid nanoid) nanoids

-- INNER JOIN: a row for each link of the principal
abbrev linked_rows :
    AuthAccountId → List AccountRow → List (AccountId × AuthAccountId) → List AccountRow
linked_rows auth_id [] links = []
linked_rows auth_id (row ∷ rows) links =
    map (λ _. row)
      (filter (λ (link : AccountId × AuthAccountId). link.0 == row.id && link.1 == auth_id) links)
    ++ linked_rows auth_id rows links

module _ (now : OffsetDateTime) where
  -- suspended and banned accounts are shown, deleted ones are not
  unfoldable pub find_by_auth_id : AuthAccountId → Exec AccountTables (List Account)
  unfolding account_from_row
  find_by_auth_id auth_id = gets λ t.
      map (λ row. account_from_row now row true)
        (filter (λ (row : AccountRow). is_none row.deleted_at)
          (linked_rows auth_id t.accounts t.links))

  unfoldable pub find_by_nanoids : List String → Exec AccountTables (List Account)
  unfolding account_from_row
  find_by_nanoids nanoids = gets λ t.
      map (λ row. account_from_row now row false)
        (filter (λ row. named nanoids row && is_visible now row) t.accounts)

  unfoldable pub find_by_nanoids_unfiltered : List String → Exec AccountTables (List Account)
  unfolding account_from_row
  find_by_nanoids_unfiltered nanoids = gets λ t.
      map (λ row. account_from_row now row true)
        (filter (λ row. named nanoids row && is_none row.deleted_at) t.accounts)

abbrev is_taken : AccountRow → AccountRow → Bool
is_taken row other =
    other.id == row.id || str_eq other.name row.name || str_eq other.nanoid row.nanoid

-- INSERT of six columns, where the others are NULL
unfoldable pub create : Account → Exec AccountTables (Unit {0})
unfolding to_row
create account t =
    let row = record (to_row account) {
      deleted_at = none;
      suspended_at = none;
      suspend_expires_at = none;
      suspend_reason = none;
      banned_at = none;
      ban_reason = none;
    } in
    if any (is_taken row) t.accounts
    then (err internal, t)
    else (ok tt, record t { accounts = t.accounts ++ row ∷ [] })

abbrev on_row : AccountId → (AccountRow → AccountRow) → AccountTables → AccountTables
on_row id change t = record t {
  accounts = map (λ row. if with_id id row then change row else row) t.accounts;
}

-- `SET name = .., is_bot = .., version = .., deleted_at = ..` and the five columns of the status
abbrev pub set_columns : AccountRow → AccountRow → AccountRow
set_columns new row = record new { id = row.id; nanoid = row.nanoid; created_at = row.created_at }

unfoldable pub update : Account → Exec AccountTables (Unit {0})
unfolding to_row
update account t =
    let row = to_row account in
    if any (with_id row.id) t.accounts
    then (if any (λ (other : AccountRow). not (other.id == row.id) && str_eq other.name row.name)
          t.accounts
        then (err internal, t)
        else (ok tt, on_row row.id (set_columns row) t))
    else (err not_found, t)

-- CASE WHEN deleted_at IS NULL THEN now() ELSE deleted_at END
abbrev first_deletion : OffsetDateTime → Option OffsetDateTime → Option OffsetDateTime
first_deletion now none = some now
first_deletion now (some at) = some at

unfoldable pub deactivate : OffsetDateTime → AccountId → Exec AccountTables (Unit {0})
deactivate now id t =
    if any (with_id id) t.accounts
    then (
      ok tt,
      on_row id
          (λ (row : AccountRow). record row { deleted_at = first_deletion now row.deleted_at }) t,
    )
    else (err not_found, t)

unfoldable pub unlink_all_auth_accounts : AccountId → Exec AccountTables (Unit {0})
unlink_all_auth_accounts id t = (
  ok tt,
  record t { links = filter (λ (link : AccountId × AuthAccountId). not (link.0 == id)) t.links },
)

-- chk_not_both_suspended_and_banned refuses the row of a banned account
unfoldable pub suspend :
    OffsetDateTime → AccountId → String → Option OffsetDateTime → Exec AccountTables (Unit {0})
suspend now id reason expires_at t =
    if any (λ (row : AccountRow). with_id id row && is_some row.banned_at) t.accounts
    then (err internal, t)
    else (
      ok tt,
      on_row id
          (λ (row : AccountRow). record row {
            suspended_at = some now;
            suspend_expires_at = expires_at;
            suspend_reason = some reason;
          })
          t,
    )

unfoldable pub unsuspend : AccountId → Exec AccountTables (Unit {0})
unsuspend id t = (
  ok tt,
  on_row id
      (λ (row : AccountRow). record row {
        suspended_at = none;
        suspend_expires_at = none;
        suspend_reason = none;
      })
      t,
)

unfoldable pub ban : OffsetDateTime → AccountId → String → Exec AccountTables (Unit {0})
ban now id reason t = (
  ok tt,
  on_row id
      (λ (row : AccountRow). record row {
        banned_at = some now;
        ban_reason = some reason;
        suspended_at = none;
        suspend_expires_at = none;
        suspend_reason = none;
      })
      t,
)
