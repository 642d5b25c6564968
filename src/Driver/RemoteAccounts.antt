-- ===== src/Driver/RemoteAccounts.antt =====
-- driver/src/database/postgres/remote_account.rs: the table of remote accounts, as the list of its
-- rows, with the unique columns of migrations/. A row has the fields of kernel/src/entity/
-- remote_account.rs. The foreign key of the icon is left out: no statement of the services sets one.
use Prim.Native.String.{String}
use text.Mathlib.Text.{◌==◌ as str_eq}
use emumet.Prelude.{
  ℕ, Option, Bool, not, ◌&&◌, ◌||◌, List, [], ◌∷◌, ◌++◌, ◌==◌, if◌then◌else◌, filter, any, find?,
}
use emumet.Kernel.Error.{ok, err, internal, not_found}
use emumet.Kernel.Exec.{Exec}
use emumet.Kernel.Relation.{RemoteAccountId}

pub record RemoteAccount : Type 0 where
  pub id : RemoteAccountId
  pub acct : String
  pub url : String
  pub icon_id : Option ℕ
  pub inbox_url : Option String
  pub public_key_pem : Option String

abbrev pub RemoteTable : Type 0
RemoteTable = List RemoteAccount

abbrev pub with_remote_id : RemoteAccountId → RemoteAccount → Bool
with_remote_id id row = row.id == id

abbrev pub with_url : String → RemoteAccount → Bool
with_url url row = str_eq row.url url

abbrev pub with_acct : String → RemoteAccount → Bool
with_acct acct row = str_eq row.acct acct

unfoldable pub find_by_id : RemoteAccountId → Exec RemoteTable (Option RemoteAccount)
find_by_id id rows = (ok (find? (with_remote_id id) rows), rows)

unfoldable pub find_by_acct : String → Exec RemoteTable (Option RemoteAccount)
find_by_acct acct rows = (ok (find? (with_acct acct) rows), rows)

unfoldable pub find_by_url : String → Exec RemoteTable (Option RemoteAccount)
find_by_url url rows = (ok (find? (with_url url) rows), rows)

-- the primary key and the two unique columns
abbrev pub holds_key : RemoteAccount → RemoteAccount → Bool
holds_key account row =
    with_remote_id account.id row || with_acct account.acct row || with_url account.url row

unfoldable pub create : RemoteAccount → Exec RemoteTable (Unit {0})
create account rows =
    if any (holds_key account) rows then (err internal, rows) else (ok tt, rows ++ account ∷ [])

abbrev pub replace_remote : RemoteAccount → RemoteTable → RemoteTable
replace_remote account [] = []
replace_remote account (row ∷ rows) =
    (if with_remote_id account.id row then account else row) ∷ replace_remote account rows

-- another row holds one of the unique columns
abbrev pub holds_unique : RemoteAccount → RemoteAccount → Bool
holds_unique account row =
    not (with_remote_id account.id row) && (with_acct account.acct row || with_url account.url row)

-- UPDATE .. WHERE id = $1
unfoldable pub update : RemoteAccount → Exec RemoteTable (Unit {0})
update account rows =
    if any (with_remote_id account.id) rows
    then (if any (holds_unique account) rows
        then (err internal, rows)
        else (ok tt, replace_remote account rows))
    else (err not_found, rows)

-- DELETE .. WHERE id = $1
unfoldable pub delete : RemoteAccountId → Exec RemoteTable (Unit {0})
delete id rows =
    if any (with_remote_id id) rows
    then (ok tt, filter (λ row. not (with_remote_id id row)) rows)
    else (err not_found, rows)
