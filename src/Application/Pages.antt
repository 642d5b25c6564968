-- ===== src/Application/Pages.antt =====
-- application/src/dto/pagination.rs and application/src/service/account/read.rs: pages of accounts,
-- and the accounts that a principal may see. A type with an order is given by its key, as the order
-- of `Account` is that of its id.
pub mod Walks
pub mod Cursors
use Prim.Native.String.{String}
use text.Mathlib.Text.{◌==◌ as str_eq}
use mathlib.Core.List.{reverse}
use emumet.Prelude.{
  ℕ, Option, none, some, Bool, true, false, List, [], ◌∷◌, map, ltb, leb, if◌then◌else◌, filter,
  take,
}
use emumet.Prelude.Sort.{sort_by_key}
use emumet.Kernel.Error.{Result, ok, err, is_ok}
use emumet.Kernel.Exec.{Exec, pure, ◌>>=◌, ◌>>◌}
use emumet.Kernel.Event.{OffsetDateTime}
use emumet.Kernel.Account.{Account, AuthAccountId}
use emumet.Kernel.Permission.{Check, check_permission, account_view}
use emumet.Driver.Accounts.{AccountTables, find_by_nanoid}
use emumet.Driver.Accounts.Statements.{find_by_auth_id, find_by_nanoids}
use emumet.Application.AccountDto.{AccountDto, from_account}

pub data Direction : Type 0 where
  next prev : Direction

-- `TryFrom<String>`, whose error is a text
unfoldable pub read_direction : String → Option Direction
read_direction value =
    if str_eq value "next" then some next else if str_eq value "prev" then some prev else none

pub record Pagination (Cursor : Type 0) : Type 0 where
  pub limit : ℕ
  pub cursor : Option Cursor
  pub direction : Direction

abbrev limit_or_default : Option ℕ → ℕ
limit_or_default none = 5
limit_or_default (some limit) = limit

-- `Pagination::new`
unfoldable pub pagination :
    {Cursor : Type 0} → Option ℕ → Option Cursor → Direction → Pagination Cursor
pagination limit cursor direction = record {
  limit = limit_or_default limit;
  cursor = cursor;
  direction = direction;
}

module _ {T : Type 0} (key : T → ℕ) where
  unfoldable pub insert_descending : T → List T → List T
  insert_descending x [] = x ∷ []
  insert_descending x (y ∷ ys) =
      if leb (key y) (key x) then x ∷ y ∷ ys else y ∷ insert_descending x ys

  -- `sort_by(|a, b| b.cmp(a))`
  unfoldable pub sort_descending : List T → List T
  unfolding insert_descending
  sort_descending [] = []
  sort_descending (x ∷ xs) = insert_descending x (sort_descending xs)

  abbrev pub is_after : Option T → T → Bool
  is_after none x = true
  is_after (some cursor) x = ltb (key cursor) (key x)

  abbrev pub is_before : Option T → T → Bool
  is_before none x = true
  is_before (some cursor) x = ltb (key x) (key cursor)

  unfoldable pub apply_pagination : List T → ℕ → Option T → Direction → List T
  unfolding sort_by_key sort_descending
  apply_pagination vec limit cursor next =
      take limit (filter (is_after cursor) (sort_by_key key vec))
  apply_pagination vec limit cursor prev =
      reverse (take limit (filter (is_before cursor) (sort_descending vec)))

abbrev pub account_key : Account → ℕ
account_key account = account.id

module _ (now : OffsetDateTime) where
  unfoldable pub find_cursor : Option String → Exec AccountTables (Option Account)
  find_cursor none = pure none
  find_cursor (some cursor) = find_by_nanoid now cursor

  -- the page that both `get_all_accounts` and `get_all_account_details` show
  unfoldable pub account_page :
      AuthAccountId → Pagination String → Exec AccountTables (List Account)
  unfolding find_by_auth_id find_cursor apply_pagination
  account_page auth_account_id page = do
    accounts ← find_by_auth_id now auth_account_id
    cursor ← find_cursor page.cursor
    pure (apply_pagination account_key accounts page.limit cursor page.direction)

  unfoldable pub get_all_accounts :
      AuthAccountId → Pagination String → Exec AccountTables (Option (List AccountDto))
  unfolding account_page from_account
  get_all_accounts auth_account_id page = do
    accounts ← account_page auth_account_id page
    pure (some (map from_account accounts))

module _ (now : OffsetDateTime) (check : Check) where
  abbrev pub may_view : Account → Bool
  may_view account = is_ok (check_permission check (account_view account.id))

  -- the accounts that the principal may see, and no error for the others
  unfoldable pub permitted_accounts : List String → Exec AccountTables (List Account)
  unfolding find_by_nanoids
  permitted_accounts ids = do accounts ← find_by_nanoids now ids; pure (filter may_view accounts)

  unfoldable pub get_accounts_by_ids : List String → Exec AccountTables (List AccountDto)
  unfolding permitted_accounts from_account
  get_accounts_by_ids ids = do accounts ← permitted_accounts ids; pure (map from_account accounts)
