-- ===== src/Application/Pages/Cursors.antt =====
-- Cursors that name an account which the filtered query does not show.
use Prim.Native.String.{String}
use text.Mathlib.Text.{◌==◌ as str_eq}
use emumet.Prelude.{ℕ, ◌≡◌, refl, none, some, false, ◌&&◌, any, find?-none, any-false_inv}
use emumet.Kernel.Event.{OffsetDateTime}
use emumet.Kernel.Account.{AuthAccountId}
use emumet.Driver.Accounts.{AccountRow, AccountTables, is_visible, find_by_nanoid}
use emumet.Driver.Accounts.Statements.{find_by_auth_id}
use emumet.Application.Pages.{Direction, account_page, find_cursor}

-- If no row with the cursor's nanoid is visible, as for an account that is suspended, banned or
-- deleted, the page behind the cursor is the first page of the direction.
pub account_page-hidden_cursor :
    (now : OffsetDateTime) (auth_account_id : AuthAccountId) (limit : ℕ) (cursor : String)
    (direction : Direction) (t : AccountTables)
    → any (λ (row : AccountRow). str_eq row.nanoid cursor && is_visible now row) t.accounts ≡ false
    → account_page now auth_account_id
        (record { limit = limit; cursor = some cursor; direction = direction })
        t
      ≡ account_page now auth_account_id
          (record { limit = limit; cursor = none; direction = direction })
          t
unfolding account_page find_cursor find_by_nanoid find_by_auth_id
account_page-hidden_cursor now auth_account_id limit cursor direction t h =
    rw
      (find?-none (λ (row : AccountRow). str_eq row.nanoid cursor && is_visible now row) t.accounts
        (any-false_inv (λ (row : AccountRow). str_eq row.nanoid cursor && is_visible now row)
          t.accounts h))
      refl
