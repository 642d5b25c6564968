-- ===== src/Driver/Accounts/Rows.antt =====
-- What the columns keep of an account, and what the queries show of it.
use emumet.Prelude.{◌≡◌, true, false, ◌&&◌, arith, is_none, if◌then◌else◌}
use emumet.Kernel.Event.{OffsetDateTime}
use emumet.Kernel.Account.{Account, AccountStatus, is_active}
use emumet.Kernel.Account.Status.{active, suspended, banned}
use emumet.Driver.Accounts.{account_from_row, to_row, has_expired, is_visible}

-- a suspension ends when it expires; nothing else does
abbrev pub lapse : OffsetDateTime → AccountStatus → AccountStatus
lapse now active = active
lapse now (suspended reason suspended_at expires_at) =
    if has_expired now expires_at then active else suspended reason suspended_at expires_at
lapse now (banned reason banned_at) = banned reason banned_at

-- The row of an account reads back as that account; with the expiry check on, as that account with
-- a suspension that has expired lifted.
pub account_from_row-to_row :
    (now : OffsetDateTime) (account : Account)
    → (account_from_row now (to_row account) false ≡ account)
      × (account_from_row now (to_row account) true
          ≡ record account { status = lapse now account.status })
unfolding account_from_row to_row
account_from_row-to_row now account = ground arith

-- The condition of the filtered queries holds of an account's row exactly if the account is not
-- deactivated and, once a suspension that has expired is lifted, active.
pub is_visible-to_row :
    (now : OffsetDateTime) (account : Account)
    → is_visible now (to_row account)
      ≡ (is_none account.deleted_at && is_active (lapse now account.status))
unfolding to_row
is_visible-to_row now account = ground arith
