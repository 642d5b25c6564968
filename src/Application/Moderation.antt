-- ===== src/Application/Moderation.antt =====
-- application/src/service/account/moderation.rs: suspend, unsuspend, ban and unban an account.
pub mod Outcomes
pub mod Refusals
use Prim.Native.String.{String}
use emumet.Prelude.{Option, none, some, not, is_some, leb, if◌then◌else◌}
use emumet.Kernel.Error.{Result, ok, err, rejected, ensure}
use emumet.Kernel.Exec.{Exec, lift, ◌>>=◌, ◌>>◌}
use emumet.Kernel.Event.{OffsetDateTime}
use emumet.Kernel.Account.{
  Account, is_active, is_suspended, is_banned, suspend, unsuspend, ban, unban,
}
use emumet.Kernel.Permission.{check_permission, instance_moderate}
use emumet.Kernel.Text.{validate_reason}
use emumet.Application.World.{World, Environment, transaction}
use emumet.Application.Aggregate.{find_unfiltered, change}

-- the checks of the transactions, on the loaded aggregate
unfoldable pub may_suspend : Account → Result (Unit {0})
may_suspend account =
    if is_active account.status
    then ensure (not (is_some account.deleted_at)) rejected
    else err rejected

unfoldable pub may_unsuspend : Account → Result (Unit {0})
may_unsuspend account = ensure (is_suspended account.status) rejected

unfoldable pub may_ban : Account → Result (Unit {0})
may_ban account =
    if is_banned account.status
    then err rejected
    else ensure (not (is_some account.deleted_at)) rejected

unfoldable pub may_unban : Account → Result (Unit {0})
may_unban account = ensure (is_banned account.status) rejected

-- `if exp <= OffsetDateTime::now_utc() { return Err(Rejected) }`
unfoldable pub in_the_future : OffsetDateTime → Option OffsetDateTime → Result (Unit {0})
in_the_future now none = ok tt
in_the_future now (some exp) = ensure (not (leb exp now)) rejected

module _ (env : Environment) where
  unfoldable pub suspend_account : String → String → Option OffsetDateTime → Exec World (Unit {0})
  unfolding may_suspend
  suspend_account nanoid reason expires_at = do
    lift (validate_reason reason)
    projection ← find_unfiltered env nanoid
    lift (check_permission env.check instance_moderate)
    lift (in_the_future env.checked_at expires_at)
    transaction (
        change env projection.id may_suspend
          (λ loaded. suspend env.commanded_at projection.id reason expires_at loaded.version))

  unfoldable pub unsuspend_account : String → Exec World (Unit {0})
  unfolding may_unsuspend
  unsuspend_account nanoid = do
    projection ← find_unfiltered env nanoid
    lift (check_permission env.check instance_moderate)
    transaction
        (change env projection.id may_unsuspend (λ loaded. unsuspend projection.id loaded.version))

  unfoldable pub ban_account : String → String → Exec World (Unit {0})
  unfolding may_ban
  ban_account nanoid reason = do
    lift (validate_reason reason)
    projection ← find_unfiltered env nanoid
    lift (check_permission env.check instance_moderate)
    transaction (
        change env projection.id may_ban
          (λ loaded. ban env.commanded_at projection.id reason loaded.version))

  unfoldable pub unban_account : String → Exec World (Unit {0})
  unfolding may_unban
  unban_account nanoid = do
    projection ← find_unfiltered env nanoid
    lift (check_permission env.check instance_moderate)
    transaction (change env projection.id may_unban (λ loaded. unban projection.id loaded.version))
