-- ===== src/Application/Moderation/Outcomes.antt =====
-- What a moderation request that meets its conditions does to the account.
use Prim.Native.String.{String}
use emumet.Prelude.{◌≡◌, refl, Option, arith}
use emumet.Kernel.Error.{ok}
use emumet.Kernel.Exec.{continue}
use emumet.Kernel.Event.{OffsetDateTime}
use emumet.Kernel.Rehydrated.{Rehydrated}
use emumet.Kernel.Account.{Account, AccountStatus, suspend, unsuspend, ban, unban, apply}
use emumet.Kernel.Account.Status
use emumet.Kernel.Permission.{check_permission, instance_moderate}
use emumet.Kernel.Text.{validate_reason}
use emumet.Driver.EventStore.Appends.{IsFresh}
use emumet.Application.World.{World, Environment}
use emumet.Application.Aggregate.{find_unfiltered}
use emumet.Application.Aggregate.Change.{Loads, change-Loads}
use emumet.Application.Moderation.{
  may_suspend, may_unsuspend, may_ban, may_unban, in_the_future, suspend_account, unsuspend_account,
  ban_account, unban_account,
}

-- the account with another status, at the version of the event that set it
abbrev pub with_status : AccountStatus → Environment → Rehydrated Account → Rehydrated Account
with_status status env loaded = record {
  aggregate = record loaded.aggregate { status = status; version = env.generated };
  version = env.generated;
}

module _ (env : Environment) (nanoid : String) (w : World) (projection : Account)
    (loaded : Rehydrated Account) (found : find_unfiltered env nanoid w ≡ (ok projection, w))
    (allowed : check_permission env.check instance_moderate ≡ ok tt)
    (loads : Loads env projection.id w loaded) (fresh : IsFresh env.generated w.events) where
  -- If the read model shows the account, the relation service grants moderation, the account loads
  -- from its stream, the generated version is fresh, the reason is valid, and the expiry, if any,
  -- is in the future, then a request to suspend an account that loads as active and not deactivated
  -- succeeds, and the account then loads as suspended with that reason and expiry, otherwise as
  -- before.
  pub suspend_account_lem :
      (reason : String) (expires_at : Option OffsetDateTime)
      → validate_reason reason ≡ ok tt
      → in_the_future env.checked_at expires_at ≡ ok tt
      → may_suspend loaded.aggregate ≡ ok tt
      → ((suspend_account env nanoid reason expires_at w).0 ≡ ok tt)
        × Loads env projection.id
            (suspend_account env nanoid reason expires_at w).1
            (with_status (Status.suspended reason env.commanded_at expires_at) env loaded)
  unfolding suspend_account
  suspend_account_lem reason expires_at valid future may =
      let (done, after) =
        change-Loads env projection.id may_suspend
          (λ l. suspend env.commanded_at projection.id reason expires_at l.version) w loaded loads
          (with_status (Status.suspended reason env.commanded_at expires_at) env loaded).aggregate
          may (unfold suspend in refl) (unfold suspend in refl) fresh
          (unfold suspend apply may_suspend in ground arith) in
      rw (valid, continue, found, continue, allowed, future, done) (refl, after)

  -- If the read model shows the account, the relation service grants moderation, the account loads
  -- from its stream, and the generated version is fresh, then a request to unsuspend an account
  -- that loads as suspended succeeds, and the account then loads as active, otherwise as before.
  pub unsuspend_account_lem :
      may_unsuspend loaded.aggregate ≡ ok tt
      → ((unsuspend_account env nanoid w).0 ≡ ok tt)
        × Loads env projection.id
            (unsuspend_account env nanoid w).1
            (with_status Status.active env loaded)
  unfolding unsuspend_account
  unsuspend_account_lem may =
      let (done, after) =
        change-Loads env projection.id may_unsuspend (λ l. unsuspend projection.id l.version) w
          loaded loads (with_status Status.active env loaded).aggregate may
          (unfold unsuspend in refl) (unfold unsuspend in refl) fresh
          (unfold unsuspend apply may_unsuspend in ground arith) in
      rw (found, continue, allowed, done) (refl, after)

  -- If the read model shows the account, the relation service grants moderation, the account loads
  -- from its stream, the generated version is fresh, and the reason is valid, then a request to ban
  -- an account that loads as neither banned nor deactivated succeeds, and the account then loads as
  -- banned with that reason, otherwise as before.
  pub ban_account_lem :
      (reason : String)
      → validate_reason reason ≡ ok tt
      → may_ban loaded.aggregate ≡ ok tt
      → ((ban_account env nanoid reason w).0 ≡ ok tt)
        × Loads env projection.id
            (ban_account env nanoid reason w).1
            (with_status (Status.banned reason env.commanded_at) env loaded)
  unfolding ban_account
  ban_account_lem reason valid may =
      let (done, after) =
        change-Loads env projection.id may_ban
          (λ l. ban env.commanded_at projection.id reason l.version) w loaded loads
          (with_status (Status.banned reason env.commanded_at) env loaded).aggregate may
          (unfold ban in refl) (unfold ban in refl) fresh
          (unfold ban apply may_ban in ground arith) in
      rw (valid, continue, found, continue, allowed, done) (refl, after)

  -- If the read model shows the account, the relation service grants moderation, the account loads
  -- from its stream, and the generated version is fresh, then a request to unban an account that
  -- loads as banned succeeds, and the account then loads as active, otherwise as before.
  pub unban_account_lem :
      may_unban loaded.aggregate ≡ ok tt
      → ((unban_account env nanoid w).0 ≡ ok tt)
        × Loads env projection.id
            (unban_account env nanoid w).1
            (with_status Status.active env loaded)
  unfolding unban_account
  unban_account_lem may =
      let (done, after) =
        change-Loads env projection.id may_unban (λ l. unban projection.id l.version) w loaded loads
          (with_status Status.active env loaded).aggregate may (unfold unban in refl)
          (unfold unban in refl) fresh (unfold unban apply may_unban in ground arith) in
      rw (found, continue, allowed, done) (refl, after)
