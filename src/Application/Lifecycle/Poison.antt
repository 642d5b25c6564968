-- ===== src/Application/Lifecycle/Poison.antt =====
-- A second deactivate_account request on one account.
use Prim.Native.String.{String}
use emumet.Prelude.{◌≡◌, refl, none, some, List, ◌++◌, arith}
use emumet.Kernel.Error.{ok, err, internal}
use emumet.Kernel.Exec.{continue}
use emumet.Kernel.Event.{OffsetDateTime, EventEnvelope}
use emumet.Kernel.Rehydrated.{Rehydrated, fold, from_events}
use emumet.Kernel.Rehydrated.Laws.{from_events_error-append, fold-append_of_from_events}
use emumet.Kernel.Account.{
  Account, AccountEvent, AuthAccountId, AccountCommand, deactivate, apply, account_applier,
}
use emumet.Kernel.Permission.{account_target, check_permission, account_deactivate}
use emumet.Driver.EventStore.{to_event}
use emumet.Driver.EventStore.Appends.{IsFresh, stream, stream-appended}
use emumet.Driver.Repository.SaveLoad.{load-inv}
use emumet.Application.World.{World, Environment, delete_relation}
use emumet.Application.Aggregate.Change.{Loads, recorded, change-eq}
use emumet.Application.Lifecycle.{relations, find_filtered, deactivate_account}
use emumet.Application.Lifecycle.Outcomes.{for_relations-events}

module _ (env : Environment) (w : World) (projection : Account) (loaded : Rehydrated Account)
    (loads : Loads env projection.id w loaded) (fresh : IsFresh env.generated w.events)
    {deleted_at : OffsetDateTime} (deleted : loaded.aggregate.deleted_at ≡ some deleted_at) where
  abbrev command : AccountCommand
  command = deactivate projection.id loaded.version

  replay-fails :
      (fold
        (account_applier env.externals)
        env.replayed_at
        (stream projection.id (recorded env command w).events)
        none).0
      ≡ err internal
  unfolding deactivate account_applier apply
  replay-fails =
      rw
        (
          stream-appended (to_event command env.generated) w.events fresh,
          fold-append_of_from_events (account_applier env.externals) env.replayed_at
              (stream projection.id w.events) (to_event command env.generated)
              (load-inv (account_applier env.externals) env.replayed_at projection.id w.events
                loads),
        )
        (ground arith)

  -- If the filtered read model shows an account that loads as deactivated already, the relation
  -- service lets the subject deactivate it, and the generated version is fresh, then after the
  -- request its stream fails to replay with `Internal`, whatever events follow.
  pub deactivate_account_poison :
      (nanoid : String) (auth_account_id : AuthAccountId) (more : List (EventEnvelope AccountEvent))
      → find_filtered env nanoid w ≡ (ok projection, w)
      → check_permission env.check (account_deactivate projection.id) ≡ ok tt
      → from_events
          (account_applier env.externals)
          env.replayed_at
          (stream projection.id (deactivate_account env auth_account_id nanoid w).1.events ++ more)
        ≡ err internal
  unfolding deactivate_account
  deactivate_account_poison nanoid auth_account_id more found allowed =
      rw
        (
          found,
          continue,
          allowed,
          change-eq env projection.id (λ account. ok tt) (λ l. deactivate projection.id l.version) w
              loaded loads refl (unfold deactivate in refl) (unfold deactivate in refl) fresh,
          continue,
          for_relations-events env
              (λ relation. delete_relation (account_target projection.id relation) auth_account_id)
              relations (recorded env command w),
        )
        (from_events_error-append (account_applier env.externals) env.replayed_at
          (stream projection.id (recorded env command w).events) more replay-fails)
