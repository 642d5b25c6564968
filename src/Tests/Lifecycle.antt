-- ===== src/Tests/Lifecycle.antt =====
-- Requests of owners on one account.
use emumet.Prelude.{◌≡◌, refl, none, some, [], ◌∷◌, ◌++◌, arith}
use emumet.Prelude.Sort.{sort_by_key}
use emumet.Kernel.Error.{ok, err, internal}
use emumet.Kernel.Id.{extract_timestamp_ms, from_timestamp_ms}
use emumet.Kernel.Rehydrated.{fold, from_events}
use emumet.Kernel.Account.{Account, deactivated, apply, account_applier}
use emumet.Kernel.Account.Status
use emumet.Kernel.Permission.{account_deactivate, check_permission, satisfies}
use emumet.Driver.EventStore.{find_by_id}
use emumet.Driver.EventStore.Appends.{IsFresh, stream}
use emumet.Driver.Repository.{repository, account_repository}
use emumet.Driver.Accounts.{
  find_by_nanoid, find_by_nanoid_unfiltered, find_by_nanoid_including_deleted, account_from_row,
  to_row, is_linked_including_deleted,
}
use emumet.Application.World.{World}
use emumet.Application.Aggregate.Change.{Loads, replayed}
use emumet.Application.Lifecycle.{
  deactivate_account, reactivate_account, find_filtered, find_including_deleted, may_reactivate,
}
use emumet.Application.Lifecycle.Outcomes.{
  with_deleted_at, deactivate_account_lem, reactivate_account_lem,
}
use emumet.Application.Lifecycle.Poison.{deactivate_account_poison}
use emumet.Tests.Fixture.{env, born, row, alice, loaded, world}

abbrev live_account : Account
live_account = alice Status.active none 10

abbrev live_world : World
live_world = world live_account (born ∷ [])

-- the second event of the stream was replayed at 1001
abbrev deleted_account : Account
deleted_account = alice Status.active (some 1001) 11

abbrev deleted_world : World
deleted_world = world deleted_account (born ∷ row 2 11 deactivated ∷ [])

-- the read model has not seen the deactivation
abbrev stale_world : World
stale_world = world live_account (born ∷ row 2 11 deactivated ∷ [])

live_filtered : find_filtered env "a1" live_world ≡ (ok live_account, live_world)
unfolding find_filtered find_by_nanoid find_by_nanoid_unfiltered find_by_nanoid_including_deleted
    account_from_row to_row
live_filtered = refl

deleted_found : find_including_deleted env "a1" deleted_world ≡ (ok deleted_account, deleted_world)
unfolding find_including_deleted find_by_nanoid find_by_nanoid_unfiltered
    find_by_nanoid_including_deleted account_from_row to_row
deleted_found = refl

stale_found : find_filtered env "a1" stale_world ≡ (ok live_account, stale_world)
unfolding find_filtered find_by_nanoid find_by_nanoid_unfiltered find_by_nanoid_including_deleted
    account_from_row to_row
stale_found = refl

live-Loads : Loads env 7 live_world (loaded live_account)
unfolding account_repository repository find_by_id sort_by_key from_events fold account_applier
    apply extract_timestamp_ms from_timestamp_ms
live-Loads = refl

live-IsFresh : IsFresh 50 live_world.events
live-IsFresh = ground arith

deleted-Loads : Loads env 7 deleted_world (loaded deleted_account)
unfolding account_repository repository find_by_id sort_by_key from_events fold account_applier
    apply extract_timestamp_ms from_timestamp_ms
deleted-Loads = refl

deleted-IsFresh : IsFresh 50 deleted_world.events
deleted-IsFresh = ground arith

stale-Loads : Loads env 7 stale_world (loaded deleted_account)
unfolding account_repository repository find_by_id sort_by_key from_events fold account_applier
    apply extract_timestamp_ms from_timestamp_ms
stale-Loads = refl

may_deactivate : check_permission env.check (account_deactivate 7) ≡ ok tt
unfolding check_permission account_deactivate satisfies
may_deactivate = refl

deactivate_account_lem_example :
    Loads env 7
      (deactivate_account env 3 "a1" live_world).1
      (with_deleted_at (some (replayed env 7 live_world)) env (loaded live_account))
deactivate_account_lem_example =
    deactivate_account_lem env "a1" live_world live_account (loaded live_account) live-Loads
      live-IsFresh 3 live_filtered may_deactivate refl

reactivate_account_lem_example :
    Loads env 7
      (reactivate_account env 3 "a1" deleted_world).1
      (with_deleted_at none env (loaded deleted_account))
reactivate_account_lem_example =
    reactivate_account_lem env "a1" deleted_world deleted_account (loaded deleted_account)
      deleted-Loads deleted-IsFresh 3 deleted_found (unfold is_linked_including_deleted in refl)
      (unfold may_reactivate in refl)

deactivate_account_poison_example :
    from_events
      (account_applier env.externals)
      env.replayed_at
      (stream 7 (deactivate_account env 3 "a1" stale_world).1.events ++ [])
    ≡ err internal
deactivate_account_poison_example =
    deactivate_account_poison env stale_world live_account (loaded deleted_account) stale-Loads
      deleted-IsFresh refl "a1" 3 [] stale_found may_deactivate
