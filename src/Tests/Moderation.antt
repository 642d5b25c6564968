-- ===== src/Tests/Moderation.antt =====
-- Moderation requests on one account.
use emumet.Prelude.{◌≡◌, refl, none, some, true, [], ◌∷◌, arith}
use emumet.Kernel.Error.{ok, err, rejected}
use emumet.Kernel.Account.{Account, apply, account_applier, suspend, suspended}
use emumet.Kernel.Account.Status
use emumet.Kernel.Permission.{instance_req, instance_moderate, check_permission, satisfies}
use emumet.Kernel.Text.{validate_reason}
use emumet.Prelude.Sort.{sort_by_key}
use emumet.Kernel.Id.{extract_timestamp_ms, from_timestamp_ms}
use emumet.Kernel.Rehydrated.{fold, from_events}
use emumet.Driver.EventStore.{find_by_id, persist_and_transform}
use emumet.Driver.Repository.{repository, account_repository}
use emumet.Driver.Accounts.{find_by_nanoid_unfiltered, account_from_row, to_row}
use emumet.Driver.EventStore.Appends.{IsFresh}
use emumet.Application.World.{World, transaction}
use emumet.Application.World.Atomic.{Untouched}
use emumet.Application.Aggregate.{find_unfiltered, load, save, change}
use emumet.Application.Aggregate.Change.{Loads}
use emumet.Application.Moderation.{suspend_account, may_suspend, in_the_future}
use emumet.Application.Moderation.Outcomes.{with_status, suspend_account_lem}
use emumet.Application.Moderation.Refusals.{serve, serve_error_Untouched, serve_needs_moderate}
use emumet.Application.Moderation.Refusals as Refusals
use emumet.Tests.Fixture.{env, born, row, alice, loaded, world}

abbrev active_account : Account
active_account = alice Status.active none 10

abbrev active_world : World
active_world = world active_account (born ∷ [])

abbrev suspended_account : Account
suspended_account = alice (Status.suspended "spam" 40 none) none 11

abbrev suspended_world : World
suspended_world = world suspended_account (born ∷ row 2 11 (suspended "spam" 40 none) ∷ [])

active_found : find_unfiltered env "a1" active_world ≡ (ok active_account, active_world)
unfolding find_unfiltered find_by_nanoid_unfiltered account_from_row to_row
active_found = refl

active-Loads : Loads env 7 active_world (loaded active_account)
unfolding account_repository repository find_by_id sort_by_key from_events fold account_applier
    apply extract_timestamp_ms from_timestamp_ms
active-Loads = refl

active-IsFresh : IsFresh 50 active_world.events
active-IsFresh = ground arith

allowed : check_permission env.check instance_moderate ≡ ok tt
unfolding check_permission instance_moderate satisfies
allowed = refl

valid : validate_reason "spam" ≡ ok tt
unfolding validate_reason
valid = refl

suspend_account_lem_example :
    ((suspend_account env "a1" "spam" (some 2000) active_world).0 ≡ ok tt)
    × Loads env 7
        (suspend_account env "a1" "spam" (some 2000) active_world).1
        (with_status (Status.suspended "spam" 1002 (some 2000)) env (loaded active_account))
suspend_account_lem_example =
    suspend_account_lem env "a1" active_world active_account (loaded active_account) active_found
      allowed active-Loads active-IsFresh "spam" (some 2000) valid (unfold in_the_future in refl)
      (unfold may_suspend in refl)

refused : (serve env (Refusals.suspend "a1" "again" none) suspended_world).0 ≡ err rejected
unfolding serve suspend_account transaction change load save may_suspend in_the_future
    validate_reason check_permission instance_moderate satisfies find_unfiltered
    find_by_nanoid_unfiltered account_from_row to_row account_repository repository find_by_id
    sort_by_key from_events fold account_applier apply extract_timestamp_ms from_timestamp_ms
    persist_and_transform suspend
refused = refl

served : (serve env (Refusals.suspend "a1" "spam" none) active_world).0 ≡ ok tt
unfolding serve suspend_account transaction change load save may_suspend in_the_future
    validate_reason check_permission instance_moderate satisfies find_unfiltered
    find_by_nanoid_unfiltered account_from_row to_row account_repository repository find_by_id
    sort_by_key from_events fold account_applier apply extract_timestamp_ms from_timestamp_ms
    persist_and_transform suspend
served = refl

-- suspending a suspended account is refused
serve_error_Untouched_example :
    Untouched suspended_world (serve env (Refusals.suspend "a1" "again" none) suspended_world).1
serve_error_Untouched_example =
    serve_error_Untouched env (Refusals.suspend "a1" "again" none) suspended_world rejected refused

serve_needs_moderate_example : env.check (instance_req "moderate") ≡ ok true
serve_needs_moderate_example =
    serve_needs_moderate env (Refusals.suspend "a1" "spam" none) active_world served
