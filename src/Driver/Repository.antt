-- ===== src/Driver/Repository.antt =====
-- driver/src/database/postgres/{account,profile,metadata}_repository.rs: loading an aggregate from
-- its stream and saving a command. The trait of kernel/src/repository/aggregate.rs is a record.
pub mod SaveLoad
use emumet.Prelude.{ℕ, Option, none, some, List}
use emumet.Kernel.Error.{KernelError, Result, ok, err, not_found, ok_or}
use emumet.Kernel.Exec.{Exec, pure, lift, ◌>>=◌}
use emumet.Kernel.Event.{EventVersion, EventId, EventEnvelope, CommandEnvelope, EventApplier}
use emumet.Kernel.Rehydrated.{Rehydrated, Clock, from_events, from_events_allow_deletion}
use emumet.Kernel.Id.{Externals}
use emumet.Kernel.Account.{Account, AccountEvent, account_applier}
use emumet.Kernel.Profile.{Profile, ProfileEvent, profile_applier}
use emumet.Kernel.Metadata.{Metadata, MetadataEvent, metadata_applier}
use emumet.Driver.EventStore.{
  EventTable, EventStore, account_event_store, profile_event_store, metadata_event_store,
}

-- `load` is given the clock that the replay reads, and `save` the id that the generator returns.
pub record AggregateRepository (A E : Type 0) : Type 0 where
  pub load : Clock → EventId → Exec (EventTable E) (Rehydrated A)
  pub save : EventVersion → CommandEnvelope E → Exec (EventTable E) (EventEnvelope E)

-- `Rehydrated::..(events)?.ok_or_else(|| NotFound)`
abbrev pub found : {A : Type 0} → Result (Option (Rehydrated A)) → Result (Rehydrated A)
found (err e) = err e
found (ok loaded) = ok_or not_found loaded

module _ {A E : Type 0} where
  unfoldable pub repository :
      EventStore E
      → (Clock → List (EventEnvelope E) → Result (Option (Rehydrated A)))
      → AggregateRepository A E
  repository store rebuild = record {
    load = λ clock id. do
      events ← store.find_by_id id none
      lift (found (rebuild clock events));
    save = λ version command. store.persist_and_transform version command;
  }

unfoldable pub account_repository : Externals → AggregateRepository Account AccountEvent
account_repository x = repository account_event_store (from_events (account_applier x))

unfoldable pub profile_repository : AggregateRepository Profile ProfileEvent
profile_repository = repository profile_event_store (from_events profile_applier)

unfoldable pub metadata_repository : AggregateRepository Metadata MetadataEvent
metadata_repository = repository metadata_event_store (from_events_allow_deletion metadata_applier)
