-- ===== src/Driver/Repository/SaveLoad.antt =====
-- Saves and loads of a repository, one after the other.
use emumet.Prelude.{◌≡◌, refl, sym, ap, ◌∙◌, Option, none, some, List, [], ◌∷◌, arith, length}
use emumet.Prelude.Sort.{last_key?, key-last_from}
use emumet.Kernel.Error.{Result, ok, err}
use emumet.Kernel.Event.{
  EventVersion, EventId, EventEnvelope, version_of, at, CommandEnvelope, EventApplier,
}
use emumet.Kernel.Rehydrated.{Rehydrated, Clock, require_aggregate, from_events}
use emumet.Kernel.Rehydrated.Laws.{from_events-append}
use emumet.Driver.EventStore.{
  EventTable, postgres_event_store, max_version, to_event, persist_and_transform,
}
use emumet.Driver.EventStore.Appends.{
  IsFresh, appended, selected, stream, find_by_id-eq-stream, stream-appended, persist_internal-eq,
}
use emumet.Driver.EventStore.Versions.{max_version-eq}
use emumet.Driver.Repository.{found, repository}

module _ {A E : Type 0} (applier : EventApplier A E) where
  -- the version of a loaded aggregate is the last one of its stream
  from_events-version :
      (clock : Clock) (events : List (EventEnvelope E)) {loaded : Rehydrated A}
      → from_events applier clock events ≡ ok (some loaded)
      → last_key? version_of events ≡ some loaded.version
  unfolding from_events
  from_events-version clock [] h = cc
  from_events-version clock (first ∷ events) h =
      ground (arith, key-last_from version_of first events)

  abbrev pub load : Clock → EventId → EventTable E → Result (Rehydrated A) × EventTable E
  load = (repository postgres_event_store (from_events applier)).load

  load-eq :
      (clock : Clock) (id : EventId) (table : EventTable E)
      → load clock id table ≡ (found (from_events applier clock (stream id table)), table)
  unfolding repository
  load-eq clock id table = rw (find_by_id-eq-stream id table)

  abbrev pub save :
      EventVersion → CommandEnvelope E → EventTable E → Result (EventEnvelope E) × EventTable E
  save = (repository postgres_event_store (from_events applier)).save

  found-inv :
      (r : Result (Option (Rehydrated A))) {loaded : Rehydrated A}
      → found r ≡ ok loaded
      → r ≡ ok (some loaded)
  found-inv (err e) h = cc
  found-inv (ok none) h = cc
  found-inv (ok (some loaded)) h = ground arith

  pub load-inv :
      (clock : Clock) (id : EventId) (table : EventTable E) {loaded : Rehydrated A}
      → load clock id table ≡ (ok loaded, table)
      → from_events applier clock (stream id table) ≡ ok (some loaded)
  load-inv clock id table h =
      found-inv _
        (ap (λ (r : Result (Rehydrated A) × EventTable E). r.0) (sym (load-eq clock id table) ∙ h))

  -- the table's newest version of a loaded aggregate
  pub max_version_of_load :
      (clock : Clock) (id : EventId) (table : EventTable E) {loaded : Rehydrated A}
      → load clock id table ≡ (ok loaded, table)
      → max_version id table.rows ≡ some loaded.version
  max_version_of_load clock id table h =
      max_version-eq id table.rows
      ∙ unfold selected in from_events-version clock (stream id table) (load-inv clock id table h)

  pub save-eq :
      (version : EventVersion) (command : CommandEnvelope E) (table : EventTable E)
      {prev : EventVersion}
      → command.prev_version ≡ some (at prev)
      → max_version command.id table.rows ≡ some prev
      → IsFresh version table
      → save version command table
        ≡ (ok (to_event command version), appended (to_event command version) table)
  unfolding repository persist_and_transform
  save-eq version command table e newest fresh =
      rw (persist_internal-eq command version table fresh (rw e newest))

  -- If an aggregate loads and a command made at its version is saved under a fresh version, the
  -- save succeeds, and the next load, under the same clock readings, is what applying the event to
  -- that aggregate gives: the changed aggregate at the new version, or the error.
  pub load-save :
      (clock : Clock) (version : EventVersion) (command : CommandEnvelope E) (table : EventTable E)
      {loaded : Rehydrated A}
      → load clock command.id table ≡ (ok loaded, table)
      → command.prev_version ≡ some (at loaded.version)
      → IsFresh version table
      → ((save version command table).0 ≡ ok (to_event command version))
        × ((load clock command.id (save version command table).1).0
            ≡ found (
                require_aggregate version (
                  applier.apply
                    (clock (length (stream command.id table)))
                    (to_event command version)
                    (some loaded.aggregate))))
  load-save clock version command table h e fresh =
      let saved =
        save-eq version command table e (max_version_of_load clock command.id table h) fresh in
      rw saved (
        refl,
        rw (
          load-eq clock command.id (appended (to_event command version) table),
          stream-appended (to_event command version) table fresh,
          from_events-append applier clock (stream command.id table) (to_event command version)
              (load-inv clock command.id table h),
        ),
      )

  -- If the event applies to the loaded aggregate, the next load returns what it makes of it.
  pub load-appended :
      (clock : Clock) (version : EventVersion) (command : CommandEnvelope E) (table : EventTable E)
      {loaded : Rehydrated A} {next : A}
      → load clock command.id table ≡ (ok loaded, table)
      → IsFresh version table
      → applier.apply
          (clock (length (stream command.id table)))
          (to_event command version)
          (some loaded.aggregate)
        ≡ (ok tt, some next)
      → load clock command.id (appended (to_event command version) table) ≡ (
        ok (record { aggregate = next; version = version }),
        appended (to_event command version) table,
      )
  load-appended clock version command table h fresh applies = rw (
    load-eq clock command.id (appended (to_event command version) table),
    stream-appended (to_event command version) table fresh,
    from_events-append applier clock (stream command.id table) (to_event command version)
        (load-inv clock command.id table h),
    applies,
  )
