-- ===== src/Driver/EventStore/Versions.antt =====
-- The version that the statements of an event store compare.
use emumet.Prelude.{
  ◌<◌, ◌≤◌, ◌≡◌, refl, sym, ap, ◌∙◌, none, some, List, [], ◌∷◌, ◌++◌, arith, ◌==◌, All, Bool-cases,
  inl, inr, Option-cases,
}
use emumet.Prelude.Sort.{
  sort_by_key, insert_by_key, sort_by_key-IsSortedByKey, IsSortedByKey, last_key?,
  last_key-insert_by_key, last_key?-insert_by_key,
}
use emumet.Kernel.Error.{ok, err, concurrency}
use emumet.Kernel.Event.{EventVersion, EventId, EventEnvelope, version_of, at, CommandEnvelope}
use emumet.Driver.EventStore.{
  SeqEvent, EventTable, find_by_id, max_version, larger, persist_internal, to_event,
}
use emumet.Driver.EventStore.Appends.{
  IsFresh, appended, selected, stream, stream-appended, find_by_id-inv, persist_internal-inv,
  persist_internal_conflict,
}

module _ {E : Type 0} where
  All-zero_le :
      (events : List (EventEnvelope E)) → All (λ (e : EventEnvelope E). 0 ≤ e.version) events
  All-zero_le [] = tt
  All-zero_le (e ∷ events) = (omega arith, All-zero_le events)

  last_key?-insert :
      (event : EventEnvelope E) (events : List (EventEnvelope E))
      → IsSortedByKey version_of events
      → last_key? version_of (insert_by_key version_of event events)
        ≡ larger (last_key? version_of events) event.version
  last_key?-insert event [] s =
      last_key?-insert_by_key version_of event [] s ∙ unfold insert_by_key in refl
  last_key?-insert event (first ∷ events) s =
      rw
        (
          last_key?-insert_by_key version_of event (first ∷ events) s,
          last_key-insert_by_key version_of 0 event (first ∷ events) (omega arith)
              (All-zero_le (first ∷ events)) s,
        )
        (ground arith)

  -- `MAX(version)` is the version of the last event of the stream
  pub max_version-eq :
      (id : EventId) (rows : List (SeqEvent E))
      → max_version id rows ≡ last_key? version_of (sort_by_key version_of (selected id rows))
  unfolding max_version selected sort_by_key
  max_version-eq id [] = refl
  max_version-eq id (row ∷ rows) = elim (Bool-cases (row.envelope.id == id)) [
    | inl e ↦
        rw (e, max_version-eq id rows)
          (sym (
            last_key?-insert row.envelope (sort_by_key version_of (selected id rows))
              (sort_by_key-IsSortedByKey version_of (selected id rows))))
    | inr e ↦ rw e (max_version-eq id rows)
  ]

  -- `MAX(version)` of an id is the version of the last event that a read of that id returns, and
  -- NULL if it returns none.
  pub max_version-find_by_id :
      (id : EventId) (table : EventTable E) (events : List (EventEnvelope E))
      → find_by_id id none table ≡ (ok events, table)
      → max_version id table.rows ≡ last_key? version_of events
  max_version-find_by_id id table events h =
      max_version-eq id table.rows ∙ ap (last_key? version_of) (find_by_id-inv id table h)

  last_key?-append :
      (event : EventEnvelope E) (events : List (EventEnvelope E))
      → last_key? version_of (events ++ event ∷ []) ≡ some event.version
  last_key?-append event [] = refl
  last_key?-append event (first ∷ []) = refl
  last_key?-append event (first ∷ second ∷ events) = last_key?-append event (second ∷ events)

  -- After an append the compared version is the appended one.
  pub max_version-appended :
      (event : EventEnvelope E) (table : EventTable E)
      → IsFresh event.version table
      → max_version event.id (appended event table).rows ≡ some event.version
  max_version-appended event table fresh =
      max_version-eq event.id (appended event table).rows
      ∙ ap (last_key? version_of) (stream-appended event table fresh)
      ∙ last_key?-append event (stream event.id table)

  max_version-lt :
      (id : EventId) (version : EventVersion) (rows : List (SeqEvent E)) {max : EventVersion}
      → All (λ (row : SeqEvent E). row.envelope.version < version) rows
      → max_version id rows ≡ some max
      → max < version
  unfolding max_version
  max_version-lt id version [] fresh h = cc
  max_version-lt id version (row ∷ rows) fresh h = elim (Option-cases (max_version id rows)) [
    | inl e ↦ ground (arith, fresh.0)
    | inr (m, e) ↦ ground (arith, fresh.0, max_version-lt id version rows fresh.1 e)
  ]

  -- Of two commands for one id made at the same version, if the first is persisted under a fresh
  -- version, the second is refused with `Concurrency`, under any version, and the table keeps what
  -- the first one wrote.
  pub second_writer_conflicts :
      (first second : CommandEnvelope E) (prev version version' : EventVersion)
      (table table' : EventTable E)
      → first.id ≡ second.id
      → first.prev_version ≡ some (at prev)
      → second.prev_version ≡ some (at prev)
      → IsFresh version table
      → persist_internal first version table ≡ (ok tt, table')
      → persist_internal second version' table' ≡ (err concurrency, table')
  second_writer_conflicts first second prev version version' table table' id e1 e2 fresh done =
      let (newest, grown) = persist_internal-inv first prev version table table' e1 fresh done in
      persist_internal_conflict second prev version' table' e2 (λ still. ground (
        arith,
        max_version-appended (to_event first version) table fresh,
        max_version-lt first.id version table.rows fresh newest,
        ap (λ (t : EventTable E). max_version first.id t.rows) grown,
        ap (λ (i : EventId). max_version i table'.rows) id,
      ))
