-- ===== src/Driver/EventStore/Appends.antt =====
-- What a successful and a refused append do to the table and to later reads.
use emumet.Prelude.{
  ◌+◌, ◌<◌, ◌≤◌, ◌≡◌, ◌≢◌, refl, ap, sym, ◌∙◌, Option, none, some, false, ◌&&◌, List, [], ◌∷◌, ◌++◌,
  map, arith, ◌==◌, filter, any, All, Bool-cases, inl, inr,
}
use emumet.Prelude.Sort.{sort_by_key, sort_by_key-append}
use emumet.Kernel.Error.{Result, ok, err, concurrency}
use emumet.Kernel.Event.{
  EventVersion, EventId, EventEnvelope, version_of, ExpectedVersion, nothing, at, CommandEnvelope,
}
use emumet.Driver.EventStore.{
  SeqEvent, EventTable, has_id, is_since, find_by_id, max_version, persist_internal, to_event,
}

module _ {E : Type 0} where
  -- the version is newer than every stored one
  abbrev pub IsFresh : EventVersion → EventTable E → Type 0
  IsFresh version table = All (λ (row : SeqEvent E). row.envelope.version < version) table.rows

  -- the table with one more row
  abbrev pub appended : EventEnvelope E → EventTable E → EventTable E
  appended event table = record {
    rows = table.rows ++ record { seq = table.next_seq; envelope = event } ∷ [];
    next_seq = table.next_seq + 1;
  }

  -- the row's expectation of the table
  abbrev pub IsExpected : Option ExpectedVersion → EventId → EventTable E → Type 0
  IsExpected none id table = Unit
  IsExpected (some nothing) id table = any (has_id id) table.rows ≡ false
  IsExpected (some (at prev)) id table = max_version id table.rows ≡ some prev

  no_duplicate :
      (id : EventId) (version : EventVersion) (rows : List (SeqEvent E))
      → All (λ (row : SeqEvent E). row.envelope.version < version) rows
      → any (λ (row : SeqEvent E). has_id id row && row.envelope.version == version) rows ≡ false
  no_duplicate id version [] h = refl
  no_duplicate id version (row ∷ rows) h = ground (arith, h.0, no_duplicate id version rows h.1)

  -- A command whose expectation of the table holds is persisted under a fresh version: its event is
  -- appended and nothing else changes.
  pub persist_internal-eq :
      (command : CommandEnvelope E) (version : EventVersion) (table : EventTable E)
      → IsFresh version table
      → IsExpected command.prev_version command.id table
      → persist_internal command version table ≡ (ok tt, appended (to_event command version) table)
  unfolding persist_internal
  persist_internal-eq command version table fresh expected =
      ground (arith, no_duplicate command.id version table.rows fresh)

  -- A command whose expectation fails changes nothing and reports the conflict.
  pub persist_internal_conflict :
      (command : CommandEnvelope E) (prev version : EventVersion) (table : EventTable E)
      → command.prev_version ≡ some (at prev)
      → max_version command.id table.rows ≢ some prev
      → persist_internal command version table ≡ (err concurrency, table)
  unfolding persist_internal
  persist_internal_conflict command prev version table e stale = ground arith

  unfoldable pub selected : EventId → List (SeqEvent E) → List (EventEnvelope E)
  selected id rows =
      map (λ (row : SeqEvent E). row.envelope)
        (filter (λ row. has_id id row && is_since none row) rows)

  selected-append :
      (id : EventId) (rows : List (SeqEvent E)) (row : SeqEvent E)
      → row.envelope.id ≡ id
      → selected id (rows ++ row ∷ []) ≡ selected id rows ++ row.envelope ∷ []
  unfolding selected
  selected-append id [] row h = ground arith
  selected-append id (first ∷ rows) row h = ground (arith, selected-append id rows row h)

  selected-append_other :
      (id : EventId) (rows : List (SeqEvent E)) (row : SeqEvent E)
      → row.envelope.id ≢ id
      → selected id (rows ++ row ∷ []) ≡ selected id rows
  unfolding selected
  selected-append_other id [] row h = ground arith
  selected-append_other id (first ∷ rows) row h =
      ground (arith, selected-append_other id rows row h)

  selected_older :
      (id : EventId) (rows : List (SeqEvent E)) (version : EventVersion)
      → All (λ (row : SeqEvent E). row.envelope.version < version) rows
      → All (λ (event : EventEnvelope E). event.version ≤ version) (selected id rows)
  unfolding selected
  selected_older id [] version h = tt
  selected_older id (row ∷ rows) version h = elim (Bool-cases (row.envelope.id == id)) [
    | inl e ↦ rw e (omega (arith, h.0), selected_older id rows version h.1)
    | inr e ↦ rw e (selected_older id rows version h.1)
  ]

  -- the stream that a load reads
  abbrev pub stream : EventId → EventTable E → List (EventEnvelope E)
  stream id table = sort_by_key version_of (selected id table.rows)

  pub find_by_id-eq-stream :
      (id : EventId) (table : EventTable E)
      → find_by_id id none table ≡ (ok (stream id table), table)
  unfolding find_by_id selected
  find_by_id-eq-stream id table = refl

  pub stream-appended :
      (event : EventEnvelope E) (table : EventTable E)
      → IsFresh event.version table
      → stream event.id (appended event table) ≡ stream event.id table ++ event ∷ []
  stream-appended event table fresh =
      rw
        (selected-append event.id table.rows (record { seq = table.next_seq; envelope = event })
          refl)
        (sort_by_key-append version_of event (selected event.id table.rows)
          (selected_older event.id table.rows event.version fresh))

  pub stream-appended_other :
      (id : EventId) (event : EventEnvelope E) (table : EventTable E)
      → event.id ≢ id
      → stream id (appended event table) ≡ stream id table
  stream-appended_other id event table other = rw (
      selected-append_other id table.rows (record { seq = table.next_seq; envelope = event }) other)

  pub find_by_id-inv :
      (id : EventId) (table : EventTable E) {events : List (EventEnvelope E)}
      → find_by_id id none table ≡ (ok events, table)
      → stream id table ≡ events
  find_by_id-inv id table h = let e = sym (find_by_id-eq-stream id table) ∙ h in ground (arith, e)

  -- If the version of an appended event is fresh, a read of its id after the append returns the
  -- events that a read before it returns, and the appended one last.
  pub find_by_id-appended :
      (event : EventEnvelope E) (table : EventTable E) (events : List (EventEnvelope E))
      → IsFresh event.version table
      → find_by_id event.id none table ≡ (ok events, table)
      → find_by_id event.id none (appended event table)
        ≡ (ok (events ++ event ∷ []), appended event table)
  find_by_id-appended event table events fresh h = rw (
    find_by_id-eq-stream event.id (appended event table),
    stream-appended event table fresh,
    find_by_id-inv event.id table h,
  )

  -- A read of another id returns after an append what it returns before it.
  pub find_by_id-appended_other :
      (id : EventId) (event : EventEnvelope E) (table : EventTable E)
      (events : List (EventEnvelope E))
      → event.id ≢ id
      → find_by_id id none table ≡ (ok events, table)
      → find_by_id id none (appended event table) ≡ (ok events, appended event table)
  find_by_id-appended_other id event table events other h = rw (
    find_by_id-eq-stream id (appended event table),
    stream-appended_other id event table other,
    find_by_id-inv id table h,
  )

  -- If a command made at a version is persisted under a fresh version, that version was the newest
  -- of its id, and the table is the old one with the event appended.
  pub persist_internal-inv :
      (command : CommandEnvelope E) (prev version : EventVersion) (table table' : EventTable E)
      → command.prev_version ≡ some (at prev)
      → IsFresh version table
      → persist_internal command version table ≡ (ok tt, table')
      → (max_version command.id table.rows ≡ some prev)
        × (table' ≡ appended (to_event command version) table)
  persist_internal-inv command prev version table table' e fresh done =
      let newest : max_version command.id table.rows ≡ some prev =
        unfold persist_internal in ground arith in
      (
        newest,
        ap (λ (r : Result (Unit {0}) × EventTable E). r.1)
            (sym done ∙ persist_internal-eq command version table fresh (rw e newest)),
      )
