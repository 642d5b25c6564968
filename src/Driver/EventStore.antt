-- ===== src/Driver/EventStore.antt =====
-- driver/src/database/postgres/{account,profile,metadata}_event_store.rs, which differ in the names
-- of the entity alone: one generic store, and its three instances. A table is the list of its rows
-- in the order of insertion; a statement means what its SQL says, under the primary key
-- (id, version) and the serial column `seq` of migrations/. A payload reads back as it was written.
pub mod Appends
pub mod Versions
use emumet.Prelude.{
  ℕ, ◌+◌, Option, none, some, Bool, true, false, ◌&&◌, List, [], ◌∷◌, ◌++◌, map, ltb, ◌==◌,
  if◌then◌else◌, filter, any, is_some,
}
use emumet.Prelude.Sort.{sort_by_key}
use emumet.Kernel.Error.{ok, err, internal, concurrency}
use emumet.Kernel.Exec.{Exec, pure, raise, gets, ◌>>=◌, ◌>>◌}
use emumet.Kernel.Account.{AccountEvent}
use emumet.Kernel.Profile.{ProfileEvent}
use emumet.Kernel.Metadata.{MetadataEvent}
use emumet.Kernel.Event.{
  EventVersion, EventId, EventEnvelope, ExpectedVersion, nothing, at, CommandEnvelope, version_of,
}

-- kernel/src/projection.rs: a row of an event table
pub record SeqEvent (E : Type 0) : Type 0 where
  pub seq : ℕ
  pub envelope : EventEnvelope E

pub record EventTable (E : Type 0) : Type 0 where
  pub rows : List (SeqEvent E)
  -- the next value of the serial column
  pub next_seq : ℕ

abbrev larger : Option EventVersion → EventVersion → Option EventVersion
larger none v = some v
larger (some m) v = if ltb m v then some v else some m

-- `= $5`, which NULL fails
abbrev pub is_max : Option EventVersion → EventVersion → Bool
is_max none prev = false
is_max (some m) prev = m == prev

module _ {E : Type 0} where
  abbrev pub has_id : EventId → SeqEvent E → Bool
  has_id id row = row.envelope.id == id

  abbrev pub is_since : Option EventVersion → SeqEvent E → Bool
  is_since none row = true
  is_since (some version) row = ltb version row.envelope.version

  -- SELECT .. WHERE id = $1 [AND version > $2] ORDER BY version
  unfoldable pub find_by_id :
      EventId → Option EventVersion → Exec (EventTable E) (List (EventEnvelope E))
  find_by_id id since table = (
    ok (
        sort_by_key version_of (
          map (λ (row : SeqEvent E). row.envelope)
            (filter (λ row. has_id id row && is_since since row) table.rows))),
    table,
  )

  -- SELECT MAX(version) .. WHERE id = $2, and NULL where there is no row
  unfoldable pub max_version : EventId → List (SeqEvent E) → Option EventVersion
  max_version id [] = none
  max_version id (row ∷ rows) =
      let rest = max_version id rows in
      if has_id id row then larger rest row.envelope.version else rest

  abbrev pub same_key : EventEnvelope E → SeqEvent E → Bool
  same_key event row = has_id event.id row && row.envelope.version == event.version

  -- INSERT of one row: a duplicate key is refused, and a serial value is drawn either way
  unfoldable pub insert : EventEnvelope E → Exec (EventTable E) ℕ
  insert event table =
      if any (same_key event) table.rows
      then (err internal, record table { next_seq = table.next_seq + 1 })
      else (
        ok 1,
        record {
          rows = table.rows ++ record { seq = table.next_seq; envelope = event } ∷ [];
          next_seq = table.next_seq + 1;
        },
      )

  -- the statement for the expected version; the number of rows that it inserted
  unfoldable pub execute : Option ExpectedVersion → EventEnvelope E → Exec (EventTable E) ℕ
  unfolding insert max_version
  execute (some nothing) event table =
      if any (has_id event.id) table.rows then (ok 0, table) else insert event table
  execute (some (at prev)) event table =
      if is_max (max_version event.id table.rows) prev then insert event table else (ok 0, table)
  execute none event table = insert event table

  abbrev pub to_event : CommandEnvelope E → EventVersion → EventEnvelope E
  to_event command version = record { id = command.id; event = command.event; version = version }

  unfoldable pub persist_internal :
      CommandEnvelope E → EventVersion → Exec (EventTable E) (Unit {0})
  unfolding execute
  persist_internal command version = do
    rows_affected ← execute command.prev_version (to_event command version)
    if is_some command.prev_version && rows_affected == 0 then raise concurrency else pure tt

  -- `version` is what `kernel::generate_id()` returns
  unfoldable pub persist : EventVersion → CommandEnvelope E → Exec (EventTable E) (Unit {0})
  unfolding persist_internal
  persist version command = persist_internal command version

  unfoldable pub persist_and_transform :
      EventVersion → CommandEnvelope E → Exec (EventTable E) (EventEnvelope E)
  unfolding persist_internal
  persist_and_transform version command = do
    persist_internal command version
    pure (to_event command version)

-- the interface that the repositories take
pub record EventStore (E : Type 0) : Type 0 where
  pub find_by_id : EventId → Option EventVersion → Exec (EventTable E) (List (EventEnvelope E))
  pub persist : EventVersion → CommandEnvelope E → Exec (EventTable E) (Unit {0})
  pub persist_and_transform :
      EventVersion → CommandEnvelope E → Exec (EventTable E) (EventEnvelope E)

abbrev pub postgres_event_store : {E : Type 0} → EventStore E
postgres_event_store = record {
  find_by_id = find_by_id;
  persist = persist;
  persist_and_transform = persist_and_transform;
}

abbrev pub account_event_store : EventStore AccountEvent
account_event_store = postgres_event_store

abbrev pub profile_event_store : EventStore ProfileEvent
profile_event_store = postgres_event_store

abbrev pub metadata_event_store : EventStore MetadataEvent
metadata_event_store = postgres_event_store
