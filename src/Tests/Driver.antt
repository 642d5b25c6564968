-- ===== src/Tests/Driver.antt =====
-- The event store and the read model at concrete inputs.
use emumet.Prelude.{◌+◌, ◌≤◌, List, ◌≡◌, refl, none, some, true, [], ◌∷◌, arith, length}
use emumet.Prelude.Sort.{sort_by_key}
use emumet.Kernel.Error.{ok, err, concurrency}
use emumet.Kernel.Event.{EventEnvelope}
use emumet.Kernel.Rehydrated.{fold, from_events, require_aggregate}
use emumet.Kernel.Id.{extract_timestamp_ms, from_timestamp_ms}
use emumet.Kernel.Account.{
  Account, AccountEvent, AccountCommand, created, banned, ban, unban, apply, account_applier,
}
use emumet.Kernel.Account.Status
use emumet.Driver.EventStore.{SeqEvent, find_by_id, persist_internal, to_event, EventTable}
use emumet.Driver.EventStore.Appends.{IsFresh, appended, stream}
use emumet.Driver.EventStore.Versions.{second_writer_conflicts}
use emumet.Driver.EventLog.{find_by_seq_window, CheckpointTable}
use emumet.Driver.EventLog.Window.{IsNumbered, find_by_seq_window-progress}
use emumet.Driver.EventLog.Batches.{IsBatch, find_by_seq_window-IsBatch}
use emumet.Driver.Repository.{repository, found}
use emumet.Driver.Repository.SaveLoad.{load, save, load-save}
use emumet.Driver.Accounts.{AccountTables, to_row, upsert}
use emumet.Driver.Accounts.Upsert.{row_of, newest, upsert-newest}
use emumet.Tests.Fixture.{externals, born, alice, loaded, table}

abbrev other : SeqEvent AccountEvent
other = record {
  seq = 2;
  envelope = record { id = 8; event = created "bob" true "b1" 4; version = 20 };
}

abbrev events : EventTable AccountEvent
events = table (born ∷ other ∷ [])

fresh : IsFresh 50 events
fresh = ground arith

abbrev command : AccountCommand
command = ban 40 7 "spam" 10

-- a second moderator, who loaded the same version
abbrev rival : AccountCommand
rival = unban 7 10

persisted : persist_internal command 50 events ≡ (ok tt, appended (to_event command 50) events)
unfolding persist_internal ban
persisted = refl

second_writer_conflicts_example :
    persist_internal rival 51 (appended (to_event command 50) events)
    ≡ (err concurrency, appended (to_event command 50) events)
second_writer_conflicts_example =
    second_writer_conflicts command rival 10 50 51 events (appended (to_event command 50) events)
      (unfold ban unban in refl) (unfold ban in refl) (unfold unban in refl) fresh persisted

abbrev event : EventEnvelope AccountEvent
event = record { id = 7; event = banned "spam" 40; version = 50 }

loads :
    load (account_applier externals) (λ n. n) 7 events
    ≡ (ok (loaded (alice Status.active none 10)), events)
unfolding repository find_by_id sort_by_key from_events fold account_applier apply
    extract_timestamp_ms from_timestamp_ms
loads = refl

load-save_example :
    ((save (account_applier externals) 50 command events).0 ≡ ok (to_event command 50))
    × ((load
          (account_applier externals)
          (λ n. n)
          7
          (save (account_applier externals) 50 command events).1).0
        ≡ found (
            require_aggregate 50 (
              (account_applier externals).apply
                (length (stream 7 events))
                (to_event command 50)
                (some (alice Status.active none 10)))))
unfolding ban
load-save_example =
    load-save (account_applier externals) (λ n. n) 50 command events loads refl fresh

abbrev account : Account
account = alice Status.active none 10

abbrev newer : Account
newer = alice (Status.banned "spam" 40) none 50

abbrev tables : AccountTables
tables = record { accounts = to_row account ∷ []; links = (7, 3) ∷ []; auth_accounts = 3 ∷ [] }

upserted : (upsert newer tables).0 ≡ ok tt
unfolding upsert to_row
upserted = refl

upsert-newest_example :
    row_of 7 (upsert newer tables).1 ≡ some (newest (to_row newer) (row_of 7 tables))
upsert-newest_example = upsert-newest newer tables upserted

IsNumbered-events : IsNumbered events
IsNumbered-events = ground arith

-- a window of one, from before the first event
batch : find_by_seq_window 3 5 1 events ≡ (ok (born ∷ []), events)
unfolding find_by_seq_window sort_by_key
batch = refl

find_by_seq_window-IsBatch_example :
    (batch : List (SeqEvent AccountEvent)) × (find_by_seq_window 3 5 1 events ≡ (ok batch, events))
    × IsBatch 3 5 1 events.rows batch
find_by_seq_window-IsBatch_example = find_by_seq_window-IsBatch 3 5 1 events

full : find_by_seq_window 1 1 9 events ≡ (ok (born ∷ other ∷ []), events)
unfolding find_by_seq_window sort_by_key
full = refl

find_by_seq_window-progress_example : 1 + length (born ∷ other ∷ []) ≤ 2 + 1
find_by_seq_window-progress_example =
    find_by_seq_window-progress 1 1 9 events (born ∷ other ∷ []) other IsNumbered-events full refl

abbrev checkpoints : CheckpointTable
checkpoints = ("account_projector", 40) ∷ ("profile_projector", 7) ∷ []
