-- ===== src/Application/World.antt =====
-- The state that the account use cases share, and the transaction manager of
-- driver/src/database/postgres.rs.
pub mod Atomic
use emumet.Prelude.{List, [], ◌∷◌, ◌++◌}
use emumet.Kernel.Error.{Result, ok, err}
use emumet.Kernel.Exec.{Exec}
use emumet.Kernel.Event.{OffsetDateTime, EventVersion}
use emumet.Kernel.Id.{Externals}
use emumet.Kernel.Rehydrated.{Clock}
use emumet.Kernel.Account.{AccountEvent, AuthAccountId}
use emumet.Kernel.Permission.{Check, RelationTarget}
use emumet.Driver.EventStore.{EventTable}
use emumet.Driver.Accounts.{AccountTables}

-- one call of the permission writer
pub data RelationCall : Type 0 where
  create_relation delete_relation : RelationTarget → AuthAccountId → RelationCall

pub record World : Type 0 where
  pub events : EventTable AccountEvent
  pub tables : AccountTables
  -- the calls that the relation service has received, the latest last
  pub calls : List RelationCall

-- what the outside answers while one request runs
pub record Environment : Type 0 where
  pub externals : Externals
  -- the relation service
  pub check : Check
  pub respond : RelationCall → Result (Unit {0})
  -- the clock, where the queries, the checks and the commands read it
  pub queried_at : OffsetDateTime
  pub checked_at : OffsetDateTime
  pub commanded_at : OffsetDateTime
  -- the clock, as the replay of a load reads it
  pub replayed_at : Clock
  -- the id that the generator returns for the event
  pub generated : EventVersion

-- what a rolled back transaction leaves: its writes are gone, and the serial values that it drew
-- stay drawn
abbrev pub roll_back : World → World → World
roll_back before after = record before {
  events = record before.events { next_seq = after.events.next_seq };
}

module _ {A : Type 0} where
  abbrev pub on_events : Exec (EventTable AccountEvent) A → Exec World A
  on_events m w = let (r, events) = m w.events in (r, record w { events = events })

  abbrev pub on_tables : Exec AccountTables A → Exec World A
  on_tables m w = let (r, tables) = m w.tables in (r, record w { tables = tables })

  -- `TransactionManager::transaction`
  unfoldable pub transaction : Exec World A → Exec World A
  transaction operation w =
      let (r, w') = operation w in elim r [ ok a ↦ (ok a, w') | err e ↦ (err e, roll_back w w') ]

-- a call of the permission writer is sent, whatever the answer is
unfoldable pub call : Environment → RelationCall → Exec World (Unit {0})
call env request w = (env.respond request, record w { calls = w.calls ++ request ∷ [] })
