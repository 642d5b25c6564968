-- ===== src/Kernel/Event.antt =====
-- kernel/src/entity/event.rs, event/version.rs and kernel/src/event.rs: what is stored of a change,
-- the command that asks for one, and the interface of an event-sourced entity. The column
-- `event_name`, a macro's constant for each event, is never read back and is left out.
use emumet.Prelude.{ℕ, Option}
use emumet.Kernel.Exec.{Exec}

-- an instant of the `time` crate; the program compares instants and takes nothing else from them
abbrev pub OffsetDateTime : Type 0
OffsetDateTime = ℕ

-- an `i64` drawn from the generator, which never returns a negative number
abbrev pub EventVersion : Type 0
EventVersion = ℕ

abbrev pub EventId : Type 0
EventId = ℕ

pub record EventEnvelope (E : Type 0) : Type 0 where
  pub id : EventId
  pub event : E
  pub version : EventVersion

pub data ExpectedVersion : Type 0 where
  nothing : ExpectedVersion
  at : EventVersion → ExpectedVersion

pub record CommandEnvelope (E : Type 0) : Type 0 where
  pub id : EventId
  pub event : E
  pub prev_version : Option ExpectedVersion

-- `apply` may read the clock, so it is given the instant at which it runs.
pub record EventApplier (A E : Type 0) : Type 0 where
  pub apply : OffsetDateTime → EventEnvelope E → Exec (Option A) (Unit {0})

abbrev pub version_of : {E : Type 0} → EventEnvelope E → EventVersion
version_of event = event.version
