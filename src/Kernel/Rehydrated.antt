-- ===== src/Kernel/Rehydrated.antt =====
-- kernel/src/repository/aggregate.rs: an aggregate rebuilt from its event stream.
pub mod Laws
use emumet.Prelude.{ℕ, suc, Option, none, some, List, [], ◌∷◌, last?}
use emumet.Kernel.Error.{Result, ok, err, internal, ok_or}
use emumet.Kernel.Exec.{Exec, pure, ◌>>=◌, ◌>>◌}
use emumet.Kernel.Event.{OffsetDateTime, EventVersion, EventEnvelope, EventApplier}

pub record Rehydrated (A : Type 0) : Type 0 where
  pub aggregate : A
  pub version : EventVersion

-- the readings of the clock, one for each event that is applied
abbrev pub Clock : Type 0
Clock = ℕ → OffsetDateTime

module _ {A : Type 0} where
  -- the fold's outcome, where an empty aggregate is a corrupt stream
  abbrev pub require_aggregate :
      EventVersion → Result (Unit {0}) × Option A → Result (Option (Rehydrated A))
  require_aggregate version (err e, aggregate) = err e
  require_aggregate version (ok _, none) = err internal
  require_aggregate version (ok _, some a) = ok (some (record { aggregate = a; version = version }))

  -- the fold's outcome, where an empty aggregate is a deleted one
  abbrev pub allow_empty :
      EventVersion → Result (Unit {0}) × Option A → Result (Option (Rehydrated A))
  allow_empty version (err e, aggregate) = err e
  allow_empty version (ok _, none) = ok none
  allow_empty version (ok _, some a) = ok (some (record { aggregate = a; version = version }))

module _ {A E : Type 0} where
  -- the loop `for event in events { A::apply(&mut aggregate, event)?; }`
  unfoldable pub fold :
      EventApplier A E → Clock → List (EventEnvelope E) → Exec (Option A) (Unit {0})
  fold applier clock [] = pure tt
  fold applier clock (event ∷ events) =
      applier.apply (clock 0) event >> fold applier (λ n. clock (suc n)) events

  unfoldable pub from_events :
      EventApplier A E → Clock → List (EventEnvelope E) → Result (Option (Rehydrated A))
  from_events applier clock events = elim (last? events) [
    | none ↦ ok none
    | some event ↦ require_aggregate event.version (fold applier clock events none)
  ]

  unfoldable pub from_events_allow_deletion :
      EventApplier A E → Clock → List (EventEnvelope E) → Result (Option (Rehydrated A))
  from_events_allow_deletion applier clock events = elim (last? events) [
    | none ↦ ok none
    | some event ↦ allow_empty event.version (fold applier clock events none)
  ]
