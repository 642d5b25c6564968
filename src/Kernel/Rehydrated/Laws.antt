-- ===== src/Kernel/Rehydrated/Laws.antt =====
-- The replay of a stream that is longer by some events.
use emumet.Prelude.{suc, ◌≡◌, Option, none, some, List, [], ◌∷◌, ◌++◌, arith, length, last?-append}
use emumet.Kernel.Error.{KernelError, Result, ok, err}
use emumet.Kernel.Exec.{Exec, continue, ◌>>◌}
use emumet.Kernel.Event.{EventVersion, EventEnvelope, EventApplier}
use emumet.Kernel.Rehydrated.{
  Rehydrated, Clock, fold, require_aggregate, from_events, from_events_allow_deletion, allow_empty,
}

module _ {A E : Type 0} (applier : EventApplier A E) where
  pub fold-append :
      (clock : Clock) (events : List (EventEnvelope E)) (event : EventEnvelope E)
      (entity : Option A)
      → fold applier clock (events ++ event ∷ []) entity
        ≡ (fold applier clock events >> applier.apply (clock (length events)) event) entity
  unfolding fold
  fold-append clock [] event entity = ground arith
  fold-append clock (first ∷ events) event entity = ground (
    arith,
    fold-append (λ n. clock (suc n)) events event (applier.apply (clock 0) first entity).1,
  )

  -- the fold of a stream that loads, and its last version
  from_events-eq-some :
      (clock : Clock) (events : List (EventEnvelope E)) {loaded : Rehydrated A}
      → from_events applier clock events ≡ ok (some loaded)
      → fold applier clock events none ≡ (ok tt, some loaded.aggregate)
  unfolding from_events
  from_events-eq-some clock [] h = cc
  from_events-eq-some clock (first ∷ events) h = ground arith

  -- If the stream loads, one more event is one `apply` to the loaded aggregate.
  pub from_events-append :
      (clock : Clock) (events : List (EventEnvelope E)) (event : EventEnvelope E)
      {loaded : Rehydrated A}
      → from_events applier clock events ≡ ok (some loaded)
      → from_events applier clock (events ++ event ∷ [])
        ≡ require_aggregate event.version
            (applier.apply (clock (length events)) event (some loaded.aggregate))
  unfolding from_events
  from_events-append clock events event h = rw (
    last?-append event events,
    from_events,
    from_events,
    allow_empty,
    fold-append clock events event none,
    from_events-eq-some clock events h,
  )

  -- The same for streams that may end in a deletion, whatever the earlier events left.
  pub from_events_allow_deletion-append :
      (clock : Clock) (events : List (EventEnvelope E)) (event : EventEnvelope E)
      {entity : Option A}
      → fold applier clock events none ≡ (ok tt, entity)
      → from_events_allow_deletion applier clock (events ++ event ∷ [])
        ≡ allow_empty event.version (applier.apply (clock (length events)) event entity)
  unfolding from_events_allow_deletion
  from_events_allow_deletion-append clock events event h = rw (
    last?-append event events,
    from_events_allow_deletion,
    fold-append clock events event none,
    h,
  )

  continue-error :
      (r : Result (Unit {0})) (m n : Exec (Option A) (Unit {0})) (s : Option A) {e : KernelError}
      → ((m s).0 ≡ err e → (n s).0 ≡ err e)
      → (continue r (λ _. m) s).0 ≡ err e
      → (continue r (λ _. n) s).0 ≡ err e
  continue-error (ok a) m n s h failed = h failed
  continue-error (err k) m n s h failed = failed

  fold_error-append :
      (clock : Clock) (events more : List (EventEnvelope E)) (entity : Option A) {e : KernelError}
      → (fold applier clock events entity).0 ≡ err e
      → (fold applier clock (events ++ more) entity).0 ≡ err e
  unfolding fold
  fold_error-append clock [] more entity h = cc
  fold_error-append clock (first ∷ events) more entity h =
      continue-error (applier.apply (clock 0) first entity).0
        (fold applier (λ n. clock (suc n)) events)
        (fold applier (λ n. clock (suc n)) (events ++ more))
        (applier.apply (clock 0) first entity).1
        (fold_error-append (λ n. clock (suc n)) events more
          (applier.apply (clock 0) first entity).1)
        h

  require_aggregate_error :
      (version : EventVersion) (r : Result (Unit {0}) × Option A) {e : KernelError}
      → r.0 ≡ err e
      → require_aggregate version r ≡ err e
  require_aggregate_error version (err k, entity) h = ground arith
  require_aggregate_error version (ok a, entity) h = cc

  -- A stream that fails to replay fails for ever, whatever events follow.
  pub from_events_error-append :
      (clock : Clock) (events more : List (EventEnvelope E)) {e : KernelError}
      → (fold applier clock events none).0 ≡ err e
      → from_events applier clock (events ++ more) ≡ err e
  unfolding from_events
  from_events_error-append clock [] more h = unfold fold in cc
  from_events_error-append clock (first ∷ events) more h =
      require_aggregate_error _ (fold applier clock (first ∷ events ++ more) none)
        (fold_error-append clock (first ∷ events) more none h)

  -- the fold of a stream that loads, and one more event
  pub fold-append_of_from_events :
      (clock : Clock) (events : List (EventEnvelope E)) (event : EventEnvelope E)
      {loaded : Rehydrated A}
      → from_events applier clock events ≡ ok (some loaded)
      → fold applier clock (events ++ event ∷ []) none
        ≡ applier.apply (clock (length events)) event (some loaded.aggregate)
  fold-append_of_from_events clock events event h =
      rw (fold-append clock events event none, from_events-eq-some clock events h)
