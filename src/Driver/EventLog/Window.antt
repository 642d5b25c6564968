-- ===== src/Driver/EventLog/Window.antt =====
-- The windows that find_by_seq_window reads of a table.
use emumet.Prelude.{
  ℕ, zero, suc, ◌+◌, ◌≤◌, ◌<◌, ◌≡◌, inl, inr, refl, sym, subst, is_some, ◌&&◌, ◌==◌, ◌∙◌, Option,
  none, some, Bool, true, false, List, [], ◌∷◌, ◌++◌, arith, if◌then◌else◌, any, take, filter,
  length, last_from, last?, All, All-take, All-append, All-filter, All-map, Bool-cases,
}
use emumet.Prelude.Sort.{IsSortedByKey, sort_by_key_of_IsSortedByKey}
use emumet.Kernel.Error.{Result, ok, err, concurrency}
use emumet.Kernel.Event.{EventVersion, EventEnvelope, ExpectedVersion, nothing, at, CommandEnvelope}
use emumet.Kernel.Exec.{Exec, continue, raise, pure}
use emumet.Driver.EventStore.{
  SeqEvent, EventTable, has_id, same_key, max_version, is_max, insert, execute, to_event,
  persist_internal,
}
use emumet.Driver.EventLog.{seq_of, is_after, find_by_seq_window}

module _ {E : Type 0} where
  abbrev pub IsIncreasing : List (SeqEvent E) → Type 0
  IsIncreasing [] = Unit
  IsIncreasing (row ∷ rows) = All (λ (r : SeqEvent E). row.seq < r.seq) rows × IsIncreasing rows

  -- the rows are numbered in order, below the next value of the serial column
  pub record IsNumbered (table : EventTable E) : Type 0 where
    pub below : All (λ (r : SeqEvent E). r.seq < table.next_seq) table.rows
    pub increasing : IsIncreasing table.rows

  IsIncreasing-append :
      (rows : List (SeqEvent E)) (row : SeqEvent E)
      → All (λ (r : SeqEvent E). r.seq < row.seq) rows
      → IsIncreasing rows
      → IsIncreasing (rows ++ row ∷ [])
  IsIncreasing-append [] row below h = (tt, tt)
  IsIncreasing-append (first ∷ rows) row below h = (
    All-append (λ (r : SeqEvent E). first.seq < r.seq) rows (row ∷ []) h.0 (below.0, tt),
    IsIncreasing-append rows row below.1 h.1,
  )

  All-lt_suc :
      (n : ℕ) (rows : List (SeqEvent E))
      → All (λ (r : SeqEvent E). r.seq < n) rows
      → All (λ (r : SeqEvent E). r.seq < n + 1) rows
  All-lt_suc n rows h =
      All-map (λ (r : SeqEvent E). r.seq < n) (λ (r : SeqEvent E). r.seq < n + 1)
        (λ r le. omega arith) rows h

  insert-IsNumbered :
      (event : EventEnvelope E) (table : EventTable E)
      → IsNumbered table
      → IsNumbered (insert event table).1
  unfolding insert
  insert-IsNumbered event table h = elim (Bool-cases (any (same_key event) table.rows)) [
    | inl e ↦
        rw e (record {
          below = All-lt_suc table.next_seq table.rows h.below;
          increasing = h.increasing;
        })
    | inr e ↦ rw e (record {
      below =
          All-append (λ (r : SeqEvent E). r.seq < table.next_seq + 1) table.rows
            (record { seq = table.next_seq; envelope = event } ∷ [])
            (All-lt_suc table.next_seq table.rows h.below) (omega arith, tt);
      increasing =
          IsIncreasing-append table.rows (record { seq = table.next_seq; envelope = event }) h.below
            h.increasing;
    })
  ]

  execute-IsNumbered :
      (expected : Option ExpectedVersion) (event : EventEnvelope E) (table : EventTable E)
      → IsNumbered table
      → IsNumbered (execute expected event table).1
  unfolding execute
  execute-IsNumbered none event table h = insert-IsNumbered event table h
  execute-IsNumbered (some nothing) event table h =
      elim (Bool-cases (any (has_id event.id) table.rows)) [
        | inl e ↦ rw e h
        | inr e ↦ rw e (insert-IsNumbered event table h)
      ]
  execute-IsNumbered (some (at prev)) event table h =
      elim (Bool-cases (is_max (max_version event.id table.rows) prev)) [
        | inl e ↦ rw e (insert-IsNumbered event table h)
        | inr e ↦ rw e h
      ]

  continue-state :
      (r : Result ℕ) (f : ℕ → Exec (EventTable E) (Unit {0})) (s : EventTable E)
      → ((n : ℕ) → (f n s).1 ≡ s)
      → (continue r f s).1 ≡ s
  continue-state (ok n) f s h = h n
  continue-state (err e) f s h = refl

  abbrev confirm : Bool → Exec (EventTable E) (Unit {0})
  confirm conflict = if conflict then raise concurrency else pure tt

  raise_or_pure : (b : Bool) (s : EventTable E) → (confirm b s).1 ≡ s
  raise_or_pure true s = refl
  raise_or_pure false s = refl

  -- If the rows of a table are numbered in order below the next serial value, they are after any
  -- append, refused or not.
  pub persist_internal-IsNumbered :
      (command : CommandEnvelope E) (version : EventVersion) (table : EventTable E)
      → IsNumbered table
      → IsNumbered (persist_internal command version table).1
  unfolding persist_internal
  persist_internal-IsNumbered command version table h =
      let event = to_event command version in
      subst IsNumbered
        (sym (
          continue-state (execute command.prev_version event table).0
            (λ n. confirm (is_some command.prev_version && n == 0))
            (execute command.prev_version event table).1
            (λ n.
              raise_or_pure (is_some command.prev_version && n == 0)
                (execute command.prev_version event table).1)))
        (execute-IsNumbered command.prev_version event table h)

  IsSorted-IsIncreasing : (rows : List (SeqEvent E)) → IsIncreasing rows → IsSortedByKey seq_of rows
  IsSorted-IsIncreasing [] h = tt
  IsSorted-IsIncreasing (row ∷ rows) h = (
    All-map (λ (r : SeqEvent E). row.seq < r.seq) (λ (r : SeqEvent E). row.seq ≤ r.seq)
        (λ r lt. omega arith) rows h.0,
    IsSorted-IsIncreasing rows h.1,
  )

  IsIncreasing-filter :
      (p : SeqEvent E → Bool) (rows : List (SeqEvent E))
      → IsIncreasing rows
      → IsIncreasing (filter p rows)
  IsIncreasing-filter p [] h = tt
  IsIncreasing-filter p (row ∷ rows) h = elim (Bool-cases (p row)) [
    | inl e ↦ rw e (
      All-filter (λ (r : SeqEvent E). row.seq < r.seq) p rows h.0,
      IsIncreasing-filter p rows h.1,
    )
    | inr e ↦ rw e (IsIncreasing-filter p rows h.1)
  ]

  window-eq :
      (from minus limit : ℕ) (table : EventTable E)
      → IsNumbered table
      → find_by_seq_window from minus limit table
        ≡ (ok (take limit (filter (is_after from minus) table.rows)), table)
  unfolding find_by_seq_window
  window-eq from minus limit table h = rw (
      sort_by_key_of_IsSortedByKey seq_of (filter (is_after from minus) table.rows) (
        IsSorted-IsIncreasing (filter (is_after from minus) table.rows)
          (IsIncreasing-filter (is_after from minus) table.rows h.increasing)))

  window-rows :
      (from minus limit : ℕ) (table : EventTable E) (events : List (SeqEvent E))
      → IsNumbered table
      → find_by_seq_window from minus limit table ≡ (ok events, table)
      → take limit (filter (is_after from minus) table.rows) ≡ events
  window-rows from minus limit table events h read =
      let e = sym (window-eq from minus limit table h) ∙ read in ground (arith, e)

  IsIncreasing-take : (n : ℕ) (xs : List (SeqEvent E)) → IsIncreasing xs → IsIncreasing (take n xs)
  IsIncreasing-take zero xs h = tt
  IsIncreasing-take (suc n) [] h = tt
  IsIncreasing-take (suc n) (x ∷ xs) h =
      (All-take (λ (r : SeqEvent E). x.seq < r.seq) n xs h.0, IsIncreasing-take n xs h.1)

  All-is_after :
      (from minus : ℕ) (rows : List (SeqEvent E))
      → All (λ (r : SeqEvent E). from < r.seq + minus) (filter (is_after from minus) rows)
  All-is_after from minus [] = tt
  All-is_after from minus (row ∷ rows) = ground (arith, All-is_after from minus rows)

  last-ge :
      (from minus : ℕ) (first : SeqEvent E) (rows : List (SeqEvent E))
      → from < first.seq + minus
      → IsIncreasing (first ∷ rows)
      → from + length (first ∷ rows) ≤ (last_from first rows).seq + minus
  last-ge from minus first [] lt h = omega arith
  last-ge from minus first (second ∷ rows) lt h =
      let lt' = h.0.0 in
      let ih = last-ge (suc from) minus second rows (omega (arith, lt')) h.1 in omega (arith, ih)

  last_batch :
      (from minus : ℕ) (events : List (SeqEvent E)) (last : SeqEvent E)
      → All (λ (r : SeqEvent E). from < r.seq + minus) events
      → IsIncreasing events
      → last? events ≡ some last
      → from + length events ≤ last.seq + minus
  last_batch from minus [] last after h e = cc
  last_batch from minus (first ∷ rows) last after h e =
      ground (arith, last-ge from minus first rows after.0 h)

  -- If the rows of a table are numbered in order, the number of the last event of a batch exceeds
  -- the start of the window by at least the length of the batch.
  pub find_by_seq_window-progress :
      (from minus limit : ℕ) (table : EventTable E) (events : List (SeqEvent E)) (last : SeqEvent E)
      → IsNumbered table
      → find_by_seq_window from minus limit table ≡ (ok events, table)
      → last? events ≡ some last
      → from + length events ≤ last.seq + minus
  find_by_seq_window-progress from minus limit table events last h read e =
      let rows = window-rows from minus limit table events h read in
      last_batch from minus events last
        (subst (All (λ (r : SeqEvent E). from < r.seq + minus)) rows (
          All-take (λ (r : SeqEvent E). from < r.seq + minus) limit
            (filter (is_after from minus) table.rows) (All-is_after from minus table.rows)))
        (subst IsIncreasing rows (
          IsIncreasing-take limit (filter (is_after from minus) table.rows)
            (IsIncreasing-filter (is_after from minus) table.rows h.increasing)))
        e
