-- ===== src/Driver/EventLog/Batches.antt =====
-- What a batch of find_by_seq_window is, of a table whose rows stand in any order.
use mathlib.Core.List.{Perm}
use mathlib.Core.List.Perm
use emumet.Prelude.{
  ℕ, zero, suc, ◌+◌, ◌≤◌, ◌<◌, ◌≡◌, ◌⊎◌, inl, inr, refl, ap, subst, Bool, not, List, [], ◌∷◌, ◌++◌,
  arith, take, filter, length, All, Bool-cases,
}
use emumet.Prelude.Sort.{
  IsSortedByKey, sort_by_key, sort_by_key-IsSortedByKey, sort_by_key-perm, All-sort_by_key,
}
use emumet.Kernel.Error.{ok}
use emumet.Driver.EventStore.{SeqEvent, EventTable}
use emumet.Driver.EventLog.{seq_of, is_after, find_by_seq_window}

module _ {A : Type 0} where
  All-split : (P : A → Type 0) (xs ys : List A) → All P (xs ++ ys) → All P xs × All P ys
  All-split P [] ys h = (tt, h)
  All-split P (x ∷ xs) ys h = let (front, back) = All-split P xs ys h.1 in ((h.0, front), back)

  length-take-le : (n : ℕ) (xs : List A) → length (take n xs) ≤ n
  length-take-le zero xs = omega arith
  length-take-le (suc n) [] = omega arith
  length-take-le (suc n) (x ∷ xs) = omega (arith, length-take-le n xs)

  -- what `take` leaves, and that it leaves nothing or has taken as many as it may
  take-rest :
      (n : ℕ) (xs : List A)
      → (rest : List A) × (xs ≡ take n xs ++ rest) × ((rest ≡ []) ⊎ (length (take n xs) ≡ n))
  take-rest zero xs = (xs, refl, inr refl)
  take-rest (suc n) [] = ([], refl, inl refl)
  take-rest (suc n) (x ∷ xs) =
      let (rest, split, full) = take-rest n xs in
      (rest, ap (◌∷◌ x) split, elim full [ inl e ↦ inl e | inr e ↦ inr (ap suc e) ])

  perm_middle : (x : A) (xs ys : List A) → Perm (xs ++ x ∷ ys) (x ∷ (xs ++ ys))
  perm_middle x [] ys = Perm.refl (x ∷ ys)
  perm_middle x (y ∷ xs) ys =
      Perm.trans (Perm.cons y (perm_middle x xs ys)) (Perm.swap x y (xs ++ ys))

  filter-perm : (p : A → Bool) (xs : List A) → Perm xs (filter p xs ++ filter (λ x. not (p x)) xs)
  filter-perm p [] = Perm.refl []
  filter-perm p (x ∷ xs) = elim (Bool-cases (p x)) [
    | inl e ↦ rw e (Perm.cons x (filter-perm p xs))
    | inr e ↦ rw e (
        Perm.trans (Perm.cons x (filter-perm p xs))
          (Perm.symm (perm_middle x (filter p xs) (filter (λ y. not (p y)) xs))))
  ]

module _ {A : Type 0} (key : A → ℕ) where
  IsSortedByKey-front : (xs ys : List A) → IsSortedByKey key (xs ++ ys) → IsSortedByKey key xs
  IsSortedByKey-front [] ys h = tt
  IsSortedByKey-front (x ∷ xs) ys h =
      ((All-split (λ y. key x ≤ key y) xs ys h.0).0, IsSortedByKey-front xs ys h.1)

  le-across :
      (xs ys : List A) → IsSortedByKey key (xs ++ ys) → All (λ x. All (λ y. key x ≤ key y) ys) xs
  le-across [] ys h = tt
  le-across (x ∷ xs) ys h = ((All-split (λ y. key x ≤ key y) xs ys h.0).1, le-across xs ys h.1)

module _ {E : Type 0} (from minus limit : ℕ) where
  -- the rows of the window are the batch and what comes later, the others are outside
  pub record IsBatch (rows events : List (SeqEvent E)) : Type 0 where
    pub later : List (SeqEvent E)
    pub outside : List (SeqEvent E)
    pub kept : Perm rows (events ++ later ++ outside)
    pub inside : All (λ (r : SeqEvent E). from < r.seq + minus) events
    pub inside_later : All (λ (r : SeqEvent E). from < r.seq + minus) later
    pub beyond : All (λ (r : SeqEvent E). r.seq + minus ≤ from) outside
    pub in_order : IsSortedByKey seq_of events
    pub oldest : All (λ (r : SeqEvent E). All (λ (l : SeqEvent E). r.seq ≤ l.seq) later) events
    pub bounded : length events ≤ limit
    pub full : (later ≡ []) ⊎ (length events ≡ limit)

  All-inside :
      (rows : List (SeqEvent E))
      → All (λ (r : SeqEvent E). from < r.seq + minus) (filter (is_after from minus) rows)
  All-inside [] = tt
  All-inside (row ∷ rows) = ground (arith, All-inside rows)

  All-beyond :
      (rows : List (SeqEvent E))
      → All
          (λ (r : SeqEvent E). r.seq + minus ≤ from)
          (filter (λ row. not (is_after from minus row)) rows)
  All-beyond [] = tt
  All-beyond (row ∷ rows) = ground (arith, All-beyond rows)

  abbrev window : List (SeqEvent E) → List (SeqEvent E)
  window rows = sort_by_key seq_of (filter (is_after from minus) rows)

  abbrev beyond_of : List (SeqEvent E) → List (SeqEvent E)
  beyond_of rows = filter (λ row. not (is_after from minus row)) rows

  window-perm : (rows : List (SeqEvent E)) → Perm rows (window rows ++ beyond_of rows)
  window-perm rows = Perm.trans (filter-perm (is_after from minus) rows) (
      Perm.append_right (beyond_of rows)
        (Perm.symm (sort_by_key-perm seq_of (filter (is_after from minus) rows))))

  take-IsBatch : (rows : List (SeqEvent E)) → IsBatch rows (take limit (window rows))
  take-IsBatch rows =
      let (rest, split, full) = take-rest limit (window rows) in
      let events = take limit (window rows) in
      let sorted : IsSortedByKey seq_of (events ++ rest) =
        subst (IsSortedByKey seq_of) split
          (sort_by_key-IsSortedByKey seq_of (filter (is_after from minus) rows)) in
      let inside =
        All-split (λ (r : SeqEvent E). from < r.seq + minus) events rest
          (subst (All (λ (r : SeqEvent E). from < r.seq + minus)) split (
            All-sort_by_key seq_of (λ (r : SeqEvent E). from < r.seq + minus)
              (filter (is_after from minus) rows) (All-inside rows))) in
      record {
        later = rest;
        outside = beyond_of rows;
        kept = subst (λ l. Perm rows (l ++ beyond_of rows)) split (window-perm rows);
        inside = inside.0;
        inside_later = inside.1;
        beyond = All-beyond rows;
        in_order = IsSortedByKey-front seq_of events rest sorted;
        oldest = le-across seq_of events rest sorted;
        bounded = length-take-le limit (window rows);
        full = full;
      }

  -- A read of a window succeeds and leaves the table, in whatever order its rows stand. The rows of
  -- the table are, each as often as it stands, those of the batch, later ones of the window, and ones
  -- outside of it; the batch is in the order of `seq`, none of it is behind a later one, it is at most
  -- as long as the limit, and that long if anything is left for later.
  pub find_by_seq_window-IsBatch :
      (table : EventTable E)
      → (events : List (SeqEvent E)) × (find_by_seq_window from minus limit table
          ≡ (ok events, table))
        × IsBatch table.rows events
  unfolding find_by_seq_window
  find_by_seq_window-IsBatch table = (take limit (window table.rows), refl, take-IsBatch table.rows)
