-- ===== src/Prelude/Sort.antt =====
-- A stable sort by a numeric key: `sort_by_key` of Rust, and `ORDER BY` of SQL.
use emumet.Prelude.Tests.{ltb, leb, leb→le, Bool-cases, if◌then◌else◌}
use emumet.Prelude.Lists.{All, last_from, length}
use Prim.Native.Nat.{ℕ, suc, ◌≤◌}
use mathlib.Core.Path.{◌≡◌, refl, ap, ◌∙◌}
use mathlib.Core.List.{List, [], ◌∷◌, ◌++◌, Perm}
use mathlib.Core.List.Perm
use mathlib.Core.Logic.{inl, inr}
use mathlib.Core.Option.{Option, none, some}
use native.Mathlib.Omega.{arith}

module _ {ℓ} {A : Type ℓ} (key : A → ℕ) where
  unfoldable pub insert_by_key : A → List A → List A
  insert_by_key x [] = x ∷ []
  insert_by_key x (y ∷ ys) = if leb (key x) (key y) then x ∷ y ∷ ys else y ∷ insert_by_key x ys

  unfoldable pub sort_by_key : List A → List A
  unfolding insert_by_key
  sort_by_key [] = []
  sort_by_key (x ∷ xs) = insert_by_key x (sort_by_key xs)

  -- each key is at most the keys behind it
  abbrev pub IsSortedByKey : List A → Type 0
  IsSortedByKey [] = Unit
  IsSortedByKey (x ∷ xs) = All (λ y. key x ≤ key y) xs × IsSortedByKey xs

module _ {ℓ} {A : Type ℓ} (key : A → ℕ) where
  All-insert_by_key {κ} :
      (P : A → Type κ) (x : A) (xs : List A) → P x → All P xs → All P (insert_by_key key x xs)
  unfolding insert_by_key
  All-insert_by_key P x [] px h = (px, tt)
  All-insert_by_key P x (y ∷ ys) px h = ground (arith, All-insert_by_key P x ys px h.1, h.0)

  pub All-sort_by_key {κ} : (P : A → Type κ) (xs : List A) → All P xs → All P (sort_by_key key xs)
  unfolding sort_by_key
  All-sort_by_key P [] h = tt
  All-sort_by_key P (x ∷ xs) h =
      All-insert_by_key P x (sort_by_key key xs) h.0 (All-sort_by_key P xs h.1)

  All-le : (a b : ℕ) (xs : List A) → a ≤ b → All (λ y. b ≤ key y) xs → All (λ y. a ≤ key y) xs
  All-le a b [] h k = tt
  All-le a b (x ∷ xs) h k = (omega arith, All-le a b xs h k.1)

  insert_by_key-IsSortedByKey :
      (x : A) (xs : List A) → IsSortedByKey key xs → IsSortedByKey key (insert_by_key key x xs)
  unfolding insert_by_key
  insert_by_key-IsSortedByKey x [] s = (tt, tt)
  insert_by_key-IsSortedByKey x (y ∷ ys) s = elim (Bool-cases (leb (key x) (key y))) [
    | inl le ↦ rw le ((leb→le _ _ le, All-le (key x) (key y) ys (leb→le _ _ le) s.0), s)
    | inr gt ↦ rw gt (
      All-insert_by_key (λ z. key y ≤ key z) x ys (ground arith) s.0,
      insert_by_key-IsSortedByKey x ys s.1,
    )
  ]

  -- Sorting sorts.
  pub sort_by_key-IsSortedByKey : (xs : List A) → IsSortedByKey key (sort_by_key key xs)
  unfolding sort_by_key
  sort_by_key-IsSortedByKey [] = tt
  sort_by_key-IsSortedByKey (x ∷ xs) =
      insert_by_key-IsSortedByKey x (sort_by_key key xs) (sort_by_key-IsSortedByKey xs)

  insert_by_key-append :
      (x m : A) (s : List A)
      → key x ≤ key m
      → insert_by_key key x (s ++ m ∷ []) ≡ insert_by_key key x s ++ m ∷ []
  unfolding insert_by_key
  insert_by_key-append x m [] h = ground arith
  insert_by_key-append x m (y ∷ ys) h = ground (arith, insert_by_key-append x m ys h)

  -- An element with the largest key stays last.
  pub sort_by_key-append :
      (m : A) (xs : List A)
      → All (λ x. key x ≤ key m) xs
      → sort_by_key key (xs ++ m ∷ []) ≡ sort_by_key key xs ++ m ∷ []
  unfolding sort_by_key
  sort_by_key-append m [] h = unfold insert_by_key in refl
  sort_by_key-append m (x ∷ xs) h =
      rw (sort_by_key-append m xs h.1) (insert_by_key-append x m (sort_by_key key xs) h.0)

  insert_by_key_of_All :
      (x : A) (xs : List A) → All (λ y. key x ≤ key y) xs → insert_by_key key x xs ≡ x ∷ xs
  unfolding insert_by_key
  insert_by_key_of_All x [] h = refl
  insert_by_key_of_All x (y ∷ ys) h = ground (arith, h.0)

  -- What is in order stays as it is.
  pub sort_by_key_of_IsSortedByKey : (xs : List A) → IsSortedByKey key xs → sort_by_key key xs ≡ xs
  unfolding sort_by_key
  sort_by_key_of_IsSortedByKey [] s = refl
  sort_by_key_of_IsSortedByKey (x ∷ xs) s =
      rw (sort_by_key_of_IsSortedByKey xs s.1) (insert_by_key_of_All x xs s.0)

  insert_by_key-perm : (x : A) (xs : List A) → Perm (insert_by_key key x xs) (x ∷ xs)
  unfolding insert_by_key
  insert_by_key-perm x [] = Perm.refl (x ∷ [])
  insert_by_key-perm x (y ∷ ys) = elim (Bool-cases (leb (key x) (key y))) [
    | inl le ↦ rw le (Perm.refl (x ∷ y ∷ ys))
    | inr gt ↦ rw gt (Perm.trans (Perm.cons y (insert_by_key-perm x ys)) (Perm.swap x y ys))
  ]

  -- Sorting keeps the elements, as often as they stand.
  pub sort_by_key-perm : (xs : List A) → Perm (sort_by_key key xs) xs
  unfolding sort_by_key
  sort_by_key-perm [] = Perm.refl []
  sort_by_key-perm (x ∷ xs) =
      Perm.trans (insert_by_key-perm x (sort_by_key key xs)) (Perm.cons x (sort_by_key-perm xs))

module _ {ℓ} {A : Type ℓ} (key : A → ℕ) where
  -- the last key of a list, behind a first key `m`
  abbrev pub last_key : ℕ → List A → ℕ
  last_key m [] = m
  last_key m (x ∷ xs) = last_key (key x) xs

  pub key-last_from : (a : A) (xs : List A) → key (last_from a xs) ≡ last_key (key a) xs
  key-last_from a [] = refl
  key-last_from a (x ∷ xs) = key-last_from x xs

  le-last_key :
      (m : ℕ) (xs : List A) → All (λ y. m ≤ key y) xs → IsSortedByKey key xs → m ≤ last_key m xs
  le-last_key m [] h s = omega arith
  le-last_key m (x ∷ xs) h s = omega (arith, h.0, le-last_key (key x) xs s.0 s.1)

  -- Sorted insertion keeps the largest key last.
  pub last_key-insert_by_key :
      (m : ℕ) (x : A) (xs : List A)
      → m ≤ key x
      → All (λ y. m ≤ key y) xs
      → IsSortedByKey key xs
      → last_key m (insert_by_key key x xs)
        ≡ (if ltb (last_key m xs) (key x) then key x else last_key m xs)
  unfolding insert_by_key
  last_key-insert_by_key m x [] le h s = ground arith
  last_key-insert_by_key m x (y ∷ ys) le h s = ground (
    arith,
    le-last_key (key y) ys s.0 s.1,
    λ (lt : key y ≤ key x). last_key-insert_by_key (key y) x ys lt s.0 s.1,
  )

  -- the last key of a list
  abbrev pub last_key? : List A → Option ℕ
  last_key? [] = none
  last_key? (x ∷ xs) = some (last_key (key x) xs)

  pub last_key?-insert_by_key :
      (x : A) (xs : List A)
      → IsSortedByKey key xs
      → last_key? (insert_by_key key x xs) ≡ some (last_key 0 (insert_by_key key x xs))
  unfolding insert_by_key
  last_key?-insert_by_key x [] s = refl
  last_key?-insert_by_key x (y ∷ ys) s = ground arith

module _ {ℓ} {A : Type ℓ} (key : A → ℕ) where
  length-insert_by_key : (x : A) (xs : List A) → length (insert_by_key key x xs) ≡ suc (length xs)
  unfolding insert_by_key
  length-insert_by_key x [] = refl
  length-insert_by_key x (y ∷ ys) = ground (arith, length-insert_by_key x ys)

  -- Sorting keeps the length.
  pub length-sort_by_key : (xs : List A) → length (sort_by_key key xs) ≡ length xs
  unfolding sort_by_key
  length-sort_by_key [] = refl
  length-sort_by_key (x ∷ xs) =
      length-insert_by_key x (sort_by_key key xs) ∙ ap suc (length-sort_by_key xs)
