-- ===== src/Prelude/Lists.antt =====
-- Lists filtered by Boolean tests and measured by native numbers.
use Prim.Native.Nat.{ℕ, zero, suc, ◌+◌, ◌≤◌}
use mathlib.Core.Path.{◌≡◌, refl, ap}
use mathlib.Core.Bool.{Bool, true, false, ◌&&◌, ◌||◌}
use mathlib.Core.List.{List, [], ◌∷◌, ◌++◌, map}
use mathlib.Core.Logic.{inl, inr}
use mathlib.Core.Option.{Option, none, some}
use native.Mathlib.Omega.{arith}
use emumet.Prelude.Tests.{if◌then◌else◌, Bool-cases}

module _ {ℓ} {A : Type ℓ} where
  abbrev pub length : List A → ℕ
  length [] = 0
  length (x ∷ xs) = suc (length xs)

  abbrev pub take : ℕ → List A → List A
  take zero xs = []
  take (suc n) [] = []
  take (suc n) (x ∷ xs) = x ∷ take n xs

  -- `iter().filter(p)`
  abbrev pub filter : (A → Bool) → List A → List A
  filter p [] = []
  filter p (x ∷ xs) = if p x then x ∷ filter p xs else filter p xs

  -- `iter().any(p)`
  abbrev pub any : (A → Bool) → List A → Bool
  any p [] = false
  any p (x ∷ xs) = if p x then true else any p xs

  -- `iter().all(p)`
  abbrev pub all : (A → Bool) → List A → Bool
  all p [] = true
  all p (x ∷ xs) = if p x then all p xs else false

  -- the first element that passes the test
  abbrev pub find? : (A → Bool) → List A → Option A
  find? p [] = none
  find? p (x ∷ xs) = if p x then some x else find? p xs

  -- `slice::last`
  abbrev pub last_from : A → List A → A
  last_from a [] = a
  last_from a (x ∷ xs) = last_from x xs

  abbrev pub last? : List A → Option A
  last? [] = none
  last? (x ∷ xs) = some (last_from x xs)

  -- every element satisfies `P`
  abbrev pub All {κ} : (A → Type κ) → List A → Type κ
  All P [] = Unit
  All P (x ∷ xs) = P x × All P xs

module _ {ℓ} {A : Type ℓ} where
  pub length-append : (xs ys : List A) → length (xs ++ ys) ≡ length xs + length ys
  length-append [] ys = omega arith
  length-append (x ∷ xs) ys = omega (arith, length-append xs ys)

  pub length-filter-le : (p : A → Bool) (xs : List A) → length (filter p xs) ≤ length xs
  length-filter-le p [] = omega arith
  length-filter-le p (x ∷ xs) = ground (arith, length-filter-le p xs)

  pub find?-none : (p : A → Bool) (xs : List A) → All (λ x. p x ≡ false) xs → find? p xs ≡ none
  find?-none p [] h = refl
  find?-none p (x ∷ xs) h = rw h.0 (find?-none p xs h.1)

  pub any_of_find? : (p : A → Bool) (xs : List A) (y : A) → find? p xs ≡ some y → any p xs ≡ true
  any_of_find? p [] y h = cc
  any_of_find? p (x ∷ xs) y h = ground (arith, any_of_find? p xs y)

  pub any-append : (p : A → Bool) (xs ys : List A) → any p (xs ++ ys) ≡ (any p xs || any p ys)
  any-append p [] ys = refl
  any-append p (x ∷ xs) ys = ground (arith, any-append p xs ys)

  pub any-last : (p : A → Bool) (xs : List A) (x : A) → p x ≡ true → any p (xs ++ x ∷ []) ≡ true
  any-last p [] x h = rw h refl
  any-last p (y ∷ xs) x h = ground (arith, any-last p xs x h)

  pub filter-append :
      (p : A → Bool) (xs ys : List A) → filter p (xs ++ ys) ≡ filter p xs ++ filter p ys
  filter-append p [] ys = refl
  filter-append p (x ∷ xs) ys = ground (arith, filter-append p xs ys)

  pub last_from-append : (a x : A) (xs : List A) → last_from a (xs ++ x ∷ []) ≡ x
  last_from-append a x [] = refl
  last_from-append a x (y ∷ xs) = last_from-append y x xs

  pub last?-append : (x : A) (xs : List A) → last? (xs ++ x ∷ []) ≡ some x
  last?-append x [] = refl
  last?-append x (y ∷ xs) = ap some (last_from-append y x xs)

  pub All-append {κ} : (P : A → Type κ) (xs ys : List A) → All P xs → All P ys → All P (xs ++ ys)
  All-append P [] ys hx hy = hy
  All-append P (x ∷ xs) ys hx hy = (hx.0, All-append P xs ys hx.1 hy)

  pub All-map {κ μ} :
      (P : A → Type κ) (Q : A → Type μ) (f : (a : A) → P a → Q a) (xs : List A)
      → All P xs
      → All Q xs
  All-map P Q f [] h = tt
  All-map P Q f (x ∷ xs) h = (f x h.0, All-map P Q f xs h.1)

  pub All-filter {κ} :
      (P : A → Type κ) (p : A → Bool) (xs : List A) → All P xs → All P (filter p xs)
  All-filter P p [] h = tt
  All-filter P p (x ∷ xs) h = ground (arith, All-filter P p xs h.1, h.0)

  pub All-take {κ} : (P : A → Type κ) (n : ℕ) (xs : List A) → All P xs → All P (take n xs)
  All-take P zero xs h = tt
  All-take P (suc n) [] h = tt
  All-take P (suc n) (x ∷ xs) h = (h.0, All-take P n xs h.1)

-- A test on the images of a function is a test on the elements.
module _ {ℓ κ} {A : Type ℓ} {B : Type κ} (f : A → B) (p : B → Bool) (q : A → Bool) where
  pub filter-map :
      ((x : A) → p (f x) ≡ q x) → (xs : List A) → filter p (map f xs) ≡ map f (filter q xs)
  filter-map h [] = refl
  filter-map h (x ∷ xs) = elim (Bool-cases (q x)) [
    | inl e ↦ rw (h x, e) (ap (◌∷◌ (f x)) (filter-map h xs))
    | inr e ↦ rw (h x, e) (filter-map h xs)
  ]

  pub any-map : ((x : A) → p (f x) ≡ q x) → (xs : List A) → any p (map f xs) ≡ any q xs
  any-map h [] = refl
  any-map h (x ∷ xs) = rw (h x) (ap (λ b. if q x then true else b) (any-map h xs))

module _ {ℓ} {A : Type ℓ} where
  -- A filter that keeps everything.
  pub filter_of_All : (p : A → Bool) (xs : List A) → All (λ x. p x ≡ true) xs → filter p xs ≡ xs
  filter_of_All p [] h = refl
  filter_of_All p (x ∷ xs) h = ground (arith, filter_of_All p xs h.1, h.0)

  pub filter-last :
      (p : A → Bool) (xs : List A) (y : A)
      → All (λ x. p x ≡ true) xs
      → p y ≡ false
      → filter p (xs ++ y ∷ []) ≡ xs
  filter-last p [] y h e = rw e refl
  filter-last p (x ∷ xs) y h e = ground (arith, filter-last p xs y h.1 e, h.0)

  -- What passes a filter passes its test.
  pub filter-All : (p : A → Bool) (xs : List A) → All (λ x. p x ≡ true) (filter p xs)
  filter-All p [] = tt
  filter-All p (x ∷ xs) = elim (Bool-cases (p x)) [
    | inl e ↦ rw e (e, filter-All p xs)
    | inr e ↦ rw e (filter-All p xs)
  ]

  -- No element passes a test exactly if every element fails it.
  pub any-false : (p : A → Bool) (xs : List A) → All (λ x. p x ≡ false) xs → any p xs ≡ false
  any-false p [] h = refl
  any-false p (x ∷ xs) h = ground (arith, any-false p xs h.1, h.0)

  pub any-false_inv : (p : A → Bool) (xs : List A) → any p xs ≡ false → All (λ x. p x ≡ false) xs
  any-false_inv p [] h = tt
  any-false_inv p (x ∷ xs) h = elim (Bool-cases (p x)) [
    | inl e ↦ absurd (ground arith)
    | inr e ↦ (e, any-false_inv p xs (ground arith))
  ]

  -- Two filters in a row are one.
  pub filter-filter :
      (p q : A → Bool) (xs : List A) → filter q (filter p xs) ≡ filter (λ x. p x && q x) xs
  filter-filter p q [] = refl
  filter-filter p q (x ∷ xs) = elim (Bool-cases (p x)) [
    | inl e ↦ rw e (ap (λ (l : List A). if q x then x ∷ l else l) (filter-filter p q xs))
    | inr e ↦ rw e (filter-filter p q xs)
  ]

  -- A test on what a filter keeps.
  pub any-filter : (p q : A → Bool) (xs : List A) → any q (filter p xs) ≡ any (λ x. p x && q x) xs
  any-filter p q [] = refl
  any-filter p q (x ∷ xs) = elim (Bool-cases (p x)) [
    | inl e ↦ rw e (ap (λ b. if q x then true else b) (any-filter p q xs))
    | inr e ↦ rw e (any-filter p q xs)
  ]

  -- The first element that a filter keeps and a test passes.
  pub find?-filter :
      (p q : A → Bool) (xs : List A) → find? q (filter p xs) ≡ find? (λ x. p x && q x) xs
  find?-filter p q [] = refl
  find?-filter p q (x ∷ xs) = elim (Bool-cases (p x)) [
    | inl e ↦ rw e (ap (λ (o : Option A). if q x then some x else o) (find?-filter p q xs))
    | inr e ↦ rw e (find?-filter p q xs)
  ]

  pub All-both {κ μ} :
      (P : A → Type κ) (Q : A → Type μ) (xs : List A)
      → All P xs
      → All Q xs
      → All (λ x. P x × Q x) xs
  All-both P Q [] hp hq = tt
  All-both P Q (x ∷ xs) hp hq = ((hp.0, hq.0), All-both P Q xs hp.1 hq.1)
