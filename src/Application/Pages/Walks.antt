-- ===== src/Application/Pages/Walks.antt =====
-- Walks over pages: each page is asked for with the last element of the one before as the cursor.
use emumet.Prelude.{
  ℕ, zero, suc, ◌≤◌, ◌<◌, ◌≡◌, refl, sym, ap, ◌∙◌, subst, arith, Option, none, some, Bool, true,
  false, List, [], ◌∷◌, ◌++◌, inl, inr, Bool-cases, if◌then◌else◌, filter, take, length, last_from,
  All, All-map, filter-append, filter_of_All, filter-All, All-take,
}
use emumet.Prelude.Sort.{sort_by_key, length-sort_by_key}
use emumet.Application.Pages.{next, is_after, apply_pagination}

abbrev drop : {T : Type 0} → ℕ → List T → List T
drop zero xs = xs
drop (suc n) [] = []
drop (suc n) (x ∷ xs) = drop n xs

take-drop : {T : Type 0} (n : ℕ) (xs : List T) → take n xs ++ drop n xs ≡ xs
take-drop zero xs = refl
take-drop (suc n) [] = refl
take-drop (suc n) (x ∷ xs) = ap (◌∷◌ x) (take-drop n xs)

length-drop : {T : Type 0} (n : ℕ) (xs : List T) → length (drop n xs) ≤ length xs
length-drop zero xs = omega arith
length-drop (suc n) [] = omega arith
length-drop (suc n) (x ∷ xs) = omega (arith, length-drop n xs)

module _ {T : Type 0} where
  All-last_from : (P : T → Type 0) (x : T) (xs : List T) → P x → All P xs → P (last_from x xs)
  All-last_from P x [] p h = p
  All-last_from P x (y ∷ ys) p h = All-last_from P y ys h.0 h.1

  All-front : (P : T → Type 0) (xs ys : List T) → All P (xs ++ ys) → All P xs
  All-front P [] ys h = tt
  All-front P (x ∷ xs) ys h = (h.0, All-front P xs ys h.1)

  All-back : (P : T → Type 0) (xs ys : List T) → All P (xs ++ ys) → All P ys
  All-back P [] ys h = h
  All-back P (x ∷ xs) ys h = All-back P xs ys h.1

  -- a filter in front that keeps what the second one keeps
  filter-twice :
      (p q : T → Bool) (xs : List T)
      → ((x : T) → q x ≡ true → p x ≡ true)
      → filter q (filter p xs) ≡ filter q xs
  filter-twice p q [] h = refl
  filter-twice p q (x ∷ xs) h = elim (Bool-cases (p x)) [
    | inl e ↦ rw e (ap (λ (l : List T). if q x then x ∷ l else l) (filter-twice p q xs h))
    | inr e ↦ elim (Bool-cases (q x)) [
      | inl k ↦ absurd (ground (arith, h x k))
      | inr k ↦ rw (e, k) (filter-twice p q xs h)
    ]
  ]

  filter-none : (q : T → Bool) (xs : List T) → All (λ x. q x ≡ false) xs → filter q xs ≡ []
  filter-none q [] h = refl
  filter-none q (x ∷ xs) h = rw h.0 (filter-none q xs h.1)

module _ {T : Type 0} (key : T → ℕ) where
  -- each key is less than the keys behind it
  abbrev pub IsAscending : List T → Type 0
  IsAscending [] = Unit
  IsAscending (x ∷ xs) = All (λ y. key x < key y) xs × IsAscending xs

  IsAscending-front : (xs ys : List T) → IsAscending (xs ++ ys) → IsAscending xs
  IsAscending-front [] ys h = tt
  IsAscending-front (x ∷ xs) ys h =
      (All-front (λ y. key x < key y) xs ys h.0, IsAscending-front xs ys h.1)

  IsAscending-back : (xs ys : List T) → IsAscending (xs ++ ys) → IsAscending ys
  IsAscending-back [] ys h = h
  IsAscending-back (x ∷ xs) ys h = IsAscending-back xs ys h.1

  -- the last key is the largest
  le-last : (x : T) (xs : List T) → IsAscending (x ∷ xs) → key x ≤ key (last_from x xs)
  le-last x [] h = omega arith
  le-last x (y ∷ ys) h = omega (arith, h.0.0, le-last y ys h.1)

  not_after_last :
      (x : T) (xs : List T)
      → IsAscending (x ∷ xs)
      → All (λ y. is_after key (some (last_from x xs)) y ≡ false) (x ∷ xs)
  not_after_last x [] h = (ground arith, tt)
  not_after_last x (y ∷ ys) h = (ground (arith, le-last x (y ∷ ys) h), not_after_last y ys h.1)

  after_last :
      (x : T) (xs ys : List T)
      → IsAscending (x ∷ xs ++ ys)
      → All (λ y. is_after key (some (last_from x xs)) y ≡ true) ys
  after_last x [] ys h =
      All-map (λ y. key x < key y) (λ y. is_after key (some x) y ≡ true) (λ y lt. ground arith) ys
        h.0
  after_last x (y ∷ xs) ys h = after_last y xs ys h.1

  is_after_trans :
      (cursor : Option T) (last y : T)
      → is_after key cursor last ≡ true
      → is_after key (some last) y ≡ true
      → is_after key cursor y ≡ true
  is_after_trans none last y h k = refl
  is_after_trans (some cursor) last y h k = ground arith

module _ {T : Type 0} (key : T → ℕ) (vec : List T) (limit : ℕ) where
  -- a page of `limit + 1` elements
  abbrev page : Option T → List T
  page cursor = apply_pagination key vec (suc limit) cursor next

  -- a page, and what is asked for behind its last element
  abbrev follow : (Option T → List T) → List T → List T
  follow again [] = []
  follow again (x ∷ xs) = (x ∷ xs) ++ again (some (last_from x xs))

  -- the pages, with the number of requests that are made at most
  unfoldable pub walk : ℕ → Option T → List T
  walk zero cursor = []
  walk (suc requests) cursor = follow (walk requests) (page cursor)

  -- what is behind the last element of a page
  after_page :
      (cursor : Option T) (x : T) (xs : List T)
      → filter (is_after key cursor) (sort_by_key key vec) ≡ x ∷ xs
      → IsAscending key (x ∷ xs)
      → filter (is_after key (some (last_from x (take limit xs)))) (sort_by_key key vec)
        ≡ drop limit xs
  after_page cursor x xs e h =
      let front = x ∷ take limit xs in
      let split : front ++ drop limit xs ≡ x ∷ xs = ap (◌∷◌ x) (take-drop limit xs) in
      let ascending : IsAscending key (front ++ drop limit xs) =
        subst (IsAscending key) (sym split) h in
      let last = last_from x (take limit xs) in
      let all : All (λ y. is_after key cursor y ≡ true) (x ∷ xs) =
        subst (All (λ y. is_after key cursor y ≡ true)) e
          (filter-All (is_after key cursor) (sort_by_key key vec)) in
      let passes : is_after key cursor last ≡ true =
        All-last_from (λ y. is_after key cursor y ≡ true) x (take limit xs) all.0
          (All-take (λ y. is_after key cursor y ≡ true) limit xs all.1) in
      sym (
        filter-twice (is_after key cursor) (is_after key (some last)) (sort_by_key key vec)
          (λ y. is_after_trans key cursor last y passes))
      ∙ ap (filter (is_after key (some last))) (e ∙ sym split)
      ∙ filter-append (is_after key (some last)) front (drop limit xs)
      ∙ ap (λ (l : List T). l ++ filter (is_after key (some last)) (drop limit xs))
          (filter-none (is_after key (some last)) front (
            not_after_last key x (take limit xs)
              (IsAscending-front key front (drop limit xs) ascending)))
      ∙ filter_of_All (is_after key (some last)) (drop limit xs)
          (after_last key x (take limit xs) (drop limit xs) ascending)

  walk-rest :
      (requests : ℕ) (cursor : Option T) (rest : List T)
      → filter (is_after key cursor) (sort_by_key key vec) ≡ rest
      → IsAscending key rest
      → length rest < requests
      → walk requests cursor ≡ rest
  unfolding walk apply_pagination
  walk-rest zero cursor rest e h lt = absurd (omega arith)
  walk-rest (suc requests) cursor [] e h lt =
      ap (λ (l : List T). follow (walk requests) (take (suc limit) l)) e
  walk-rest (suc requests) cursor (x ∷ xs) e h lt =
      ap (λ (l : List T). follow (walk requests) (take (suc limit) l)) e
      ∙ ap (λ (l : List T). x ∷ take limit xs ++ l)
          (walk-rest requests (some (last_from x (take limit xs))) (drop limit xs)
            (after_page cursor x xs e h)
            (IsAscending-back key (x ∷ take limit xs) (drop limit xs)
              (subst (IsAscending key) (sym (ap (◌∷◌ x) (take-drop limit xs))) h))
            (omega (arith, length-drop limit xs, lt)))
      ∙ ap (◌∷◌ x) (take-drop limit xs)

  after_none : (xs : List T) → filter (is_after key none) xs ≡ xs
  after_none [] = refl
  after_none (x ∷ xs) = ap (◌∷◌ x) (after_none xs)

  -- Where the keys of a list differ, so that the sorted list ascends, the pages of at least one
  -- element, each asked for with the last element of the one before as the cursor, come to an end
  -- within one request more than there are elements, and together are the sorted list: every
  -- element once, in order.
  pub walk-sort_by_key :
      (requests : ℕ)
      → IsAscending key (sort_by_key key vec)
      → length vec < requests
      → walk requests none ≡ sort_by_key key vec
  walk-sort_by_key requests h lt =
      walk-rest requests none (sort_by_key key vec) (after_none (sort_by_key key vec)) h
        (omega (arith, length-sort_by_key key vec, lt))
