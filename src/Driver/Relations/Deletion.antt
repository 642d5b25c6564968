-- ===== src/Driver/Relations/Deletion.antt =====
-- Deleting one relation of a valid table by its id.
use emumet.Prelude.{
  ℕ, ◌≡◌, ◌∙◌, refl, ap, sym, some, true, false, not, List, [], ◌∷◌, ◌++◌, map, arith, ==_refl,
  filter, find?, any, All, All-map, any-false_inv, any-false, any-append, All-both, filter_of_All,
  filter-last, Bool-cases, inl, inr,
}
use emumet.Kernel.Error.{Result, ok}
use emumet.Kernel.Relation.{TargetId, local, remote, Relation, same_target}
use emumet.Driver.Relations.{RelationRow, has_row_id, to_row, delete}
use emumet.Driver.Relations.Rows.{has_id, goes_between, clashes, delete-to_row}
use emumet.Driver.Relations.Tables.{NoClash}

same_target_refl : (t : TargetId) → same_target t t ≡ true
same_target_refl (local id) = ==_refl id
same_target_refl (remote id) = ==_refl id

module _ {X : Type 0} where
  -- no other relation of the list has the id
  abbrev IdIsNew : Relation X → List (Relation X) → Type 0
  IdIsNew r = All (λ other. (has_id r.id other ≡ false) × (has_id other.id r ≡ false))

  NoClash-IdIsNew :
      (r : Relation X) (rs : List (Relation X))
      → All (λ other. clashes r other ≡ false) rs
      → IdIsNew r rs
  NoClash-IdIsNew r [] h = tt
  NoClash-IdIsNew r (x ∷ xs) h = (ground (arith, h.0), NoClash-IdIsNew r xs h.1)

  -- The first relation of a table is deleted by its id, and the others stay.
  pub delete-head :
      (r : Relation X) (rs : List (Relation X))
      → All (λ other. clashes r other ≡ false) rs
      → delete r.id (map to_row (r ∷ rs)) ≡ (ok tt, map to_row rs)
  delete-head r rs h =
      delete-to_row r.id (r ∷ rs)
      ∙ rw (==_refl r.id) (
          ap (λ (l : List (Relation X)). (ok tt, map to_row l))
            (filter_of_All (λ other. not (has_id r.id other)) rs
              (All-map (λ other. (has_id r.id other ≡ false) × (has_id other.id r ≡ false))
                (λ other. not (has_id r.id other) ≡ true) (λ other k. ap not k.0) rs
                (NoClash-IdIsNew r rs h))))

  -- the later relations have another id than the first
  pub other_ids :
      (r : Relation X) (rs : List (Relation X))
      → All (λ other. clashes r other ≡ false) rs
      → All (λ other. has_id other.id r ≡ false) rs
  other_ids r rs h =
      All-map (λ other. (has_id r.id other ≡ false) × (has_id other.id r ≡ false))
        (λ other. has_id other.id r ≡ false) (λ other k. k.1) rs (NoClash-IdIsNew r rs h)

  -- the state with one more row in front
  abbrev pub behind {ℓ} :
      {A : Type ℓ}
      → RelationRow X
      → Result A × List (RelationRow X)
      → Result A × List (RelationRow X)
  behind row (r, rows) = (r, row ∷ rows)

  -- A deletion passes a row with another id by.
  pub delete-tail :
      (id : ℕ) (row : RelationRow X) (rows : List (RelationRow X))
      → has_row_id id row ≡ false
      → delete id (row ∷ rows) ≡ behind row (delete id rows)
  unfolding delete
  delete-tail id row rows h = ground arith

  -- another relation has another id and another pair
  others_differ :
      (r other : Relation X)
      → clashes r other ≡ false
      → (has_id r.id other ≡ false)
        × (not (has_id r.id other) ≡ true)
        × (not (goes_between r.source r.destination other) ≡ true)
  others_differ r other h = ground (arith, h)

  -- A relation that was just appended is deleted by its id, and the others stay.
  pub delete-last :
      (r : Relation X) (rs : List (Relation X))
      → any (clashes r) rs ≡ false
      → delete r.id (map to_row (rs ++ r ∷ [])) ≡ (ok tt, map to_row rs)
  delete-last r rs h =
      delete-to_row r.id (rs ++ r ∷ [])
      ∙ rw
          (
            any-append (has_id r.id) rs (r ∷ []),
            any-false (has_id r.id) rs (
                All-map (λ other. clashes r other ≡ false) (λ other. has_id r.id other ≡ false)
                  (λ other k. (others_differ r other k).0) rs (any-false_inv (clashes r) rs h)),
            ==_refl r.id,
            filter-last (λ other. not (has_id r.id other)) rs r
                (All-map (λ other. clashes r other ≡ false)
                  (λ other. not (has_id r.id other) ≡ true) (λ other k. (others_differ r other k).1)
                  rs (any-false_inv (clashes r) rs h))
                (ap not (==_refl r.id)),
          )
          refl

  -- A relation that was just appended is the only one of its pair.
  pub filter-goes_between :
      (r : Relation X) (rs : List (Relation X))
      → any (clashes r) rs ≡ false
      → filter (λ other. not (goes_between r.source r.destination other)) (rs ++ r ∷ []) ≡ rs
  filter-goes_between r rs h =
      filter-last (λ other. not (goes_between r.source r.destination other)) rs r
        (All-map (λ other. clashes r other ≡ false)
          (λ other. not (goes_between r.source r.destination other) ≡ true)
          (λ other k. (others_differ r other k).2) rs (any-false_inv (clashes r) rs h))
        (rw (same_target_refl r.source, same_target_refl r.destination) refl)

module _ {X : Type 0} (s d : TargetId) where
  same_pair :
      (r other : Relation X)
      → goes_between s d r ≡ true
      → clashes r other ≡ false
      → not (goes_between s d other) ≡ true
  same_pair r other h k = ground arith

  -- the relation of the pair, with what its deletion leaves
  abbrev pub Found : (Relation X → Type 0) → List (Relation X) → Type 0
  Found P rs =
      (r : Relation X) × (find? (goes_between s d) rs ≡ some r)
      × (delete r.id (map to_row rs)
          ≡ (ok tt, map to_row (filter (λ other. not (goes_between s d other)) rs)))
      × P r

  Found-there :
      (P : Relation X → Type 0) (x : Relation X) (xs : List (Relation X))
      → goes_between s d x ≡ false
      → Found (λ r. P r × (has_id r.id x ≡ false)) xs
      → Found P (x ∷ xs)
  Found-there P x xs there (r, found, deleted, p) = (
    r,
    rw there found,
    rw there (
        delete-tail r.id (to_row x) (map to_row xs) (unfold to_row in p.1)
        ∙ ap (behind (to_row x)) deleted),
    p.0,
  )

  -- The relation of a pair is deleted by its id, and the relations of other pairs stay.
  pub delete_pair :
      (P : Relation X → Type 0) (rs : List (Relation X))
      → NoClash rs
      → All P rs
      → any (goes_between s d) rs ≡ true
      → Found P rs
  delete_pair P [] h p e = cc
  delete_pair P (x ∷ xs) h p e = elim (Bool-cases (goes_between s d x)) [
    | inl here ↦ (
      x,
      rw here refl,
      rw here (
          delete-head x xs h.0
          ∙ ap (λ (l : List (Relation X)). (ok tt, map to_row l))
              (sym (
                filter_of_All (λ other. not (goes_between s d other)) xs
                  (All-map (λ other. clashes x other ≡ false)
                    (λ other. not (goes_between s d other) ≡ true)
                    (λ other k. same_pair x other here k) xs h.0)))),
      p.0,
    )
    | inr there ↦ Found-there P x xs there (
        delete_pair (λ r. P r × (has_id r.id x ≡ false)) xs h.1
          (All-both P (λ r. has_id r.id x ≡ false) xs p.1 (other_ids x xs h.0)) (ground arith))
  ]
