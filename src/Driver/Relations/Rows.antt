-- ===== src/Driver/Relations/Rows.antt =====
-- The tables of relations as lists of relations: what each statement does to the rows of such a list.
use emumet.Prelude.{
  ℕ, ◌≡◌, refl, ap, Bool, true, false, not, ◌&&◌, ◌||◌, List, [], ◌∷◌, ◌++◌, map, arith, ◌==◌,
  if◌then◌else◌, filter, any, All, All-filter, filter-map, any-map,
}
use mathlib.Core.List.{map-append}
use emumet.Kernel.Error.{ok, err, not_found}
use emumet.Kernel.Relation.{TargetId, local, remote, Relation, same_target, new}
use emumet.Driver.Relations.{
  to_row, from_row, collect, has_source, has_destination, is_between, has_row_id, clashes_with,
  find_by_source, delete, delete_if_exists, ForeignKeys, insert_row, create, created,
  insert_if_absent, inserted, Inserted, RelationRow, done, unique_violation, other_error,
  satisfies_checks, satisfies_keys,
}

-- the target is a row of its table
abbrev pub knows : ForeignKeys → TargetId → Bool
knows keys (local id) = keys.has_account id
knows keys (remote id) = keys.has_remote_account id

module _ {X : Type 0} where
  -- not from a remote account to a remote account
  abbrev pub IsProper : Relation X → Type 0
  IsProper r = new r.id r.source r.destination r.approved_at ≡ ok r

  abbrev pub goes_from : TargetId → Relation X → Bool
  goes_from source r = same_target r.source source

  abbrev pub goes_between : TargetId → TargetId → Relation X → Bool
  goes_between source destination r =
      same_target r.source source && same_target r.destination destination

  abbrev pub has_id : ℕ → Relation X → Bool
  has_id id r = r.id == id

  from_columns :
      (id : ℕ) (s d : TargetId) (a : X)
      → from_row (to_row (record { id = id; source = s; destination = d; approved_at = a }))
        ≡ new id s d a
  unfolding from_row to_row
  from_columns id (local s) (local d) a = refl
  from_columns id (local s) (remote d) a = refl
  from_columns id (remote s) (local d) a = refl
  from_columns id (remote s) (remote d) a = refl

  -- The row of a relation reads back as that relation, except between two remote accounts, which is
  -- refused.
  pub from_row-to_row :
      (r : Relation X) → from_row (to_row r) ≡ new r.id r.source r.destination r.approved_at
  from_row-to_row r = from_columns r.id r.source r.destination r.approved_at

  pub collect-map : (rs : List (Relation X)) → All IsProper rs → collect (map to_row rs) ≡ ok rs
  unfolding collect
  collect-map [] h = refl
  collect-map (r ∷ rs) h = rw (from_row-to_row r, h.0, collect-map rs h.1) refl

  has_source-to_row : (s : TargetId) (r : Relation X) → has_source s (to_row r) ≡ goes_from s r
  unfolding to_row
  has_source-to_row (local s) r = ground arith
  has_source-to_row (remote s) r = ground arith

  pub has_destination-to_row :
      (d : TargetId) (r : Relation X) → has_destination d (to_row r) ≡ same_target r.destination d
  unfolding to_row
  has_destination-to_row (local d) r = ground arith
  has_destination-to_row (remote d) r = ground arith

  pub is_between-to_row :
      (s d : TargetId) (r : Relation X) → is_between s d (to_row r) ≡ goes_between s d r
  unfolding to_row
  is_between-to_row (local s) (local d) r = ground arith
  is_between-to_row (local s) (remote d) r = ground arith
  is_between-to_row (remote s) (local d) r = ground arith
  is_between-to_row (remote s) (remote d) r = ground arith

  -- the pair, or the id, is that of the other relation
  abbrev pub clashes : Relation X → Relation X → Bool
  clashes r other = has_id r.id other || goes_between r.source r.destination other

  clashes_with-to_row :
      (r other : Relation X) → clashes_with (to_row r) (to_row other) ≡ clashes r other
  unfolding to_row
  clashes_with-to_row r other = ground arith

  has_row_id-to_row : (id : ℕ) (r : Relation X) → has_row_id id (to_row r) ≡ has_id id r
  unfolding to_row
  has_row_id-to_row id r = refl

  -- A query by source returns the relations from that source.
  pub find_by_source-to_row :
      (s : TargetId) (rs : List (Relation X))
      → All IsProper rs
      → find_by_source s (map to_row rs) ≡ (ok (filter (goes_from s) rs), map to_row rs)
  unfolding find_by_source
  find_by_source-to_row s rs h =
      rw
        (
          filter-map to_row (has_source s) (goes_from s) (has_source-to_row s) rs,
          collect-map (filter (goes_from s) rs) (All-filter IsProper (goes_from s) rs h),
        )
        refl

  -- A deletion by id removes the relations with that id, and needs one.
  pub delete-to_row :
      (id : ℕ) (rs : List (Relation X))
      → delete id (map to_row rs) ≡ (
          if any (has_id id) rs
          then (ok tt, map to_row (filter (λ r. not (has_id id r)) rs))
          else (err not_found, map to_row rs))
  unfolding delete
  delete-to_row id rs =
      rw
        (
          any-map to_row (has_row_id id) (has_id id) (λ r. has_row_id-to_row id r) rs,
          filter-map to_row (λ row. not (has_row_id id row)) (λ r. not (has_id id r))
              (λ r. ap not (has_row_id-to_row id r)) rs,
        )
        refl

  -- A deletion by the pair removes the relations of that pair.
  pub delete_if_exists-to_row :
      (s d : TargetId) (rs : List (Relation X))
      → delete_if_exists s d (map to_row rs)
        ≡ (ok (any (goes_between s d) rs), map to_row (filter (λ r. not (goes_between s d r)) rs))
  unfolding delete_if_exists
  delete_if_exists-to_row s d rs =
      rw
        (
          any-map to_row (is_between s d) (goes_between s d) (is_between-to_row s d) rs,
          filter-map to_row (λ row. not (is_between s d row)) (λ r. not (goes_between s d r))
              (λ r. ap not (is_between-to_row s d r)) rs,
        )
        refl

  satisfies_checks-to_row : (r : Relation X) → satisfies_checks (to_row r) ≡ true
  unfolding to_row
  satisfies_checks-to_row r = ground arith

  satisfies_keys-to_row :
      (keys : ForeignKeys) (r : Relation X)
      → satisfies_keys keys (to_row r) ≡ (knows keys r.source && knows keys r.destination)
  unfolding to_row
  satisfies_keys-to_row keys r = ground arith

  -- An insertion needs a new id and a new pair, and both ends.
  pub insert_row-to_row :
      (keys : ForeignKeys) (r : Relation X) (rs : List (Relation X))
      → insert_row keys (to_row r) (map to_row rs) ≡ (
          if any (clashes r) rs
          then (unique_violation, map to_row rs)
          else if knows keys r.source && knows keys r.destination
          then (done, map to_row (rs ++ r ∷ []))
          else (other_error, map to_row rs))
  unfolding insert_row
  insert_row-to_row keys r rs =
      rw
        (
          satisfies_checks-to_row r,
          any-map to_row (clashes_with (to_row r)) (clashes r) (clashes_with-to_row r) rs,
          satisfies_keys-to_row keys r,
          map-append to_row rs (r ∷ []),
        )
        refl

module _ {X : Type 0} (keys : ForeignKeys) (r : Relation X) (rs : List (Relation X)) where
  -- the relation may be inserted
  abbrev pub IsNew : Type 0
  IsNew =
      (any (clashes r) rs ≡ false)
      × (knows keys r.source ≡ true)
      × (knows keys r.destination ≡ true)

  insert_row_of_IsNew :
      IsNew → insert_row keys (to_row r) (map to_row rs) ≡ (done, map to_row (rs ++ r ∷ []))
  insert_row_of_IsNew h = rw (insert_row-to_row keys r rs, h.0, h.1, h.2) refl

  -- A new relation is created.
  pub create_of_IsNew : IsNew → create keys r (map to_row rs) ≡ (ok tt, map to_row (rs ++ r ∷ []))
  unfolding create
  create_of_IsNew h =
      ap (λ (s : Inserted × List (RelationRow X)). (created s.0, s.1)) (insert_row_of_IsNew h)

  -- A new relation is inserted.
  pub insert_if_absent_of_IsNew :
      IsNew → insert_if_absent keys r (map to_row rs) ≡ (ok true, map to_row (rs ++ r ∷ []))
  unfolding insert_if_absent
  insert_if_absent_of_IsNew h =
      ap (λ (s : Inserted × List (RelationRow X)). (inserted s.0, s.1)) (insert_row_of_IsNew h)

  -- A relation whose id or pair is there already is not.
  pub insert_if_absent_of_clash :
      any (clashes r) rs ≡ true
      → insert_if_absent keys r (map to_row rs) ≡ (ok false, map to_row rs)
  unfolding insert_if_absent
  insert_if_absent_of_clash h = rw (insert_row-to_row keys r rs, h) refl
