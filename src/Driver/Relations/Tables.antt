-- ===== src/Driver/Relations/Tables.antt =====
-- What every table of relations satisfies: ids and pairs stand once, and no remote account is related
-- to another.
use emumet.Prelude.{
  ℕ, ◌≡◌, refl, ◌∙◌, some, Bool, true, false, not, ◌&&◌, List, [], ◌∷◌, ◌++◌, map, arith,
  if◌then◌else◌, filter, any, is_none, All, All-filter, All-append, any-false_inv, Bool-cases, inl,
  inr,
}
use emumet.Kernel.Event.{OffsetDateTime}
use emumet.Kernel.Relation.{TargetId, Relation, Follow, new}
use emumet.Driver.Relations as Relations
use emumet.Driver.Relations.{
  RelationRow, ForeignKeys, to_row, insert_row, approve_follow_if_pending, replace_by_id,
  may_replace, clashes_with, satisfies_checks, satisfies_keys, has_row_id,
}
use emumet.Driver.Relations.Rows.{
  IsProper, has_id, goes_between, clashes, knows, insert_row-to_row, delete-to_row,
  delete_if_exists-to_row,
}
use emumet.Driver.Relations.Approvals.{approve, approve_follow_if_pending-to_row}

module _ {X : Type 0} where
  -- no two relations share their id or their pair
  abbrev pub NoClash : List (Relation X) → Type 0
  NoClash [] = Unit
  NoClash (r ∷ rs) = All (λ other. clashes r other ≡ false) rs × NoClash rs

  abbrev pub IsValid : List (Relation X) → Type 0
  IsValid rs = All IsProper rs × NoClash rs

  -- the rows are those of a valid list of relations
  abbrev pub IsTable : List (RelationRow X) → Type 0
  IsTable rows = (rs : List (Relation X)) × (rows ≡ map to_row rs) × IsValid rs

  NoClash-filter :
      (p : Relation X → Bool) (rs : List (Relation X)) → NoClash rs → NoClash (filter p rs)
  NoClash-filter p [] h = tt
  NoClash-filter p (r ∷ rs) h = elim (Bool-cases (p r)) [
    | inl e ↦ rw e (All-filter (λ other. clashes r other ≡ false) p rs h.0, NoClash-filter p rs h.1)
    | inr e ↦ rw e (NoClash-filter p rs h.1)
  ]

  pub IsValid-filter :
      (p : Relation X → Bool) (rs : List (Relation X)) → IsValid rs → IsValid (filter p rs)
  IsValid-filter p rs h = (All-filter IsProper p rs h.0, NoClash-filter p rs h.1)

  pub clashes_comm : (r other : Relation X) → clashes r other ≡ false → clashes other r ≡ false
  clashes_comm r other h = ground arith

  NoClash-append :
      (r : Relation X) (rs : List (Relation X))
      → NoClash rs
      → All (λ other. clashes r other ≡ false) rs
      → NoClash (rs ++ r ∷ [])
  NoClash-append r [] h k = (tt, tt)
  NoClash-append r (x ∷ xs) h k = (
    All-append (λ other. clashes x other ≡ false) xs (r ∷ []) h.0 (clashes_comm r x k.0, tt),
    NoClash-append r xs h.1 k.1,
  )

  pub IsValid-append :
      (r : Relation X) (rs : List (Relation X))
      → IsValid rs
      → IsProper r
      → any (clashes r) rs ≡ false
      → IsValid (rs ++ r ∷ [])
  IsValid-append r rs h proper new_pair = (
    All-append IsProper rs (r ∷ []) h.0 (proper, tt),
    NoClash-append r rs h.1 (any-false_inv (clashes r) rs new_pair),
  )

  pub insert-IsTable :
      (keys : ForeignKeys) (r : Relation X) (rs : List (Relation X))
      → IsValid rs
      → IsProper r
      → IsTable (insert_row keys (to_row r) (map to_row rs)).1
  insert-IsTable keys r rs h proper =
      rw (insert_row-to_row keys r rs) (elim (Bool-cases (any (clashes r) rs)) [
        | inl old ↦ rw old (rs, refl, h)
        | inr new_pair ↦
            rw new_pair (elim (Bool-cases (knows keys r.source && knows keys r.destination)) [
              | inl known ↦ rw known (rs ++ r ∷ [], refl, IsValid-append r rs h proper new_pair)
              | inr unknown ↦ rw unknown (rs, refl, h)
            ])
      ])

  pub delete-IsTable :
      (id : ℕ) (rs : List (Relation X))
      → IsValid rs
      → IsTable (Relations.delete id (map to_row rs)).1
  delete-IsTable id rs h = rw (delete-to_row id rs) (elim (Bool-cases (any (has_id id) rs)) [
    | inl found ↦
        rw found
          (filter (λ r. not (has_id id r)) rs, refl, IsValid-filter (λ r. not (has_id id r)) rs h)
    | inr missing ↦ rw missing (rs, refl, h)
  ])

  pub delete_if_exists-IsTable :
      (s d : TargetId) (rs : List (Relation X))
      → IsValid rs
      → IsTable (Relations.delete_if_exists s d (map to_row rs)).1
  delete_if_exists-IsTable s d rs h = rw (delete_if_exists-to_row s d rs) (
    filter (λ r. not (goes_between s d r)) rs,
    refl,
    IsValid-filter (λ r. not (goes_between s d r)) rs h,
  )

module _ (now : OffsetDateTime) (s d : TargetId) where
  approved : Bool → Follow → Follow
  approved b r = if b then record r { approved_at = some now } else r

  approved-IsProper : (b : Bool) (r : Follow) → IsProper r → IsProper (approved b r)
  unfolding approved new
  approved-IsProper true r h = ground arith
  approved-IsProper false r h = h

  approved-clashes :
      (b c : Bool) (r other : Follow) → clashes (approved b r) (approved c other) ≡ clashes r other
  unfolding approved
  approved-clashes true true r other = refl
  approved-clashes true false r other = refl
  approved-clashes false true r other = refl
  approved-clashes false false r other = refl

  approve-IsProper : (rs : List Follow) → All IsProper rs → All IsProper (map (approve now s d) rs)
  unfolding approved
  approve-IsProper [] h = tt
  approve-IsProper (r ∷ rs) h = (
    approved-IsProper (goes_between s d r && is_none r.approved_at) r h.0,
    approve-IsProper rs h.1,
  )

  approve-clashes :
      (r other : Follow) → clashes (approve now s d r) (approve now s d other) ≡ clashes r other
  unfolding approved
  approve-clashes r other =
      approved-clashes (goes_between s d r && is_none r.approved_at)
        (goes_between s d other && is_none other.approved_at) r other

  approve-All :
      (r : Follow) (rs : List Follow)
      → All (λ other. clashes r other ≡ false) rs
      → All (λ other. clashes (approve now s d r) other ≡ false) (map (approve now s d) rs)
  approve-All r [] h = tt
  approve-All r (x ∷ xs) h = (approve-clashes r x ∙ h.0, approve-All r xs h.1)

  approve-NoClash : (rs : List Follow) → NoClash rs → NoClash (map (approve now s d) rs)
  approve-NoClash [] h = tt
  approve-NoClash (r ∷ rs) h = (approve-All r rs h.0, approve-NoClash rs h.1)

  pub approve-IsTable :
      (rs : List Follow)
      → IsValid rs
      → IsTable (approve_follow_if_pending now s d (map to_row rs)).1
  approve-IsTable rs h =
      rw (approve_follow_if_pending-to_row now s d rs)
        (map (approve now s d) rs, refl, (approve-IsProper rs h.0, approve-NoClash rs h.1))
