-- ===== src/Driver/Relations/Statements.antt =====
-- The statements of the follow repository keep what every table of relations satisfies.
use emumet.Prelude.{
  ℕ, ◌≡◌, refl, sym, ap, ◌∙◌, Option, Bool, false, not, ◌&&◌, List, [], ◌∷◌, map, arith,
  if◌then◌else◌, any, All, All-map, any-false_inv, any-map, ◌==◌, Bool-cases, inl, inr,
}
use emumet.Kernel.Event.{OffsetDateTime}
use emumet.Kernel.Relation.{TargetId, Relation, Follow}
use emumet.Driver.Relations as Relations
use emumet.Driver.Relations.{
  RelationRow, ForeignKeys, to_row, insert_row, approve_follow_if_pending, replace_by_id,
  may_replace, clashes_with, satisfies_checks, satisfies_keys, has_row_id,
}
use emumet.Driver.Relations.Rows.{IsProper, has_id, goes_between, clashes}
use emumet.Driver.Relations.Tables.{
  IsTable, IsValid, NoClash, clashes_comm, insert-IsTable, delete-IsTable, delete_if_exists-IsTable,
  approve-IsTable,
}

module _ {X : Type 0} (r : Relation X) where
  -- the relation in the place of the one with its id
  abbrev put : List (Relation X) → List (Relation X)
  put [] = []
  put (x ∷ xs) = (if has_id r.id x then r else x) ∷ put xs

  -- the pair is that of another relation
  abbrev meets : Relation X → Bool
  meets x = not (has_id r.id x) && goes_between r.source r.destination x

  replace_by_id-to_row :
      (rs : List (Relation X)) → replace_by_id (to_row r) (map to_row rs) ≡ map to_row (put rs)
  unfolding to_row
  replace_by_id-to_row [] = refl
  replace_by_id-to_row (x ∷ xs) = elim (Bool-cases (has_id r.id x)) [
    | inl e ↦ rw e (ap (◌∷◌ (to_row r)) (replace_by_id-to_row xs))
    | inr e ↦ rw e (ap (◌∷◌ (to_row x)) (replace_by_id-to_row xs))
  ]

  put-IsProper : (rs : List (Relation X)) → IsProper r → All IsProper rs → All IsProper (put rs)
  put-IsProper [] proper h = tt
  put-IsProper (x ∷ xs) proper h = elim (Bool-cases (has_id r.id x)) [
    | inl e ↦ rw e (proper, put-IsProper xs proper h.1)
    | inr e ↦ rw e (h.0, put-IsProper xs proper h.1)
  ]

  clashes_of_meets :
      (x : Relation X) → has_id r.id x ≡ false → meets x ≡ false → clashes r x ≡ false
  clashes_of_meets x other free = ground arith

  -- what does not clash with the list and has another id does not clash with the changed list
  put-apart :
      (x : Relation X) (rs : List (Relation X))
      → has_id r.id x ≡ false
      → meets x ≡ false
      → All (λ other. clashes x other ≡ false) rs
      → All (λ other. clashes x other ≡ false) (put rs)
  put-apart x [] other free h = tt
  put-apart x (y ∷ ys) other free h = elim (Bool-cases (has_id r.id y)) [
    | inl e ↦ rw e (clashes_comm r x (clashes_of_meets x other free), put-apart x ys other free h.1)
    | inr e ↦ rw e (h.0, put-apart x ys other free h.1)
  ]

  -- behind the relation of the id there is no other of it
  put-rest :
      (rs : List (Relation X))
      → All (λ x. has_id r.id x ≡ false) rs
      → All (λ x. meets x ≡ false) rs
      → All (λ x. clashes r x ≡ false) (put rs)
  put-rest [] h free = tt
  put-rest (x ∷ xs) h free = rw h.0 (clashes_of_meets x h.0 free.0, put-rest xs h.1 free.1)

  put-NoClash :
      (rs : List (Relation X)) → NoClash rs → All (λ x. meets x ≡ false) rs → NoClash (put rs)
  put-NoClash [] h free = tt
  put-NoClash (x ∷ xs) h free = elim (Bool-cases (has_id r.id x)) [
    | inl e ↦ rw e (
      put-rest xs
          (All-map (λ y. clashes x y ≡ false) (λ y. has_id r.id y ≡ false) (λ y k. ground arith) xs
            h.0)
          free.1,
      put-NoClash xs h.1 free.1,
    )
    | inr e ↦ rw e (put-apart x xs e free.0 h.0, put-NoClash xs h.1 free.1)
  ]

module _ {X : Type 0} (keys : ForeignKeys) (r : Relation X) (rs : List (Relation X)) where
  any-meets-to_row :
      any (λ other. not (other.id == r.id) && clashes_with (to_row r) other) (map to_row rs)
      ≡ any (meets r) rs
  unfolding to_row
  any-meets-to_row =
      any-map to_row (λ other. not (other.id == r.id) && clashes_with (to_row r) other) (meets r)
        (λ x. ground arith) rs

  put-IsTable : IsValid rs → IsProper r → any (meets r) rs ≡ false → IsTable (map to_row (put r rs))
  put-IsTable h proper free = (
    put r rs,
    refl,
    (put-IsProper r rs proper h.0, put-NoClash r rs h.1 (any-false_inv (meets r) rs free)),
  )

  update-IsTable : IsValid rs → IsProper r → IsTable (Relations.update keys r (map to_row rs)).1
  unfolding Relations.update
  update-IsTable h proper = elim (Bool-cases (any (has_row_id r.id) (map to_row rs))) [
    | inr missing ↦ rw missing (rs, refl, h)
    | inl found ↦ rw found (elim (Bool-cases (may_replace keys (to_row r) (map to_row rs))) [
      | inr refused ↦ rw refused (rs, refl, h)
      | inl may ↦
          rw (may, replace_by_id-to_row r rs)
            (put-IsTable h proper (sym any-meets-to_row ∙ ground arith))
    ])
  ]

-- one statement of the follow repository
pub data Statement : Type 0 where
  create update insert_if_absent : Follow → Statement
  delete : ℕ → Statement
  delete_if_exists : TargetId → TargetId → Statement
  approve_if_pending : OffsetDateTime → TargetId → TargetId → Statement

abbrev FollowTable : Type 0
FollowTable = List (RelationRow (Option OffsetDateTime))

-- the table after the statement, successful or not
unfoldable pub execute : ForeignKeys → Statement → FollowTable → FollowTable
execute keys (create follow) rows = (Relations.create keys follow rows).1
execute keys (update follow) rows = (Relations.update keys follow rows).1
execute keys (insert_if_absent follow) rows = (Relations.insert_if_absent keys follow rows).1
execute keys (delete id) rows = (Relations.delete id rows).1
execute keys (delete_if_exists s d) rows = (Relations.delete_if_exists s d rows).1
execute keys (approve_if_pending now s d) rows = (approve_follow_if_pending now s d rows).1

-- a follow that is written was made by `Follow::new`
abbrev pub IsMade : Statement → Type 0
IsMade (create follow) = IsProper follow
IsMade (update follow) = IsProper follow
IsMade (insert_if_absent follow) = IsProper follow
IsMade _ = Unit

execute-valid :
    (keys : ForeignKeys) (statement : Statement) (rs : List Follow)
    → IsMade statement
    → IsValid rs
    → IsTable (execute keys statement (map to_row rs))
unfolding execute Relations.create Relations.insert_if_absent
execute-valid keys (create follow) rs made h = insert-IsTable keys follow rs h made
execute-valid keys (update follow) rs made h = update-IsTable keys follow rs h made
execute-valid keys (insert_if_absent follow) rs made h = insert-IsTable keys follow rs h made
execute-valid keys (delete id) rs made h = delete-IsTable id rs h
execute-valid keys (delete_if_exists s d) rs made h = delete_if_exists-IsTable s d rs h
execute-valid keys (approve_if_pending now s d) rs made h = approve-IsTable now s d rs h

-- If every row of the follow table reads back as a follow, and no two rows share their id or their
-- pair, then this is so after any statement, successful or not, whose follow, if any, was made by
-- `Follow::new`.
pub execute-IsTable :
    (keys : ForeignKeys) (statement : Statement) (rows : FollowTable)
    → IsMade statement
    → IsTable rows
    → IsTable (execute keys statement rows)
execute-IsTable keys statement rows made (rs, e, h) = rw e (execute-valid keys statement rs made h)
