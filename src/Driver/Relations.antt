-- ===== src/Driver/Relations.antt =====
-- driver/src/database/postgres/{follow,block,mute}.rs: the tables of relations. The three files
-- differ in names and in the column `approved_at`, and are one generic repository here. A table is the
-- list of its rows; a statement means what its SQL says under the checks, unique indexes and foreign
-- keys of migrations/. A query without an order returns the rows in the order of the table.
pub mod Rows
pub mod Approvals
pub mod Tables
pub mod Statements
pub mod Deletion
pub mod Repositories
use emumet.Prelude.{
  ℕ, Option, none, some, Bool, true, false, not, ◌&&◌, ◌||◌, List, [], ◌∷◌, ◌++◌, ◌==◌,
  if◌then◌else◌, filter, any, is_some, is_none,
}
use emumet.Kernel.Error.{Result, ok, err, internal, rejected, not_found, ◌>>=◌}
use emumet.Kernel.Exec.{Exec}
use emumet.Kernel.Event.{OffsetDateTime}
use emumet.Kernel.Relation.{TargetId, local, remote, Relation, Follow, new}

-- the columns `follower_local_id`, `blocker_local_id` or `muter_local_id`, and so on
pub record RelationRow (X : Type 0) : Type 0 where
  pub id : ℕ
  pub source_local_id : Option ℕ
  pub source_remote_id : Option ℕ
  pub destination_local_id : Option ℕ
  pub destination_remote_id : Option ℕ
  pub approved_at : X

-- `split_follow_target_id`
abbrev pub local_id : TargetId → Option ℕ
local_id (local id) = some id
local_id (remote id) = none

abbrev pub remote_id : TargetId → Option ℕ
remote_id (local id) = none
remote_id (remote id) = some id

-- exactly one of the two columns is set
abbrev pub target_from_columns : Option ℕ → Option ℕ → Result TargetId
target_from_columns (some id) none = ok (local id)
target_from_columns none (some id) = ok (remote id)
target_from_columns _ _ = err internal

-- what the tables refer to: the ids of `accounts` and of `remote_accounts`
pub record ForeignKeys : Type 0 where
  pub has_account : ℕ → Bool
  pub has_remote_account : ℕ → Bool

-- what PostgreSQL answers to an INSERT: error 23505 is a violation of a unique index
pub data Inserted : Type 0 where
  done unique_violation other_error : Inserted

-- `a = b` in SQL, which NULL fails
abbrev pub equal_values : Option ℕ → Option ℕ → Bool
equal_values (some a) (some b) = a == b
equal_values _ _ = false

-- `IS NOT DISTINCT FROM`
abbrev pub same_value : Option ℕ → Option ℕ → Bool
same_value none none = true
same_value (some a) (some b) = a == b
same_value _ _ = false

-- a foreign key, which NULL passes
abbrev pub refers : (ℕ → Bool) → Option ℕ → Bool
refers has none = true
refers has (some id) = has id

-- `(a IS NOT NULL) != (b IS NOT NULL)`
abbrev pub exclusive : Option ℕ → Option ℕ → Bool
exclusive none none = false
exclusive (some _) (some _) = false
exclusive _ _ = true

abbrev pub created : Inserted → Result (Unit {0})
created done = ok tt
created unique_violation = err rejected
created other_error = err internal

abbrev pub inserted : Inserted → Result Bool
inserted done = ok true
inserted unique_violation = ok false
inserted other_error = err internal

module _ {X : Type 0} where
  -- `TryFrom<FollowRow> for Follow`
  unfoldable pub from_row : RelationRow X → Result (Relation X)
  from_row value = do
    source ← target_from_columns value.source_local_id value.source_remote_id
    destination ← target_from_columns value.destination_local_id value.destination_remote_id
    new value.id source destination value.approved_at

  -- the values that the statements bind
  unfoldable pub to_row : Relation X → RelationRow X
  to_row relation = record {
    id = relation.id;
    source_local_id = local_id relation.source;
    source_remote_id = remote_id relation.source;
    destination_local_id = local_id relation.destination;
    destination_remote_id = remote_id relation.destination;
    approved_at = relation.approved_at;
  }

  -- `rows.into_iter().map(try_from).collect::<Result<_, _>>()`
  unfoldable pub collect : List (RelationRow X) → Result (List (Relation X))
  unfolding from_row
  collect [] = ok []
  collect (row ∷ rows) =
      let rest = collect rows in
      do relation ← from_row row; relations ← rest; ok (relation ∷ relations)

  -- WHERE follower_local_id = $1, or WHERE follower_remote_id = $1
  abbrev pub has_source : TargetId → RelationRow X → Bool
  has_source (local id) row = equal_values row.source_local_id (some id)
  has_source (remote id) row = equal_values row.source_remote_id (some id)

  abbrev pub has_destination : TargetId → RelationRow X → Bool
  has_destination (local id) row = equal_values row.destination_local_id (some id)
  has_destination (remote id) row = equal_values row.destination_remote_id (some id)

  -- the four columns are those of the pair
  abbrev pub is_between : TargetId → TargetId → RelationRow X → Bool
  is_between source destination row =
      same_value row.source_local_id (local_id source)
      && same_value row.source_remote_id (remote_id source)
      && same_value row.destination_local_id (local_id destination)
      && same_value row.destination_remote_id (remote_id destination)

  -- `find_blocks`, `find_mutes` and `find_followings`
  unfoldable pub find_by_source : TargetId → Exec (List (RelationRow X)) (List (Relation X))
  unfolding collect
  find_by_source source rows = (collect (filter (has_source source) rows), rows)

  abbrev pub has_row_id : ℕ → RelationRow X → Bool
  has_row_id id row = row.id == id

  -- the primary key, and the four unique indexes, each over rows where both of its columns are set
  abbrev pub clashes_with : RelationRow X → RelationRow X → Bool
  clashes_with row other =
      other.id == row.id
      || equal_values other.source_local_id row.source_local_id
        && equal_values other.destination_remote_id row.destination_remote_id
      || equal_values other.source_remote_id row.source_remote_id
        && equal_values other.destination_local_id row.destination_local_id
      || equal_values other.source_local_id row.source_local_id
        && equal_values other.destination_local_id row.destination_local_id
      || equal_values other.source_remote_id row.source_remote_id
        && equal_values other.destination_remote_id row.destination_remote_id

  abbrev pub satisfies_checks : RelationRow X → Bool
  satisfies_checks row =
      exclusive row.source_local_id row.source_remote_id
      && exclusive row.destination_local_id row.destination_remote_id

  abbrev pub satisfies_keys : ForeignKeys → RelationRow X → Bool
  satisfies_keys keys row =
      refers keys.has_account row.source_local_id
      && refers keys.has_remote_account row.source_remote_id
      && refers keys.has_account row.destination_local_id
      && refers keys.has_remote_account row.destination_remote_id

  -- INSERT INTO .. VALUES ..: the checks, the unique indexes, then the foreign keys
  unfoldable pub insert_row :
      ForeignKeys → RelationRow X → List (RelationRow X) → Inserted × List (RelationRow X)
  insert_row keys row rows =
      if satisfies_checks row
      then (if any (clashes_with row) rows
          then (unique_violation, rows)
          else if satisfies_keys keys row
          then (done, rows ++ row ∷ [])
          else (other_error, rows))
      else (other_error, rows)

  unfoldable pub create : ForeignKeys → Relation X → Exec (List (RelationRow X)) (Unit {0})
  unfolding insert_row to_row
  create keys relation rows =
      let (answer, rows') = insert_row keys (to_row relation) rows in (created answer, rows')

  unfoldable pub insert_if_absent : ForeignKeys → Relation X → Exec (List (RelationRow X)) Bool
  unfolding insert_row to_row
  insert_if_absent keys relation rows =
      let (answer, rows') = insert_row keys (to_row relation) rows in (inserted answer, rows')

  abbrev pub replace_by_id : RelationRow X → List (RelationRow X) → List (RelationRow X)
  replace_by_id row [] = []
  replace_by_id row (r ∷ rows) = (if r.id == row.id then row else r) ∷ replace_by_id row rows

  -- the checks, indexes and keys that a row written over its old version meets
  abbrev pub may_replace : ForeignKeys → RelationRow X → List (RelationRow X) → Bool
  may_replace keys row rows =
      satisfies_checks row
      && not (any (λ other. not (other.id == row.id) && clashes_with row other) rows)
      && satisfies_keys keys row

  -- UPDATE .. SET .. WHERE id = $1
  unfoldable pub update : ForeignKeys → Relation X → Exec (List (RelationRow X)) (Unit {0})
  unfolding to_row
  update keys relation rows =
      if any (has_row_id relation.id) rows
      then (if may_replace keys (to_row relation) rows
          then (ok tt, replace_by_id (to_row relation) rows)
          else (err internal, rows))
      else (err not_found, rows)

  -- DELETE .. WHERE id = $1
  unfoldable pub delete : ℕ → Exec (List (RelationRow X)) (Unit {0})
  delete id rows =
      if any (has_row_id id) rows
      then (ok tt, filter (λ row. not (has_row_id id row)) rows)
      else (err not_found, rows)

  -- whether a row was affected
  unfoldable pub delete_if_exists : TargetId → TargetId → Exec (List (RelationRow X)) Bool
  delete_if_exists source destination rows = (
    ok (any (is_between source destination) rows),
    filter (λ row. not (is_between source destination row)) rows,
  )

-- WHERE followee_local_id = $1 AND approved_at IS NOT NULL
unfoldable pub find_followers :
    TargetId → Exec (List (RelationRow (Option OffsetDateTime))) (List Follow)
unfolding collect
find_followers destination rows = (
  collect (filter (λ row. has_destination destination row && is_some row.approved_at) rows),
  rows,
)

abbrev is_pending_between : TargetId → TargetId → RelationRow (Option OffsetDateTime) → Bool
is_pending_between source destination row =
    is_between source destination row && is_none row.approved_at

unfoldable pub approve_where :
    OffsetDateTime
    → (RelationRow (Option OffsetDateTime) → Bool)
    → List (RelationRow (Option OffsetDateTime))
    → List (RelationRow (Option OffsetDateTime))
approve_where now p [] = []
approve_where now p (row ∷ rows) =
    (if p row then record row { approved_at = some now } else row) ∷ approve_where now p rows

-- UPDATE .. SET approved_at = NOW() .. AND approved_at IS NULL: whether a row was affected
unfoldable pub approve_follow_if_pending :
    OffsetDateTime → TargetId → TargetId → Exec (List (RelationRow (Option OffsetDateTime))) Bool
unfolding approve_where
approve_follow_if_pending now source destination rows = (
  ok (any (is_pending_between source destination) rows),
  approve_where now (is_pending_between source destination) rows,
)
