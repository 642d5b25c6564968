-- ===== src/Driver/Relations/Repositories.antt =====
-- The three repositories of relations: `PostgresFollowRepository`, `PostgresBlockRepository` and
-- `PostgresMuteRepository` run the same statements on their own table.
use emumet.Prelude.{ℕ, Bool, List}
use emumet.Kernel.Exec.{Exec}
use emumet.Kernel.Relation.{TargetId, Relation}
use emumet.Driver.Relations as Relations
use emumet.Driver.Relations.{RelationRow, ForeignKeys}

-- what the traits `BlockRepository` and `MuteRepository` ask for
pub record RelationRepository (X : Type 0) : Type 0 where
  pub find_by_source : TargetId → Exec (List (RelationRow X)) (List (Relation X))
  pub create : ForeignKeys → Relation X → Exec (List (RelationRow X)) (Unit {0})
  pub delete : ℕ → Exec (List (RelationRow X)) (Unit {0})
  pub insert_if_absent : ForeignKeys → Relation X → Exec (List (RelationRow X)) Bool
  pub delete_if_exists : TargetId → TargetId → Exec (List (RelationRow X)) Bool

abbrev repository : {X : Type 0} → RelationRepository X
repository = record {
  find_by_source = Relations.find_by_source;
  create = Relations.create;
  delete = Relations.delete;
  insert_if_absent = Relations.insert_if_absent;
  delete_if_exists = Relations.delete_if_exists;
}

abbrev pub block_repository : RelationRepository (Unit {0})
block_repository = repository

abbrev pub mute_repository : RelationRepository (Unit {0})
mute_repository = repository
