-- ===== src/Application/FieldUpdates.antt =====
-- application/src/service/account_detail/fields.rs: an account's fields, from the list that is
-- stored to the list that was submitted.
pub mod Plan
use Prim.Native.String.{String}
use text.Mathlib.Text.{◌==◌ as str_eq}
use emumet.Prelude.{Bool, none, not, ◌||◌, List, [], ◌∷◌, map, if◌then◌else◌, any}
use emumet.Kernel.Exec.{Exec, pure, lift, ◌>>=◌, ◌>>◌}
use emumet.Kernel.Event.{EventEnvelope}
use emumet.Kernel.Rehydrated.{Rehydrated}
use emumet.Kernel.Account.{AccountId}
use emumet.Kernel.Metadata.{
  Metadata, MetadataId, MetadataEvent, MetadataCommand, create, update, delete, apply,
}
use emumet.Driver.Repository.{metadata_repository}
use emumet.Driver.Accounts.{with_id}
use emumet.Driver.MetadataRows as MetadataRows
use emumet.Application.Details.{AccountFieldDto}
use emumet.Application.DetailWorld.{
  DetailWorld, DetailEnvironment, on_metadata_events, on_metadata, generate_id, generate_nanoid,
  constructed,
}

pub data FieldUpdate : Type 0 where
  -- metadata_id, label, content
  update_field : MetadataId → String → String → FieldUpdate
  delete_field : MetadataId → FieldUpdate
  -- label, content
  create_field : String → String → FieldUpdate

abbrev pub field_dto : Metadata → AccountFieldDto
field_dto field = record { label = field.label; content = field.content }

abbrev pub has_changed : Metadata → AccountFieldDto → Bool
has_changed current next =
    not (str_eq current.label next.label) || not (str_eq current.content next.content)

abbrev pub deletions : List Metadata → List FieldUpdate
deletions = map λ (field : Metadata). delete_field field.id

abbrev pub creations : List AccountFieldDto → List FieldUpdate
creations = map λ (field : AccountFieldDto). create_field field.label field.content

-- the loop over the pairs, and what is left of the longer list
unfoldable pub plan_field_updates : List Metadata → List AccountFieldDto → List FieldUpdate
plan_field_updates [] submitted = creations submitted
plan_field_updates (current ∷ existing) [] = deletions (current ∷ existing)
plan_field_updates (current ∷ existing) (next ∷ submitted) =
    let rest = plan_field_updates existing submitted in
    if has_changed current next
    then update_field current.id next.label next.content ∷ rest
    else rest

module _ (env : DetailEnvironment) where
  unfoldable pub rehydrate_metadata : MetadataId → Exec DetailWorld (Rehydrated Metadata)
  unfolding metadata_repository
  rehydrate_metadata id =
      on_metadata_events (metadata_repository.load env.environment.replayed_at id)

  unfoldable pub save_metadata : MetadataCommand → Exec DetailWorld (EventEnvelope MetadataEvent)
  unfolding metadata_repository
  save_metadata command = do
    version ← generate_id env
    on_metadata_events (metadata_repository.save version command)

  unfoldable pub create_metadata : Metadata → Exec DetailWorld (Unit {0})
  create_metadata metadata w =
      on_metadata (MetadataRows.create (λ id. any (with_id id) w.world.tables.accounts) metadata) w

  unfoldable pub apply_field_update : AccountId → FieldUpdate → Exec DetailWorld (Unit {0})
  unfolding apply
  apply_field_update account_id (update_field id label content) = do
    current ← rehydrate_metadata id
    save_metadata (update id label content current.version)
    updated ← rehydrate_metadata id
    on_metadata (MetadataRows.update updated.aggregate)
  apply_field_update account_id (delete_field id) = do
    current ← rehydrate_metadata id
    save_metadata (delete id current.version)
    on_metadata (MetadataRows.delete id)
  apply_field_update account_id (create_field label content) = do
    id ← generate_id env
    nanoid ← generate_nanoid env
    event ← save_metadata (create id account_id label content nanoid)
    metadata ← lift (constructed (apply event none))
    create_metadata metadata

  unfoldable pub apply_operations : AccountId → List FieldUpdate → Exec DetailWorld (Unit {0})
  unfolding apply_field_update
  apply_operations account_id [] = pure tt
  apply_operations account_id (operation ∷ operations) =
      apply_field_update account_id operation >> apply_operations account_id operations

  unfoldable pub apply_field_updates :
      AccountId → List Metadata → List AccountFieldDto → Exec DetailWorld (Unit {0})
  unfolding apply_operations plan_field_updates
  apply_field_updates account_id existing submitted =
      apply_operations account_id (plan_field_updates existing submitted)
