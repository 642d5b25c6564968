-- ===== src/Application/DetailUpdate.antt =====
-- application/src/service/account_detail/update.rs: the request that changes an account's details.
pub mod Atomicity
use Prim.Native.String.{String}
use emumet.Prelude.{
  ℕ, Option, none, some, Bool, true, false, not, ◌&&◌, ◌||◌, List, [], ◌∷◌, ◌++◌, map, ◌==◌,
  if◌then◌else◌, find?, any,
}
use emumet.Prelude.Sort.{sort_by_key}
use emumet.Kernel.Error.{ok, rejected, not_found, ok_or, ensure}
use emumet.Kernel.Exec.{Exec, pure, lift, ◌>>=◌, ◌>>◌}
use emumet.Kernel.Event.{EventEnvelope}
use emumet.Kernel.Rehydrated.{Rehydrated}
use emumet.Kernel.FieldAction.{FieldAction, unchanged, clear, set, is_unchanged, act}
use emumet.Kernel.Text.{validate_image_url}
use emumet.Kernel.Account.{
  Account, AccountId, AuthAccountId, AccountEvent, AccountCommand, is_active, account_applier,
}
use emumet.Kernel.Account as Account
use emumet.Kernel.Profile.{Profile, ProfileEvent, ProfileCommand, ImageId}
use emumet.Kernel.Profile as Profile
use emumet.Kernel.Metadata.{Metadata}
use emumet.Kernel.Permission.{check_permission, account_edit}
use emumet.Driver.Accounts.{find_by_id, with_id}
use emumet.Driver.Accounts.Statements as Accounts
use emumet.Driver.Repository.{account_repository, profile_repository}
use emumet.Driver.Images.{Image, find_by_url, find_by_ids}
use emumet.Driver.Profiles as Profiles
use emumet.Driver.MetadataRows as MetadataRows
use emumet.Application.World.{on_tables, on_events}
use emumet.Application.Aggregate.{load, find_unfiltered}
use emumet.Application.Details.{AccountFieldDto, UpdateAccountDto, validate_update_account_dto}
use emumet.Application.AccountDto.{AccountDetailDto, from_account, into_detail}
use emumet.Application.DetailWorld.{
  DetailWorld, DetailEnvironment, on_world, on_profile_events, on_profiles, on_metadata, on_images,
  detail_transaction, generate_id, constructed,
}
use emumet.Application.FieldUpdates.{apply_field_updates, field_dto}

unfoldable pub apply_is_bot : Bool → FieldAction Bool → Bool
apply_is_bot current unchanged = current
apply_is_bot current clear = false
apply_is_bot current (set value) = value

unfoldable pub effective_image_id : FieldAction ImageId → Option ImageId → Option ImageId
effective_image_id unchanged current = current
effective_image_id clear current = none
effective_image_id (set id) current = some id

abbrev pub same_image : Option ImageId → Option ImageId → Bool
same_image none none = true
same_image (some a) (some b) = a == b
same_image _ _ = false

abbrev same_flag : Bool → Bool → Bool
same_flag true b = b
same_flag false b = not b

unfoldable pub media_changed : Profile → FieldAction ImageId → FieldAction ImageId → Bool
unfolding effective_image_id
media_changed profile icon banner =
    not (same_image (effective_image_id icon profile.icon) profile.icon)
    || not (same_image (effective_image_id banner profile.banner) profile.banner)

abbrev id_of : Image → ImageId
id_of image = image.id

-- an image that a url names
unfoldable pub resolve_image_id : String → Exec DetailWorld ImageId
unfolding validate_image_url
resolve_image_id url = do
  lift (validate_image_url url)
  image ← on_images (find_by_url url)
  found ← lift (ok_or not_found image)
  pure (id_of found)

unfoldable pub resolve_field_action_image_id :
    FieldAction String → Exec DetailWorld (FieldAction ImageId)
unfolding resolve_image_id
resolve_field_action_image_id unchanged = pure unchanged
resolve_field_action_image_id clear = pure clear
resolve_field_action_image_id (set url) = do id ← resolve_image_id url; pure (set id)

-- the image in the answer, whose url is looked up again
answered_image : FieldAction String → Option ImageId → Exec DetailWorld (Option ImageId)
unfolding resolve_image_id
answered_image unchanged current = pure current
answered_image clear current = pure none
answered_image (set url) current = do id ← resolve_image_id url; pure (some id)

-- `images.get(id).cloned()`
abbrev pub url_of : List Image → Option ImageId → Option String
url_of images none = none
url_of images (some id) = elim (find? (λ (image : Image). image.id == id) images) [
  | none ↦ none
  | some image ↦ some image.url
]

abbrev pub ids_of : Option ImageId → List ImageId
ids_of none = []
ids_of (some id) = id ∷ []

-- `find_by_ids` is not asked for no images
answered_urls : List ImageId → Exec DetailWorld (List Image)
answered_urls [] = pure []
answered_urls (id ∷ ids) = on_images (find_by_ids (id ∷ ids))

abbrev answered_fields : Option (List AccountFieldDto) → List Metadata → List AccountFieldDto
answered_fields (some fields) existing = fields
answered_fields none existing = map field_dto existing

abbrev metadata_id : Metadata → ℕ
metadata_id field = field.id

module _ (env : DetailEnvironment) where
  unfoldable pub save_account : AccountCommand → Exec DetailWorld (EventEnvelope AccountEvent)
  save_account command = do
    version ← generate_id env
    on_world (on_events ((account_repository env.environment.externals).save version command))

  set_is_bot : AccountId → Rehydrated Account → Bool → Exec DetailWorld (Unit {0})
  unfolding save_account
  set_is_bot id loaded is_bot = if same_flag is_bot loaded.aggregate.is_bot then pure tt else do
    event ← save_account (Account.update id is_bot loaded.version)
    account ← lift (
        constructed (
          (account_applier env.environment.externals).apply env.environment.commanded_at event
            (some loaded.aggregate)))
    on_world (on_tables (Accounts.update account))

  unfoldable pub update_is_bot : AccountId → FieldAction Bool → Exec DetailWorld (Unit {0})
  unfolding set_is_bot apply_is_bot
  update_is_bot id action = do
    loaded ← on_world (load env.environment id)
    set_is_bot id loaded (apply_is_bot loaded.aggregate.is_bot action)

  unfoldable pub save_profile : ProfileCommand → Exec DetailWorld (EventEnvelope ProfileEvent)
  unfolding profile_repository
  save_profile command = do
    version ← generate_id env
    on_profile_events (profile_repository.save version command)

  -- the rows that a profile refers to
  abbrev pub references : DetailWorld → Profiles.References
  references w = record {
    has_account = λ id. any (with_id id) w.world.tables.accounts;
    has_image = λ id. any (λ (image : Image). image.id == id) w.images;
  }

  update_profile_row : Profile → Exec DetailWorld (Unit {0})
  update_profile_row profile w = on_profiles (Profiles.update (references w) profile) w

  unfoldable pub write_profile :
      Profile
      → FieldAction String
      → FieldAction String
      → FieldAction ImageId
      → FieldAction ImageId
      → Exec DetailWorld (Unit {0})
  unfolding save_profile profile_repository update_profile_row is_unchanged
  write_profile profile display_name summary icon banner =
      if is_unchanged display_name
        && is_unchanged summary
        && is_unchanged icon
        && is_unchanged banner
      then pure tt
      else do
        save_profile (Profile.update profile.id display_name summary icon banner)
        rehydrated ←
            on_profile_events (profile_repository.load env.environment.replayed_at profile.id)
        update_profile_row rehydrated.aggregate

  write_fields :
      AccountId → List Metadata → Option (List AccountFieldDto) → Exec DetailWorld (Unit {0})
  unfolding apply_field_updates
  write_fields id existing none = pure tt
  write_fields id existing (some fields) = apply_field_updates env id existing fields

  -- the answer, from the request where it sets a field and from the old rows where it does not
  unfoldable pub compose_detail :
      UpdateAccountDto → AccountId → Profile → List Metadata → Exec DetailWorld AccountDetailDto
  unfolding answered_image answered_urls act from_account into_detail
  compose_detail dto id profile existing = do
    visible ← on_world (on_tables (find_by_id env.environment.queried_at id))
    account ← lift (ok_or not_found visible)
    icon_id ← answered_image dto.icon_url profile.icon
    banner_id ← answered_image dto.banner_url profile.banner
    images ← answered_urls (ids_of icon_id ++ ids_of banner_id)
    pure (
        into_detail (act dto.display_name profile.display_name) (act dto.summary profile.summary)
          (url_of images icon_id) (url_of images banner_id) (answered_fields dto.fields existing)
          (from_account account))

  -- the body of the transaction
  unfoldable pub change_details :
      UpdateAccountDto → AccountId → Exec DetailWorld (AccountDetailDto × Bool)
  unfolding update_is_bot resolve_field_action_image_id write_profile write_fields compose_detail
      media_changed sort_by_key
  change_details dto id = do
    update_is_bot id dto.is_bot
    found ← on_profiles (Profiles.find_by_account_id id)
    profile ← lift (ok_or not_found found)
    icon ← resolve_field_action_image_id dto.icon_url
    banner ← resolve_field_action_image_id dto.banner_url
    write_profile profile dto.display_name dto.summary icon banner
    rows ← on_metadata (MetadataRows.find_by_account_id id)
    write_fields id (sort_by_key metadata_id rows) dto.fields
    detail ← compose_detail dto id profile (sort_by_key metadata_id rows)
    pure (detail, media_changed profile icon banner)

  -- `deliver_update_person` of the account and its nanoid, whose error is logged
  unfoldable pub announce :
      (AccountId → String → Exec DetailWorld (Unit {0}))
      → Bool
      → AccountId
      → String
      → Exec DetailWorld (Unit {0})
  announce deliver false id nanoid w = (ok tt, w)
  announce deliver true id nanoid w = (ok tt, (deliver id nanoid w).1)

  unfoldable pub update_account_detail :
      (AccountId → String → Exec DetailWorld (Unit {0}))
      → UpdateAccountDto
      → Exec DetailWorld AccountDetailDto
  unfolding validate_update_account_dto find_unfiltered change_details detail_transaction announce
  update_account_detail deliver dto = do
    lift (validate_update_account_dto dto)
    projection ← on_world (find_unfiltered env.environment dto.account_nanoid)
    lift (check_permission env.environment.check (account_edit projection.id))
    lift (ensure (is_active projection.status) rejected)
    updated ← detail_transaction (change_details dto projection.id)
    announce deliver updated.1 projection.id dto.account_nanoid
    pure updated.0
