-- ===== src/Application/DetailReading.antt =====
-- application/src/service/account_detail/read.rs: accounts with their profiles, images and fields.
use Prim.Native.String.{String}
use mathlib.Core.List.{reverse}
use emumet.Prelude.{Option, none, some, Bool, not, List, [], ◌∷◌, ◌++◌, map, ◌==◌, filter, find?}
use emumet.Prelude.Sort.{sort_by_key}
use emumet.Kernel.Error.{Result, ok, not_found, ok_or, map_ok, cons_ok}
use emumet.Kernel.Exec.{Exec, pure, lift, ◌>>=◌}
use emumet.Kernel.Account.{Account, AccountId, AuthAccountId}
use emumet.Kernel.Profile.{Profile, ImageId}
use emumet.Kernel.Metadata.{Metadata}
use emumet.Driver.Images.{Image, find_by_ids}
use emumet.Driver.Profiles as Profiles
use emumet.Driver.MetadataRows as MetadataRows
use emumet.Application.World.{on_tables}
use emumet.Application.AccountDto.{AccountDetailDto, from_account, into_detail}
use emumet.Application.DetailWorld.{
  DetailWorld, DetailEnvironment, on_world, on_profiles, on_metadata, on_images,
}
use emumet.Application.DetailUpdate.{url_of, ids_of}
use emumet.Application.FieldUpdates.{field_dto}
use emumet.Application.Pages.{Pagination, account_page, permitted_accounts}

abbrev image_ids_of : List Profile → List ImageId
image_ids_of [] = []
image_ids_of (profile ∷ profiles) =
    ids_of profile.icon ++ ids_of profile.banner ++ image_ids_of profiles

-- the entry of the map from accounts to profiles: of two with one key the later is kept
abbrev pub profile_of : List Profile → AccountId → Option Profile
profile_of profiles id = find? (λ (profile : Profile). profile.account_id == id) (reverse profiles)

abbrev pub owned_by : AccountId → Metadata → Bool
owned_by id field = field.account_id == id

-- `sort_by_key` by the pair of account and id
abbrev pub sort_fields : List Metadata → List Metadata
sort_fields metadata =
    sort_by_key (λ (field : Metadata). field.account_id)
      (sort_by_key (λ (field : Metadata). field.id) metadata)

unfoldable pub detail_of :
    List Profile → List Image → List Metadata → Account → Result AccountDetailDto
unfolding from_account into_detail
detail_of profiles images metadata account =
    map_ok
      (λ (profile : Profile).
        into_detail profile.display_name profile.summary (url_of images profile.icon)
          (url_of images profile.banner) (map field_dto (filter (owned_by account.id) metadata))
          (from_account account))
      (ok_or not_found (profile_of profiles account.id))

-- an account's fields are taken out of the map
unfoldable pub details_of :
    List Profile → List Image → List Metadata → List Account → Result (List AccountDetailDto)
unfolding detail_of
details_of profiles images metadata [] = ok []
details_of profiles images metadata (account ∷ accounts) =
    let rest =
      details_of profiles images (filter (λ field. not (owned_by account.id field)) metadata)
        accounts in
    cons_ok (detail_of profiles images metadata account) rest

unfoldable pub compose_account_details : List Account → Exec DetailWorld (List AccountDetailDto)
unfolding details_of sort_by_key
compose_account_details [] = pure []
compose_account_details (account ∷ accounts) =
    let ids = map (λ (a : Account). a.id) (account ∷ accounts) in
    do
      profiles ← on_profiles (Profiles.find_by_account_ids ids)
      metadata ← on_metadata (MetadataRows.find_by_account_ids ids)
      images ← on_images (find_by_ids (image_ids_of profiles))
      lift (details_of profiles images (sort_fields metadata) (account ∷ accounts))

module _ (env : DetailEnvironment) where
  unfoldable pub get_all_account_details :
      AuthAccountId → Pagination String → Exec DetailWorld (List AccountDetailDto)
  unfolding account_page compose_account_details
  get_all_account_details auth_account_id page = do
    accounts ← on_world (on_tables (account_page env.environment.queried_at auth_account_id page))
    compose_account_details accounts

  unfoldable pub get_account_details_by_ids : List String → Exec DetailWorld (List AccountDetailDto)
  unfolding permitted_accounts compose_account_details
  get_account_details_by_ids ids = do
    permitted ←
        on_world
          (on_tables (permitted_accounts env.environment.queried_at env.environment.check ids))
    compose_account_details permitted

  abbrev first : List AccountDetailDto → Option AccountDetailDto
  first [] = none
  first (detail ∷ details) = some detail

  unfoldable pub get_account_detail : String → Exec DetailWorld AccountDetailDto
  unfolding get_account_details_by_ids
  get_account_detail account_nanoid = do
    details ← get_account_details_by_ids (account_nanoid ∷ [])
    lift (ok_or not_found (first details))
