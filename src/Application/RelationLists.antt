-- ===== src/Application/RelationLists.antt =====
-- The lists of relations: `get_blocks` of application/src/service/block.rs, `get_mutes` of mute.rs and
-- `list_approved_relations` of activitypub/relations.rs.
use Prim.Native.String.{String}
use emumet.Prelude.{Bool, List, [], ◌∷◌, filter, is_some, if◌then◌else◌}
use emumet.Kernel.Error.{internal, ok_or}
use emumet.Kernel.Exec.{Exec, pure, lift, ◌>>=◌, ◌>>◌}
use emumet.Kernel.Activity.{decimal}
use emumet.Kernel.Permission.{check_permission, account_sign}
use emumet.Kernel.Relation.{TargetId, local, remote, Relation, Follow}
use emumet.Driver.Accounts.{find_by_id}
use emumet.Driver.Relations.{find_by_source, find_followers}
use emumet.Driver.RemoteAccounts as RemoteAccounts
use emumet.Application.Network.{
  Network, Outside, on_accounts, on_remote_accounts, on_follows, on_blocks, on_mutes, find_account,
}
use emumet.Application.Blocks.{RelationDto}

module _ (env : Outside) where
  -- an account that the read model does not show is an internal error
  unfoldable pub target_dto : String → TargetId → Exec Network RelationDto
  target_dto id (local account_id) = do
    found ← on_accounts (find_by_id env.queried_at account_id)
    account ← lift (ok_or internal found)
    pure (record { id = id; target_type = "local"; target = account.nanoid })
  target_dto id (remote remote_account_id) = do
    found ← on_remote_accounts (RemoteAccounts.find_by_id remote_account_id)
    account ← lift (ok_or internal found)
    pure (record { id = id; target_type = "remote"; target = account.url })

  module _ {X : Type 0} where
    -- the loop over the relations, each read at one of its ends
    unfoldable pub relation_dtos :
        (Relation X → TargetId) → List (Relation X) → Exec Network (List RelationDto)
    unfolding target_dto
    relation_dtos end [] = pure []
    relation_dtos end (relation ∷ relations) = do
      dto ← target_dto (decimal relation.id) (end relation)
      dtos ← relation_dtos end relations
      pure (dto ∷ dtos)

  unfoldable pub get_blocks : String → Exec Network (List RelationDto)
  unfolding relation_dtos
  get_blocks nanoid = do
    account ← find_account env nanoid
    lift (check_permission env.check (account_sign account.id))
    blocks ← on_blocks (λ keys. find_by_source (local account.id))
    relation_dtos (λ block. block.destination) blocks

  unfoldable pub get_mutes : String → Exec Network (List RelationDto)
  unfolding relation_dtos
  get_mutes nanoid = do
    account ← find_account env nanoid
    lift (check_permission env.check (account_sign account.id))
    mutes ← on_mutes (λ keys. find_by_source (local account.id))
    relation_dtos (λ mute. mute.destination) mutes

  -- the accounts that it follows, or its followers
  unfoldable pub list_approved_relations : TargetId → Bool → Exec Network (List RelationDto)
  unfolding relation_dtos
  list_approved_relations account following = do
    relations ←
        on_follows (λ keys. if following then find_by_source account else find_followers account)
    relation_dtos (λ follow. if following then follow.destination else follow.source)
        (filter (λ (follow : Follow). is_some follow.approved_at) relations)

  unfoldable pub get_follow_relations : String → Bool → Exec Network (List RelationDto)
  unfolding list_approved_relations
  get_follow_relations nanoid following = do
    account ← find_account env nanoid
    lift (check_permission env.check (account_sign account.id))
    list_approved_relations (local account.id) following
