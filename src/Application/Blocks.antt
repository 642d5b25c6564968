-- ===== src/Application/Blocks.antt =====
-- application/src/service/block.rs with activitypub/outbound_block.rs: block and unblock an account,
-- and list the blocked.
pub mod Outcomes
use Prim.Native.String.{String}
use emumet.Prelude.{ℕ, Option, none, some, not, any, find?}
use emumet.Kernel.Error.{Result, ok, rejected, not_found, ok_or, ensure, map_ok}
use emumet.Kernel.Exec.{Exec, pure, lift, ◌>>=◌, ◌>>◌}
use emumet.Kernel.Account.{Account, AccountId}
use emumet.Kernel.Activity.{Activity, string, addressed, activity_url, local_actor_url, decimal}
use emumet.Kernel.Permission.{check_permission, account_sign}
use emumet.Kernel.Relation.{TargetId, local, remote, Block, same_target, new}
use emumet.Driver.Accounts.{find_by_nanoid}
use emumet.Driver.Relations.{find_by_source, create, delete}
use emumet.Driver.RemoteAccounts.{RemoteAccount}
use emumet.Driver.Outbox as Outbox
use emumet.Application.Follows.{remove_follows_between}
use emumet.Application.Network.{
  Network, Outside, on_accounts, on_remote_accounts, on_follows, on_blocks, on_outbox, transaction,
  resolve_remote_actor_identifier, upsert_remote_account, find_account, deliver_outbox_activity,
  ignore_error, outbox_entry,
}

pub record RelationDto : Type 0 where
  pub id : String
  pub target_type : String
  pub target : String

-- `BlockTarget`
pub data BlockTarget : Type 0 where
  local_target : Account → BlockTarget
  remote_target : RemoteAccount → BlockTarget

unfoldable pub target_id : BlockTarget → TargetId
target_id (local_target account) = local account.id
target_id (remote_target account) = remote account.id

unfoldable pub target_name : BlockTarget → String
target_name (local_target account) = account.nanoid
target_name (remote_target account) = account.url

abbrev pub target_type : TargetId → String
target_type (local _) = "local"
target_type (remote _) = "remote"

module _ (env : Outside) where
  resolve_found : String → Option Account → Exec Network BlockTarget
  resolve_found target (some account) = pure (local_target account)
  resolve_found target none = do
    actor ← lift (resolve_remote_actor_identifier env target)
    remote_account ← on_remote_accounts (upsert_remote_account env actor)
    pure (remote_target remote_account)

  unfoldable pub resolve_block_target : String → Exec Network BlockTarget
  unfolding resolve_found
  resolve_block_target target =
      on_accounts (find_by_nanoid env.queried_at target) >>= resolve_found target

  unfoldable pub block_activity : Block → Account → RemoteAccount → Activity
  unfolding activity_url local_actor_url
  block_activity block account target =
      addressed (activity_url env.public_base_url block.id) "Block"
        (local_actor_url env.public_base_url account.nanoid) (string target.url) target.url

  unfoldable pub undo_block_activity : Activity → RemoteAccount → Result Activity
  unfolding activity_url
  undo_block_activity original target =
      map_ok
        (λ value.
          addressed (activity_url env.public_base_url env.activity_id) "Undo" original.actor value
            target.url)
        (env.serde.to_value original)

  -- the activity that tells a remote target, and its inbox
  announcement : Block → Account → BlockTarget → Option (Activity × Option String)
  announcement block account (local_target _) = none
  announcement block account (remote_target target) =
      some (block_activity block account target, target.inbox_url)

  -- the entry in the outbox, inside of the transaction
  unfoldable pub store : AccountId → Option (Activity × Option String) → Exec Network (Option ℕ)
  store account_id none = pure none
  store account_id (some (activity, inbox_url)) = do
    object_json ← lift (env.serde.to_string activity)
    outbox_id ←
        on_outbox (Outbox.create (outbox_entry account_id activity object_json env.stored_at none))
    pure (some outbox_id)

  -- the delivery after the commit; its failure is only logged
  unfoldable pub deliver_stored :
      AccountId → Option ℕ → Option (Activity × Option String) → Exec Network (Unit {0})
  deliver_stored account_id (some outbox_id) (some (activity, some inbox_url)) = ignore_error (
      deliver_outbox_activity env outbox_id
        (record { account_id = account_id; inbox_url = inbox_url; activity = activity }))
  deliver_stored account_id _ _ = pure tt

  -- the body of the transaction
  unfoldable pub record_block :
      Account → Block → Option (Activity × Option String) → Exec Network (Option ℕ)
  record_block account block announced = do
    existing ← on_blocks (λ keys. find_by_source block.source)
    lift (
        ensure (not (any (λ other. same_target other.destination block.destination) existing))
          rejected)
    on_blocks (λ keys. create keys block)
    on_follows (λ keys. remove_follows_between block.source block.destination)
    store account.id announced

  unfoldable pub block_account : String → String → Exec Network RelationDto
  unfolding announcement
  block_account nanoid target_text = do
    account ← find_account env nanoid
    lift (check_permission env.check (account_sign account.id))
    target ← resolve_block_target target_text
    lift (ensure (not (same_target (local account.id) (target_id target))) rejected)
    block ← lift (new env.relation_id (local account.id) (target_id target) tt)
    let announced : Option (Activity × Option String) = announcement block account target
    outbox_id ← transaction (record_block account block announced)
    deliver_stored account.id outbox_id announced
    pure (record {
      id = decimal block.id;
      target_type = target_type block.destination;
      target = target_name target;
    })

  -- the activity that takes a block back
  retraction : Block → Account → BlockTarget → Result (Option (Activity × Option String))
  retraction block account (local_target _) = ok none
  retraction block account (remote_target target) =
      map_ok (λ undo. some (undo, target.inbox_url))
        (undo_block_activity (block_activity block account target) target)

  unfoldable pub remove_block :
      Account → BlockTarget → Exec Network (Option ℕ × Option (Activity × Option String))
  unfolding retraction
  remove_block account target = do
    blocks ← on_blocks (λ keys. find_by_source (local account.id))
    block ←
        lift (
          ok_or not_found
            (find? (λ block. same_target block.destination (target_id target)) blocks))
    announced ← lift (retraction block account target)
    on_blocks (λ keys. delete block.id)
    outbox_id ← store account.id announced
    pure (outbox_id, announced)

  unfoldable pub unblock_account : String → String → Exec Network (Unit {0})
  unblock_account nanoid target_text = do
    account ← find_account env nanoid
    lift (check_permission env.check (account_sign account.id))
    target ← resolve_block_target target_text
    (outbox_id, announced) ← transaction (remove_block account target)
    deliver_stored account.id outbox_id announced
