-- ===== src/Application/Inbox.antt =====
-- application/src/service/activitypub/inbox/{mod,handlers}.rs: what an activity that reaches a local
-- account's inbox does. Its signature was verified before.
pub mod Blocks
pub mod Follows
pub mod Answers
use Prim.Native.String.{String}
use text.Mathlib.Text.{◌==◌ as str_eq}
use emumet.Prelude.{ℕ, Option, none, some, Bool, true, false, ◌&&◌, is_some, if◌then◌else◌}
use emumet.Kernel.Error as Error
use emumet.Kernel.Error.{Result, rejected, not_found, ok_or, map_ok}
use emumet.Kernel.Exec.{Exec, pure, lift, ◌>>=◌, ◌>>◌}
use emumet.Kernel.Account.{AccountId}
use emumet.Kernel.Activity.{
  Activity, addressed, activity_url, local_actor_url, trim_end_slashes, activity_object_id,
  nested_activity, ensure_local_actor_matches,
}
use emumet.Kernel.Relation.{local, remote, Follow, Block, new}
use emumet.Driver.Relations.{insert_if_absent, delete_if_exists, approve_follow_if_pending}
use emumet.Driver.RemoteAccounts.{RemoteAccount, find_by_url}
use emumet.Application.Follows.{remove_follows_between}
use emumet.Application.Network.{
  Network, Outside, on_remote_accounts, on_follows, on_blocks, transaction, upsert_remote_account,
}
use emumet.Application.Blocks.{store, deliver_stored}

pub record InboxActivityDto : Type 0 where
  pub account_id : AccountId
  pub account_nanoid : String
  pub activity : Activity

module _ (env : Outside) where
  -- the account that sent the activity, brought up to date
  unfoldable pub sender : Activity → Exec Network RemoteAccount
  sender activity = do
    actor ← lift (env.resolve_remote_actor activity.actor)
    on_remote_accounts (upsert_remote_account env actor)

  -- the id of the object is the address of the local account
  unfoldable pub check_object : InboxActivityDto → Activity → Result (Unit {0})
  check_object dto activity =
      Error.◌>>=◌ (ok_or rejected (activity_object_id activity))
        (ensure_local_actor_matches env.public_base_url dto.account_nanoid)

  unfoldable pub accept_activity : Follow → InboxActivityDto → Result Activity
  unfolding activity_url local_actor_url
  accept_activity follow dto =
      map_ok
        (λ value.
          addressed (activity_url env.public_base_url follow.id) "Accept"
            (local_actor_url env.public_base_url dto.account_nanoid) value dto.activity.actor)
        (env.serde.to_value dto.activity)

  -- the Accept of a new follow and the inbox that it goes to, stored in the outbox
  answer_follow :
      Follow
      → InboxActivityDto
      → Option String
      → Bool
      → Exec Network (Option ℕ × Option (Activity × Option String))
  answer_follow follow dto inbox_url false = pure (none, none)
  answer_follow follow dto inbox_url true = do
    accept ← lift (accept_activity follow dto)
    outbox_id ← store env dto.account_id (some (accept, inbox_url))
    pure (outbox_id, some (accept, inbox_url))

  -- the body of the transaction
  unfoldable pub record_follow :
      Follow
      → InboxActivityDto
      → Option String
      → Exec Network (Option ℕ × Option (Activity × Option String))
  unfolding answer_follow
  record_follow follow dto inbox_url =
      on_follows (λ keys. insert_if_absent keys follow) >>= answer_follow follow dto inbox_url

  unfoldable pub handle_follow_activity : InboxActivityDto → Exec Network (Unit {0})
  handle_follow_activity dto = do
    lift (check_object dto dto.activity)
    remote_account ← sender dto.activity
    follow ← lift (
        new env.relation_id (remote remote_account.id) (local dto.account_id)
          (some env.approved_at))
    (outbox_id, accept) ← transaction (record_follow follow dto remote_account.inbox_url)
    deliver_stored env dto.account_id outbox_id accept

  undo_follow : InboxActivityDto → Option RemoteAccount → Exec Network (Unit {0})
  undo_follow dto none = pure tt
  undo_follow dto (some remote_account) = do
    on_follows (λ keys. delete_if_exists (remote remote_account.id) (local dto.account_id))
    pure tt

  unfoldable pub handle_undo_follow : InboxActivityDto → Exec Network (Unit {0})
  unfolding undo_follow
  handle_undo_follow dto = do
    follow_activity ← lift (ok_or rejected (nested_activity env.serde "Follow" dto.activity))
    lift (check_object dto follow_activity)
    remote_account ← on_remote_accounts (find_by_url dto.activity.actor)
    undo_follow dto remote_account

  unfoldable pub approve_from : InboxActivityDto → String → Exec Network (Unit {0})
  approve_from dto remote_actor_url = do
    found ← on_remote_accounts (find_by_url remote_actor_url)
    remote_account ← lift (ok_or not_found found)
    on_follows (λ keys.
        approve_follow_if_pending env.marked_at (local dto.account_id) (remote remote_account.id))
    pure tt

  -- the account that is followed is the one that accepts, or nothing happens
  unfoldable pub approve_followed : InboxActivityDto → Activity → Exec Network (Unit {0})
  approve_followed dto nested_follow = do
    remote_actor_url ← lift (ok_or rejected (activity_object_id nested_follow))
    (if str_eq (trim_end_slashes dto.activity.actor) (trim_end_slashes remote_actor_url)
        then approve_from dto remote_actor_url
        else pure tt)

  unfoldable pub is_local_actor : InboxActivityDto → String → Bool
  is_local_actor dto actor =
      str_eq (trim_end_slashes actor)
        (trim_end_slashes (local_actor_url env.public_base_url dto.account_nanoid))

  unfoldable pub handle_accept_activity : InboxActivityDto → Exec Network (Unit {0})
  handle_accept_activity dto = do
    nested_follow ← lift (ok_or rejected (nested_activity env.serde "Follow" dto.activity))
    (if is_local_actor dto nested_follow.actor then approve_followed dto nested_follow else pure tt)

  -- a repeated block leaves the follows as they are
  unfoldable pub record_block : Block → Exec Network (Unit {0})
  record_block block = do
    inserted ← on_blocks (λ keys. insert_if_absent keys block)
    (if inserted
        then on_follows (λ keys. remove_follows_between block.source block.destination)
        else pure tt)

  unfoldable pub handle_block_activity : InboxActivityDto → Exec Network (Unit {0})
  handle_block_activity dto = do
    lift (check_object dto dto.activity)
    remote_account ← sender dto.activity
    block ← lift (new env.relation_id (remote remote_account.id) (local dto.account_id) tt)
    transaction (record_block block)

  undo_block : InboxActivityDto → Option RemoteAccount → Exec Network (Unit {0})
  undo_block dto none = pure tt
  undo_block dto (some remote_account) = transaction (
      on_blocks (λ keys. delete_if_exists (remote remote_account.id) (local dto.account_id))
      >> pure tt)

  unfoldable pub handle_undo_block_activity : InboxActivityDto → Exec Network (Unit {0})
  unfolding undo_block
  handle_undo_block_activity dto = do
    block_activity ← lift (ok_or rejected (nested_activity env.serde "Block" dto.activity))
    lift (check_object dto block_activity)
    remote_account ← on_remote_accounts (find_by_url dto.activity.actor)
    undo_block dto remote_account

  -- whether the object of the activity is an activity of the type
  abbrev undoes : String → InboxActivityDto → Bool
  undoes type_ dto = is_some (nested_activity env.serde type_ dto.activity)

  -- the match on the type of the activity; any other is ignored
  unfoldable pub handle_inbox_activity : InboxActivityDto → Exec Network (Unit {0})
  handle_inbox_activity dto =
      if str_eq dto.activity.type_ "Follow"
      then handle_follow_activity dto
      else if str_eq dto.activity.type_ "Accept"
      then handle_accept_activity dto
      else if str_eq dto.activity.type_ "Block"
      then handle_block_activity dto
      else if str_eq dto.activity.type_ "Undo" && undoes "Follow" dto
      then handle_undo_follow dto
      else if str_eq dto.activity.type_ "Undo" && undoes "Block" dto
      then handle_undo_block_activity dto
      else pure tt
