-- ===== src/Application/FollowRequests.antt =====
-- application/src/service/activitypub/outbound_follow.rs and outbound_unfollow.rs with its target.rs:
-- a local account follows a remote one, and takes a follow back.
pub mod Outcomes
use Prim.Native.String.{String}
use emumet.Prelude.{Option, none, some, not, is_some, Bool, false}
use emumet.Kernel.Error.{Result, ok, err, rejected, ok_or, ensure, map_ok}
use emumet.Kernel.Exec.{Exec, pure, raise, lift, ◌>>=◌, ◌>>◌}
use emumet.Kernel.Account.{Account, AccountId}
use emumet.Kernel.Activity.{Activity, string, addressed, activity_url, local_actor_url, decimal}
use emumet.Kernel.Permission.{check_permission, account_sign}
use emumet.Kernel.Relation.{local, remote, Follow, new}
use emumet.Driver.Accounts.{find_by_nanoid, find_by_name}
use emumet.Driver.Relations.{create, delete}
use emumet.Driver.RemoteAccounts.{RemoteAccount}
use emumet.Driver.Outbox as Outbox
use emumet.Application.Follows.{
  find_existing_following, find_approved_follow, delete_approved_follow,
}
use emumet.Application.Network.{
  Network, Outside, on_accounts, on_remote_accounts, on_follows, on_outbox,
  resolve_remote_actor_identifier, upsert_remote_account, find_account, deliver_activity_to_inbox,
  attempt, outbox_entry,
}

pub record SendFollowResultDto : Type 0 where
  pub follow_id : String
  pub remote_actor_url : String
  pub activity_id : String
  pub approved : Bool

-- what the source asks of the crate url: the nanoid in the address of a local actor, and the name in
-- an account handle of this server
pub record LocalNames : Type 0 where
  pub local_actor_nanoid : String → Option String
  pub local_acct_name : String → Option String

pub data UnfollowTarget : Type 0 where
  local_target : Account → UnfollowTarget
  remote_target : RemoteAccount → UnfollowTarget

module _ (env : Outside) where
  unfoldable pub follow_activity : Follow → Account → RemoteAccount → Activity
  unfolding activity_url local_actor_url
  follow_activity follow account target =
      addressed (activity_url env.public_base_url follow.id) "Follow"
        (local_actor_url env.public_base_url account.nanoid) (string target.url) target.url

  -- the remote account for what the client wrote
  unfoldable pub resolve_remote : String → Exec Network RemoteAccount
  resolve_remote target = do
    actor ← lift (resolve_remote_actor_identifier env target)
    on_remote_accounts (upsert_remote_account env actor)

  unfoldable pub deliver_follow : AccountId → Option String → Activity → Exec Network (Unit {0})
  deliver_follow account_id inbox_url activity = do
    url ← lift (ok_or rejected inbox_url)
    deliver_activity_to_inbox env
        (record { account_id = account_id; inbox_url = url; activity = activity })

  -- an activity that was delivered is stored as delivered
  unfoldable pub store_delivered : AccountId → Activity → Exec Network (Unit {0})
  store_delivered account_id activity = do
    object_json ← lift (env.serde.to_string activity)
    on_outbox (
        Outbox.create
          (outbox_entry account_id activity object_json env.stored_at (some env.stored_at)))
    pure tt

  -- a follow whose delivery failed is deleted again
  settle : Follow → Result (Unit {0}) → Exec Network (Unit {0})
  settle follow (ok _) = pure tt
  settle follow (err e) = on_follows (λ keys. delete follow.id) >> raise rejected

  unfoldable pub send_follow : String → String → Exec Network SendFollowResultDto
  unfolding settle
  send_follow nanoid target = do
    account ← find_account env nanoid
    lift (check_permission env.check (account_sign account.id))
    remote_account ← resolve_remote target
    existing ←
        on_follows (λ keys. find_existing_following (local account.id) (remote remote_account.id))
    lift (ensure (not (is_some existing)) rejected)
    follow ← lift (new env.relation_id (local account.id) (remote remote_account.id) none)
    on_follows (λ keys. create keys follow)
    let activity : Activity = follow_activity follow account remote_account
    answer ← attempt (deliver_follow account.id remote_account.inbox_url activity)
    settle follow answer
    store_delivered account.id activity
    pure (record {
      follow_id = decimal follow.id;
      remote_actor_url = remote_account.url;
      activity_id = activity.id;
      approved = false;
    })

  unfoldable pub undo_follow_activity : Follow → Account → RemoteAccount → Result Activity
  unfolding follow_activity activity_url local_actor_url
  undo_follow_activity follow account target =
      map_ok
        (λ value.
          addressed (activity_url env.public_base_url env.activity_id) "Undo"
            (local_actor_url env.public_base_url account.nanoid) value target.url)
        (env.serde.to_value (follow_activity follow account target))

  module _ (names : LocalNames) where
    -- the local account for a text, if there is one
    by_nanoid : Option String → Exec Network (Option Account)
    by_nanoid none = pure none
    by_nanoid (some nanoid) = on_accounts (find_by_nanoid env.queried_at nanoid)

    by_name : Option String → Exec Network (Option Account)
    by_name none = pure none
    by_name (some name) = on_accounts (find_by_name env.queried_at name)

    -- the first that finds an account decides
    or_else : Option Account → Exec Network UnfollowTarget → Exec Network UnfollowTarget
    or_else (some account) next = pure (local_target account)
    or_else none next = next

    unfoldable pub resolve_unfollow_target : String → Exec Network UnfollowTarget
    unfolding by_nanoid by_name or_else
    resolve_unfollow_target target = by_nanoid (some target) >>= λ first. or_else first (
        by_nanoid (names.local_actor_nanoid target) >>= λ second. or_else second (
          by_name (names.local_acct_name target) >>= λ third.
          or_else third
            (resolve_remote target >>= λ remote_account. pure (remote_target remote_account))))

    -- a local follow is deleted, a remote one is taken back first
    unfollow : Account → UnfollowTarget → Exec Network (Unit {0})
    unfollow account (local_target destination) =
        on_follows (λ keys. delete_approved_follow (local account.id) (local destination.id))
    unfollow account (remote_target target) = do
      follow ← on_follows (λ keys. find_approved_follow (local account.id) (remote target.id))
      activity ← lift (undo_follow_activity follow account target)
      deliver_follow account.id target.inbox_url activity
      on_follows (λ keys. delete follow.id)
      store_delivered account.id activity

    unfoldable pub send_undo_follow : String → String → Exec Network (Unit {0})
    unfolding unfollow
    send_undo_follow nanoid target_text = do
      account ← find_account env nanoid
      lift (check_permission env.check (account_sign account.id))
      target ← resolve_unfollow_target target_text
      unfollow account target
