-- ===== src/Application/UpdatePerson.antt =====
-- application/src/service/activitypub/update_person.rs: the followers on other servers are told of a
-- changed profile.
pub mod Recipients
use Prim.Native.String.{String}
use emumet.Prelude.{ℕ, Option, none, some, Bool, List, [], ◌∷◌, is_some, is_none, if◌then◌else◌}
use emumet.Kernel.Error.{Result, map_ok}
use emumet.Kernel.Exec.{Exec, pure, lift, ◌>>=◌, ◌>>◌}
use emumet.Kernel.Account.{AccountId}
use emumet.Kernel.Activity.{Activity, Value, activity_url, activitystreams_context}
use emumet.Kernel.Actor.{Actor}
use emumet.Kernel.Relation.{TargetId, local, remote, Follow}
use emumet.Driver.Relations.{find_followers}
use emumet.Driver.RemoteAccounts.{RemoteAccount}
use emumet.Driver.RemoteAccounts as RemoteAccounts
use emumet.Application.Network.{
  Network, Outside, Delivery, on_follows, on_remote_accounts, deliver_activity_to_inbox,
  ignore_error,
}

abbrev pub public_audience : String
public_audience = "https://www.w3.org/ns/activitystreams#Public"

-- `serde_json::to_value` of an actor is a parameter
unfoldable pub update_person_activity :
    (Actor → Result Value) → String → ℕ → Actor → Result Activity
unfolding activity_url
update_person_activity to_value base id actor =
    map_ok
      (λ value. record {
        context = activitystreams_context;
        id = activity_url base id;
        type_ = "Update";
        actor = actor.id;
        object = some value;
        target = none;
        to = some (public_audience ∷ []);
        cc = none;
      })
      (to_value actor)

abbrev pub inbox_of : Option RemoteAccount → Option String
inbox_of none = none
inbox_of (some remote_account) = remote_account.inbox_url

module _ (env : Outside) where
  unfoldable pub deliver_to : AccountId → Activity → Option String → Exec Network (Unit {0})
  unfolding deliver_activity_to_inbox
  deliver_to account_id activity none = pure tt
  deliver_to account_id activity (some inbox_url) = ignore_error (
      deliver_activity_to_inbox env
        (record { account_id = account_id; inbox_url = inbox_url; activity = activity }))

  unfoldable pub tell_source : AccountId → Activity → TargetId → Exec Network (Unit {0})
  unfolding deliver_to
  tell_source account_id activity (local id) = pure tt
  tell_source account_id activity (remote id) = do
    found ← on_remote_accounts (RemoteAccounts.find_by_id id)
    deliver_to account_id activity (inbox_of found)

  -- one turn of the loop over the followers
  unfoldable pub tell_follower : AccountId → Activity → Follow → Exec Network (Unit {0})
  unfolding tell_source
  tell_follower account_id activity follow =
      if is_none follow.approved_at then pure tt else tell_source account_id activity follow.source

  unfoldable pub tell_followers : AccountId → Activity → List Follow → Exec Network (Unit {0})
  unfolding tell_follower
  tell_followers account_id activity [] = pure tt
  tell_followers account_id activity (follow ∷ follows) =
      tell_follower account_id activity follow >> tell_followers account_id activity follows

  -- given what `get_actor` returns
  unfoldable pub deliver_update_person :
      (Actor → Result Value)
      → (String → Result Actor)
      → AccountId
      → String
      → Exec Network (Unit {0})
  unfolding update_person_activity tell_followers
  deliver_update_person to_value get_actor account_id account_nanoid = do
    actor ← lift (get_actor account_nanoid)
    activity ← lift (update_person_activity to_value env.public_base_url env.activity_id actor)
    followers ← on_follows (λ _. find_followers (local account_id))
    tell_followers account_id activity followers
