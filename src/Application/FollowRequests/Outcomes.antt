-- ===== src/Application/FollowRequests/Outcomes.antt =====
-- What a request to follow a remote account leaves, whether or not the other server answers.
use Prim.Native.String.{String}
use emumet.Prelude.{
  ℕ, ◌≡◌, refl, none, some, false, List, [], ◌∷◌, ◌++◌, map, any, ◌&&◌, find?-filter, find?-none,
  All-map, any-false_inv, arith,
}
use emumet.Kernel.Error.{KernelError, ok, err, rejected}
use emumet.Kernel.Account.{Account}
use emumet.Kernel.Activity.{decimal}
use emumet.Kernel.Permission.{check_permission, account_sign}
use emumet.Kernel.Relation.{Follow, local, remote, new}
use emumet.Driver.Outbox.{Outbox}
use emumet.Driver.Outbox as Outbox
use emumet.Driver.Relations.{to_row}
use emumet.Driver.Relations.Rows.{
  IsNew, clashes, goes_between, goes_from, find_by_source-to_row, create_of_IsNew,
}
use emumet.Driver.Relations.Tables.{IsValid}
use emumet.Driver.Relations.Deletion.{delete-last}
use emumet.Driver.RemoteAccounts.{RemoteAccount, RemoteTable}
use emumet.Application.Follows.{find_existing_following}
use emumet.Application.Network.{
  Network, Outside, Delivery, ResolvedRemoteActor, foreign_keys, upsert_remote_account,
  find_account, resolve_remote_actor_identifier, outbox_entry, deliver_activity_to_inbox,
}
use emumet.Application.Blocks.Outcomes.{Shows}
use emumet.Application.Inbox.Follows.{following}
use emumet.Application.FollowRequests.{
  follow_activity, resolve_remote, deliver_follow, store_delivered, send_follow,
}

-- the follow that the request makes: it is pending
abbrev pub requested : Outside → Account → RemoteAccount → Follow
requested env account target = record {
  id = env.relation_id;
  source = local account.id;
  destination = remote target.id;
  approved_at = none;
}

-- the request to the inbox
abbrev pub request : Outside → Account → RemoteAccount → String → Delivery
request env account target url = record {
  account_id = account.id;
  inbox_url = url;
  activity = follow_activity env (requested env account target) account target;
}

-- the network after the target was brought up to date and the request was made
abbrev pub asked : Outside → Account → RemoteAccount → String → RemoteTable → Network → Network
asked env account target url remotes w = record w {
  remote_accounts = remotes;
  deliveries = w.deliveries ++ request env account target url ∷ [];
}

not_following :
    (env : Outside) (account : Account) (target : RemoteAccount) (fs : List Follow)
    → IsValid fs
    → any (clashes (requested env account target)) fs ≡ false
    → find_existing_following (local account.id) (remote target.id) (map to_row fs)
      ≡ (ok none, map to_row fs)
unfolding find_existing_following
not_following env account target fs v new_pair =
    rw
      (
        find_by_source-to_row (local account.id) fs v.0,
        find?-filter (goes_from (local account.id))
            (λ (other : Follow). goes_between (local account.id) (remote target.id) other) fs,
        find?-none
            (λ (other : Follow).
              goes_from (local account.id) other
              && goes_between (local account.id) (remote target.id) other)
            fs
            (All-map (λ other. clashes (requested env account target) other ≡ false)
              (λ other.
                (goes_from (local account.id) other
                  && goes_between (local account.id) (remote target.id) other)
                ≡ false)
              (λ other k. ground arith) fs
              (any-false_inv (clashes (requested env account target)) fs new_pair)),
      )
      refl

module _ (env : Outside) (nanoid text url : String) (account : Account)
    (actor : ResolvedRemoteActor) (target : RemoteAccount) (remotes : RemoteTable) (w : Network)
    (fs : List Follow) (shown : Shows env nanoid account w)
    (permitted : check_permission env.check (account_sign account.id) ≡ ok tt)
    (resolved : resolve_remote_actor_identifier env text ≡ ok actor)
    (upserted : upsert_remote_account env actor w.remote_accounts ≡ (ok target, remotes))
    (has_inbox : target.inbox_url ≡ some url) (valid : IsValid fs)
    (new_follow : IsNew
      (foreign_keys (record w { remote_accounts = remotes }))
      (requested env account target)
      fs) where
  -- If the read model shows the account, the relation service lets the subject sign for it, the target
  -- resolves and is stored, it has an inbox, the follow table is valid, and the pair and the generated
  -- id are new to it, but the other server does not take the request, then the answer is `Rejected`,
  -- and no follow is left behind: the follow table is as before.
  pub send_follow_failed :
      (e : KernelError)
      → env.deliver (request env account target url) ≡ err e
      → send_follow env nanoid text (following fs w)
        ≡ (err rejected, following fs (asked env account target url remotes w))
  unfolding send_follow find_account resolve_remote new deliver_follow deliver_activity_to_inbox
      follow_activity store_delivered
  send_follow_failed e refused =
      rw
        (
          shown,
          permitted,
          resolved,
          upserted,
          not_following env account target fs valid new_follow.0,
          create_of_IsNew (foreign_keys (record w { remote_accounts = remotes }))
              (requested env account target) fs new_follow,
          has_inbox,
          refused,
          delete-last (requested env account target) fs new_follow.0,
        )
        refl

  -- If the other server takes the request, and its record can be written and stored, the follow is
  -- appended as pending, and the request is stored as delivered.
  pub send_follow_delivered :
      (object_json : String) (outbox_id : ℕ) (outbox : Outbox)
      → env.deliver (request env account target url) ≡ ok tt
      → env.serde.to_string (request env account target url).activity ≡ ok object_json
      → Outbox.create
          (outbox_entry account.id
            (request env account target url).activity
            object_json
            env.stored_at
            (some env.stored_at))
          w.outbox
        ≡ (ok outbox_id, outbox)
      → send_follow env nanoid text (following fs w) ≡ (
        ok (record {
          follow_id = decimal env.relation_id;
          remote_actor_url = target.url;
          activity_id = (request env account target url).activity.id;
          approved = false;
        }),
        record (asked env account target url remotes w) {
          follows = map to_row (fs ++ requested env account target ∷ []);
          outbox = outbox;
        },
      )
  unfolding send_follow find_account resolve_remote new deliver_follow deliver_activity_to_inbox
      follow_activity store_delivered
  send_follow_delivered object_json outbox_id outbox taken written stored =
      rw
        (
          shown,
          permitted,
          resolved,
          upserted,
          not_following env account target fs valid new_follow.0,
          create_of_IsNew (foreign_keys (record w { remote_accounts = remotes }))
              (requested env account target) fs new_follow,
          has_inbox,
          taken,
          written,
          stored,
        )
        refl
