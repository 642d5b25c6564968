-- ===== src/Application/Inbox/Follows.antt =====
-- What a Follow of a remote account leaves, and what its Undo does.
use Prim.Native.String.{String}
use emumet.Prelude.{ℕ, ◌≡◌, refl, Option, none, some, true, List, [], ◌∷◌, ◌++◌, map, any}
use emumet.Kernel.Error.{Result, ok}
use emumet.Kernel.Activity.{Activity}
use emumet.Kernel.Account.{AccountId}
use emumet.Kernel.Relation.{Follow, local, remote, new}
use emumet.Driver.Outbox.{Outbox, OutboxActivity}
use emumet.Driver.Outbox as Outbox
use emumet.Driver.Relations.{to_row}
use emumet.Driver.Relations.Rows.{
  IsNew, clashes, insert_if_absent_of_IsNew, insert_if_absent_of_clash,
}
use emumet.Driver.RemoteAccounts.{RemoteAccount, RemoteTable}
use emumet.Application.Network.{
  Network, Outside, ResolvedRemoteActor, foreign_keys, upsert_remote_account, outbox_entry,
  transaction_of_ok,
}
use emumet.Application.Network.Deliveries.{
  SameRelations, unchanged, deliver_outbox_activity-SameRelations,
}
use emumet.Application.Blocks.{store, deliver_stored}
use emumet.Application.Inbox.{
  InboxActivityDto, sender, check_object, accept_activity, record_follow, handle_follow_activity,
}

-- the network with these follows
abbrev pub following : List Follow → Network → Network
following fs w = record w { follows = map to_row fs }

deliver_stored-SameRelations :
    (env : Outside) (account_id : AccountId) (outbox_id : ℕ) (activity : Activity)
    (inbox_url : Option String) (w : Network)
    → ((deliver_stored env account_id (some outbox_id) (some (activity, inbox_url)) w).0 ≡ ok tt)
      × SameRelations w
          (deliver_stored env account_id (some outbox_id) (some (activity, inbox_url)) w).1
unfolding deliver_stored
deliver_stored-SameRelations env account_id outbox_id activity none w = (refl, unchanged w)
deliver_stored-SameRelations env account_id outbox_id activity (some inbox_url) w = (
  refl,
  deliver_outbox_activity-SameRelations env outbox_id
      (record { account_id = account_id; inbox_url = inbox_url; activity = activity }) w,
)

-- the follow that the activity makes: it is approved at once
abbrev pub inbound : Outside → InboxActivityDto → RemoteAccount → Follow
inbound env dto account = record {
  id = env.relation_id;
  source = remote account.id;
  destination = local dto.account_id;
  approved_at = some env.approved_at;
}

module _ (env : Outside) (dto : InboxActivityDto) (actor : ResolvedRemoteActor)
    (account : RemoteAccount) (remotes : RemoteTable) (w : Network) (fs : List Follow)
    (matches : check_object env dto dto.activity ≡ ok tt)
    (resolved : env.resolve_remote_actor dto.activity.actor ≡ ok actor)
    (upserted : upsert_remote_account env actor w.remote_accounts ≡ (ok account, remotes)) where
  -- the network after the sender was brought up to date
  abbrev updated : Network
  updated = record w { remote_accounts = remotes }

  -- the network when the transaction is done
  abbrev answered : Outbox → Network
  answered outbox = record updated {
    follows = map to_row (fs ++ inbound env dto account ∷ []);
    outbox = outbox;
  }

  record_new_follow :
      (accept : Activity) (text : String) (outbox_id : ℕ) (outbox : Outbox)
      → IsNew (foreign_keys updated) (inbound env dto account) fs
      → accept_activity env (inbound env dto account) dto ≡ ok accept
      → env.serde.to_string accept ≡ ok text
      → Outbox.create (outbox_entry dto.account_id accept text env.stored_at none) w.outbox
        ≡ (ok outbox_id, outbox)
      → record_follow env (inbound env dto account) dto account.inbox_url (following fs updated)
        ≡ (ok (some outbox_id, some (accept, account.inbox_url)), answered outbox)
  unfolding record_follow store
  record_new_follow accept text outbox_id outbox n accepted written created =
      rw
        (
          insert_if_absent_of_IsNew (foreign_keys updated) (inbound env dto account) fs n,
          accepted,
          written,
          created,
        )
        refl

  record_old_follow :
      any (clashes (inbound env dto account)) fs ≡ true
      → record_follow env (inbound env dto account) dto account.inbox_url (following fs updated)
        ≡ (ok (none, none), following fs updated)
  unfolding record_follow
  record_old_follow c =
      rw (insert_if_absent_of_clash (foreign_keys updated) (inbound env dto account) fs c) refl

  answer_new_follow :
      (accept : Activity) (text : String) (outbox_id : ℕ) (outbox : Outbox)
      → IsNew (foreign_keys updated) (inbound env dto account) fs
      → accept_activity env (inbound env dto account) dto ≡ ok accept
      → env.serde.to_string accept ≡ ok text
      → Outbox.create (outbox_entry dto.account_id accept text env.stored_at none) w.outbox
        ≡ (ok outbox_id, outbox)
      → handle_follow_activity env dto (following fs w)
        ≡ deliver_stored env dto.account_id
            (some outbox_id)
            (some (accept, account.inbox_url))
            (answered outbox)
  unfolding handle_follow_activity sender new
  answer_new_follow accept text outbox_id outbox n accepted written created =
      rw
        (
          matches,
          resolved,
          upserted,
          transaction_of_ok (record_follow env (inbound env dto account) dto account.inbox_url)
              (following fs updated) (answered outbox)
              (some outbox_id, some (accept, account.inbox_url))
              (record_new_follow accept text outbox_id outbox n accepted written created),
        )
        refl

  settled :
      (outbox : Outbox) {w' : Network} {r : Result (Unit {0})}
      → (r ≡ ok tt) × SameRelations (answered outbox) w'
      → (r ≡ ok tt) × SameRelations (following (fs ++ inbound env dto account ∷ []) updated) w'
  settled outbox h = (h.0, assumption h.1)

  -- A Follow of a remote account that names the local account, where the sender resolves and is
  -- stored, the pair and the generated id are new to the follow table, and the Accept can be written
  -- and stored, succeeds whatever the other server answers and whatever the block table holds: the
  -- follow is appended as approved, and the blocks stay as they are.
  pub handle_follow_activity_lem :
      (accept : Activity) (text : String) (outbox_id : ℕ) (outbox : Outbox)
      → IsNew (foreign_keys updated) (inbound env dto account) fs
      → accept_activity env (inbound env dto account) dto ≡ ok accept
      → env.serde.to_string accept ≡ ok text
      → Outbox.create (outbox_entry dto.account_id accept text env.stored_at none) w.outbox
        ≡ (ok outbox_id, outbox)
      → ((handle_follow_activity env dto (following fs w)).0 ≡ ok tt)
        × SameRelations
            (following (fs ++ inbound env dto account ∷ []) updated)
            (handle_follow_activity env dto (following fs w)).1
  handle_follow_activity_lem accept text outbox_id outbox n accepted written created =
      rw (answer_new_follow accept text outbox_id outbox n accepted written created) (
        settled outbox (
          deliver_stored-SameRelations env dto.account_id outbox_id accept account.inbox_url
            (answered outbox)))

  -- A repeated Follow changes nothing but the stored sender: no second follow is made, and no second
  -- Accept is stored or sent.
  pub handle_follow_activity_repeated :
      any (clashes (inbound env dto account)) fs ≡ true
      → handle_follow_activity env dto (following fs w) ≡ (ok tt, following fs updated)
  unfolding handle_follow_activity sender new deliver_stored
  handle_follow_activity_repeated c =
      rw
        (
          matches,
          resolved,
          upserted,
          transaction_of_ok (record_follow env (inbound env dto account) dto account.inbox_url)
              (following fs updated) (following fs updated) (none, none) (record_old_follow c),
        )
        refl
