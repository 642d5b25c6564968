-- ===== src/Tests/Inbox.antt =====
-- What a remote account sends to a local one.
use Prim.Native.String.{String}
use emumet.Prelude.{◌≡◌, refl, none, [], ◌∷◌, ◌++◌, filter}
use emumet.Kernel.Error.{ok}
use emumet.Kernel.Activity.{
  Activity, addressed, string, activity_object_id, ensure_local_actor_matches,
}
use emumet.Kernel.Relation.{local, remote}
use emumet.Driver.Accounts as Accounts
use emumet.Driver.Accounts.{find_by_nanoid, account_from_row}
use emumet.Driver.Outbox.{Outbox}
use emumet.Driver.Outbox as Outbox
use emumet.Application.Follows.Removal.{is_apart}
use emumet.Application.Network.{outbox_entry}
use emumet.Application.Network.Deliveries.{SameRelations}
use emumet.Application.Blocks.Outcomes.{holding}
use emumet.Application.Inbox.{
  InboxActivityDto, check_object, accept_activity, handle_follow_activity, handle_accept_activity,
  handle_block_activity,
}
use emumet.Application.Inbox.Blocks as Blocks
use emumet.Application.Inbox.Blocks.{handle_block_activity_lem}
use emumet.Application.Inbox.Follows as Follows
use emumet.Application.Inbox.Follows.{following, handle_follow_activity_lem}
use emumet.Application.Inbox.Answers.{ApprovesSender, handle_accept_activity_lem}
use emumet.Tests.Network.{
  carol_url, carol_actor, carol, alice_url, env, outbox, network, follows, blocks, follows-IsValid,
  carol_upserted,
}

-- what carol sends to alice
abbrev received : String → InboxActivityDto
received type_ = record {
  account_id = 7;
  account_nanoid = "a1";
  activity = addressed "https://b.example/1" type_ carol_url (string alice_url) alice_url;
}

names_alice : (type_ : String) → check_object env (received type_) (received type_).activity ≡ ok tt
unfolding check_object activity_object_id ensure_local_actor_matches
names_alice type_ = refl

handle_block_activity_lem_example :
    handle_block_activity env (received "Block") (holding blocks follows network) ≡ (
      ok tt,
      holding
          (blocks ++ Blocks.inbound env (received "Block") carol ∷ [])
          (filter (is_apart (remote 4) (local 7)) follows)
          network,
    )
unfolding Accounts.to_row
handle_block_activity_lem_example =
    handle_block_activity_lem env (received "Block") carol_actor carol (carol ∷ []) network blocks
      follows (names_alice "Block") refl carol_upserted follows-IsValid (refl, refl, refl)

-- the Accept of carol's follow
abbrev accept : Activity
accept =
    addressed "https://a.example/activities/40" "Accept" alice_url (string "https://b.example/1")
      carol_url

accepted :
    accept_activity env (Follows.inbound env (received "Follow") carol) (received "Follow")
    ≡ ok accept
unfolding accept_activity
accepted = refl

stored :
    Outbox.create (outbox_entry 7 accept "https://a.example/activities/40" 1002 none) outbox ≡ (
      ok 1,
      record {
        rows =
            record (outbox_entry 7 accept "https://a.example/activities/40" 1002 none) { id = 1 }
            ∷ [];
        next_id = 2;
      },
    )
unfolding Outbox.create
stored = refl

handle_follow_activity_lem_example :
    ((handle_follow_activity env (received "Follow") (following follows network)).0 ≡ ok tt)
    × SameRelations
        (following (follows ++ Follows.inbound env (received "Follow") carol ∷ []) network)
        (handle_follow_activity env (received "Follow") (following follows network)).1
unfolding Accounts.to_row
handle_follow_activity_lem_example =
    handle_follow_activity_lem env (received "Follow") carol_actor carol (carol ∷ []) network
      follows (names_alice "Follow") refl carol_upserted accept "https://a.example/activities/40" 1
      (record {
        rows =
            record (outbox_entry 7 accept "https://a.example/activities/40" 1002 none) { id = 1 }
            ∷ [];
        next_id = 2;
      })
      (refl, refl, refl) accepted refl stored

handle_accept_activity_lem_example :
    ApprovesSender env
      (received "Accept")
      network
      (handle_accept_activity env (received "Accept") network).1
handle_accept_activity_lem_example = handle_accept_activity_lem env (received "Accept") network
