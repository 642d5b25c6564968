-- ===== src/Tests/Relations.antt =====
-- Blocks, mutes and follows between the accounts.
use emumet.Prelude.{◌≡◌, refl, [], ◌∷◌, ◌++◌, map, filter}
use emumet.Kernel.Error.{ok, err, rejected, internal}
use emumet.Kernel.Relation.{local}
use emumet.Driver.Accounts as Accounts
use emumet.Driver.Accounts.{find_by_nanoid, account_from_row}
use emumet.Driver.Relations.{to_row}
use emumet.Driver.Relations.Statements.{execute, delete_if_exists, execute-IsTable}
use emumet.Driver.Relations.Tables.{IsTable}
use emumet.Application.Follows.{remove_follows_between}
use emumet.Application.Follows.Removal.{is_apart, remove_follows_between_lem}
use emumet.Application.Network.{
  foreign_keys, upsert_remote_account, resolve_remote_actor_identifier,
}
use emumet.Application.Blocks.{local_target, target_id, block_account}
use emumet.Application.Blocks.Outcomes.{holding, made, answer, block_account_lem}
use emumet.Application.FollowRequests.{send_follow}
use emumet.Application.FollowRequests.Outcomes.{asked, send_follow_failed}
use emumet.Application.Inbox.Follows.{following}
use emumet.Tests.Network.{
  author, bob, carol_actor, carol, outside, env, network, follows, blocks, follows-IsValid,
  blocks-IsValid, alice-Shows, bob-Shows, may_sign, carol_upserted,
}

remove_follows_between_lem_example :
    remove_follows_between (local 7) (local 8) (map to_row follows)
    ≡ (ok tt, map to_row (filter (is_apart (local 7) (local 8)) follows))
remove_follows_between_lem_example =
    remove_follows_between_lem (local 7) (local 8) follows follows-IsValid

block_account_lem_example : block_account env "a1" "b1" (holding blocks follows network) ≡ (
  ok (answer (made env author (local_target bob)) "b1"),
  holding
      (blocks ++ made env author (local_target bob) ∷ [])
      (filter (is_apart (local 7) (local 8)) follows)
      network,
)
unfolding Accounts.to_row target_id
block_account_lem_example =
    block_account_lem env "a1" "b1" author network bob blocks follows alice-Shows bob-Shows may_sign
      refl blocks-IsValid follows-IsValid (refl, refl, refl)

execute-IsTable_example :
    IsTable
      (execute (foreign_keys network) (delete_if_exists (local 8) (local 7)) (map to_row follows))
execute-IsTable_example =
    execute-IsTable (foreign_keys network) (delete_if_exists (local 8) (local 7))
      (map to_row follows) tt (follows, refl, follows-IsValid)

resolved : resolve_remote_actor_identifier env "acct:c@b.example" ≡ ok carol_actor
unfolding resolve_remote_actor_identifier
resolved = refl

send_follow_failed_example :
    send_follow (outside (err internal)) "a1" "acct:c@b.example" (following follows network) ≡ (
      err rejected,
      following follows (
          asked
            (outside (err internal))
            author
            carol
            "https://b.example/c/inbox"
            (carol ∷ [])
            network),
    )
unfolding Accounts.to_row resolve_remote_actor_identifier upsert_remote_account
send_follow_failed_example =
    send_follow_failed (outside (err internal)) "a1" "acct:c@b.example" "https://b.example/c/inbox"
      author carol_actor carol (carol ∷ []) network follows alice-Shows may_sign resolved
      carol_upserted refl follows-IsValid (refl, refl, refl) internal refl
