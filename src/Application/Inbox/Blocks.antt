-- ===== src/Application/Inbox/Blocks.antt =====
-- What a Block of a remote account leaves.
use emumet.Prelude.{◌≡◌, refl, true, List, [], ◌∷◌, ◌++◌, filter, any}
use emumet.Kernel.Error.{ok}
use emumet.Kernel.Relation.{Follow, Block, local, remote, new}
use emumet.Driver.Relations.Rows.{
  IsNew, clashes, insert_if_absent_of_IsNew, insert_if_absent_of_clash,
}
use emumet.Driver.Relations.Tables.{IsValid}
use emumet.Driver.RemoteAccounts.{RemoteAccount, RemoteTable}
use emumet.Application.Follows.Removal.{is_apart, remove_follows_between_lem}
use emumet.Application.Network.{
  Network, Outside, ResolvedRemoteActor, foreign_keys, upsert_remote_account, transaction_of_ok,
}
use emumet.Application.Blocks.Outcomes.{holding}
use emumet.Application.Inbox.{
  InboxActivityDto, sender, check_object, record_block, handle_block_activity,
}

-- the block that the activity makes
abbrev pub inbound : Outside → InboxActivityDto → RemoteAccount → Block
inbound env dto account = record {
  id = env.relation_id;
  source = remote account.id;
  destination = local dto.account_id;
  approved_at = tt;
}

module _ (env : Outside) (block : Block) (w : Network) (bs : List Block) (fs : List Follow) where
  record_new_block :
      IsValid fs
      → IsNew (foreign_keys w) block bs
      → record_block env block (holding bs fs w) ≡ (
        ok tt,
        holding (bs ++ block ∷ []) (filter (is_apart block.source block.destination) fs) w,
      )
  unfolding record_block
  record_new_block v n =
      rw
        (
          insert_if_absent_of_IsNew (foreign_keys w) block bs n,
          remove_follows_between_lem block.source block.destination fs v,
        )
        refl

  record_old_block :
      any (clashes block) bs ≡ true
      → record_block env block (holding bs fs w) ≡ (ok tt, holding bs fs w)
  unfolding record_block
  record_old_block c = rw (insert_if_absent_of_clash (foreign_keys w) block bs c) refl

module _ (env : Outside) (dto : InboxActivityDto) (actor : ResolvedRemoteActor)
    (account : RemoteAccount) (remotes : RemoteTable) (w : Network) (bs : List Block)
    (fs : List Follow) (matches : check_object env dto dto.activity ≡ ok tt)
    (resolved : env.resolve_remote_actor dto.activity.actor ≡ ok actor)
    (upserted : upsert_remote_account env actor w.remote_accounts ≡ (ok account, remotes)) where
  -- the network after the sender was brought up to date
  abbrev updated : Network
  updated = record w { remote_accounts = remotes }

  -- A Block of a remote account that names the local account, where the sender resolves and is
  -- stored, the follow table is valid and the pair and the generated id are new to the block table,
  -- succeeds: the block is appended, the follows between the two accounts are deleted, in either
  -- direction, and nothing else changes but the stored sender.
  pub handle_block_activity_lem :
      IsValid fs
      → IsNew (foreign_keys updated) (inbound env dto account) bs
      → handle_block_activity env dto (holding bs fs w) ≡ (
        ok tt,
        holding
            (bs ++ inbound env dto account ∷ [])
            (filter (is_apart (remote account.id) (local dto.account_id)) fs)
            updated,
      )
  unfolding handle_block_activity sender new
  handle_block_activity_lem v n =
      rw
        (
          matches,
          resolved,
          upserted,
          transaction_of_ok (record_block env (inbound env dto account)) (holding bs fs updated)
              (holding (bs ++ inbound env dto account ∷ [])
                (filter (is_apart (remote account.id) (local dto.account_id)) fs) updated)
              tt (record_new_block env (inbound env dto account) updated bs fs v n),
        )
        refl

  -- A repeated Block leaves the blocks and the follows as they are.
  pub handle_block_activity_repeated :
      any (clashes (inbound env dto account)) bs ≡ true
      → handle_block_activity env dto (holding bs fs w) ≡ (ok tt, holding bs fs updated)
  unfolding handle_block_activity sender new
  handle_block_activity_repeated c =
      rw
        (
          matches,
          resolved,
          upserted,
          transaction_of_ok (record_block env (inbound env dto account)) (holding bs fs updated)
              (holding bs fs updated) tt
              (record_old_block env (inbound env dto account) updated bs fs c),
        )
        refl
