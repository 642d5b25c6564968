-- ===== src/Application/Blocks/Outcomes.antt =====
-- What a block leaves.
use Prim.Native.String.{String}
use emumet.Prelude.{
  ◌≡◌, refl, none, some, true, false, not, List, [], ◌∷◌, ◌++◌, map, arith, filter, any, any-filter,
  find?-filter, any-false, All-map, any-false_inv, ◌==◌,
}
use emumet.Kernel.Error.{ok}
use emumet.Kernel.Relation.{TargetId, local, Follow, Block, same_target, new}
use emumet.Kernel.Account.{Account}
use emumet.Kernel.Activity.{decimal}
use emumet.Kernel.Permission.{check_permission, account_sign}
use emumet.Driver.Accounts.{find_by_nanoid}
use emumet.Driver.Relations.{to_row}
use emumet.Driver.Relations.Rows.{
  IsProper, IsNew, goes_from, goes_between, clashes, find_by_source-to_row, create_of_IsNew,
}
use emumet.Driver.Relations.Tables.{IsValid}
use emumet.Driver.Relations.Deletion.{delete_pair}
use emumet.Application.Follows.Removal.{is_apart, remove_follows_between_lem}
use emumet.Application.Network.{Network, Outside, foreign_keys, find_account, transaction_of_ok}
use emumet.Application.Blocks.{
  RelationDto, BlockTarget, local_target, target_id, target_name, target_type, resolve_block_target,
  record_block, store, deliver_stored, block_account, unblock_account, remove_block,
}

-- no block from the source has the destination
not_blocked :
    (block : Block) (bs : List Block)
    → any (clashes block) bs ≡ false
    → any
        (λ other. same_target other.destination block.destination)
        (filter (goes_from block.source) bs)
      ≡ false
not_blocked block bs h =
    rw
      (any-filter (goes_from block.source)
        (λ other. same_target other.destination block.destination) bs)
      (any-false (goes_between block.source block.destination) bs (
        All-map (λ other. clashes block other ≡ false)
          (λ other. goes_between block.source block.destination other ≡ false)
          (λ other k. ground arith) bs (any-false_inv (clashes block) bs h)))

-- the network with these blocks and follows
abbrev pub holding : List Block → List Follow → Network → Network
holding bs fs w = record w { blocks = map to_row bs; follows = map to_row fs }

record_block_lem :
    (env : Outside) (account : Account) (block : Block) (w : Network) (bs : List Block)
    (fs : List Follow)
    → IsValid bs
    → IsValid fs
    → IsNew (foreign_keys w) block bs
    → record_block env account block none (holding bs fs w) ≡ (
      ok none,
      holding (bs ++ block ∷ []) (filter (is_apart block.source block.destination) fs) w,
    )
unfolding record_block store
record_block_lem env account block w bs fs vb vf n =
    rw
      (
        find_by_source-to_row block.source bs vb.0,
        not_blocked block bs n.0,
        create_of_IsNew (foreign_keys w) block bs n,
        remove_follows_between_lem block.source block.destination fs vf,
      )
      refl

-- the read model shows the account for the nanoid
abbrev pub Shows : Outside → String → Account → Network → Type 0
Shows env nanoid account w =
    find_by_nanoid env.queried_at nanoid w.accounts ≡ (ok (some account), w.accounts)

-- the block that a request makes
abbrev pub made : Outside → Account → BlockTarget → Block
made env account target = record {
  id = env.relation_id;
  source = local account.id;
  destination = target_id target;
  approved_at = tt;
}

abbrev pub answer : Block → String → RelationDto
answer block target = record {
  id = decimal block.id;
  target_type = target_type block.destination;
  target = target;
}

-- the blocks without those of the pair
abbrev pub without : TargetId → TargetId → List Block → List Block
without s d = filter (λ block. not (goes_between s d block))

remove_block_lem :
    (env : Outside) (account target : Account) (w : Network) (bs : List Block) (fs : List Follow)
    → IsValid bs
    → any (goes_between (local account.id) (local target.id)) bs ≡ true
    → remove_block env account (local_target target) (holding bs fs w)
      ≡ (ok (none, none), holding (without (local account.id) (local target.id) bs) fs w)
unfolding remove_block target_id store
remove_block_lem env account target w bs fs v blocked =
    let (block, found, deleted, _) =
      delete_pair (local account.id) (local target.id) IsProper bs v.1 v.0 blocked in
    rw
      (
        find_by_source-to_row (local account.id) bs v.0,
        find?-filter (goes_from (local account.id))
            (λ (other : Block). same_target other.destination (local target.id)) bs,
        found,
        deleted,
      )
      refl

module _ (env : Outside) (nanoid text : String) (account : Account) (w : Network) where
  -- If the read model shows an account and another account as the target, the relation service lets
  -- the subject sign for the first, no row of the block table has the pair or the generated id, and the
  -- tables are valid, then the request to block succeeds: the block is appended, the follows between
  -- the two accounts are deleted, pending or approved and in either direction, and nothing else changes.
  pub block_account_lem :
      (target : Account) (bs : List Block) (fs : List Follow)
      → Shows env nanoid account w
      → Shows env text target w
      → check_permission env.check (account_sign account.id) ≡ ok tt
      → (account.id == target.id) ≡ false
      → IsValid bs
      → IsValid fs
      → IsNew (foreign_keys w) (made env account (local_target target)) bs
      → block_account env nanoid text (holding bs fs w) ≡ (
        ok (answer (made env account (local_target target)) target.nanoid),
        holding
            (bs ++ made env account (local_target target) ∷ [])
            (filter (is_apart (local account.id) (local target.id)) fs)
            w,
      )
  unfolding block_account find_account resolve_block_target target_id target_name new deliver_stored
  block_account_lem target bs fs shown target_shown permitted other vb vf n =
      rw
        (
          shown,
          permitted,
          target_shown,
          other,
          transaction_of_ok (record_block env account (made env account (local_target target)) none)
              (holding bs fs w)
              (holding (bs ++ made env account (local_target target) ∷ [])
                (filter (is_apart (local account.id) (local target.id)) fs) w)
              none
              (record_block_lem env account (made env account (local_target target)) w bs fs vb vf
                n),
        )
        refl

  -- If the read model shows an account and the target as a local account that it blocks, the relation
  -- service lets the subject sign for it, and the tables are valid, then the request to unblock
  -- succeeds: the block is deleted, and nothing else changes.
  pub unblock_account_lem :
      (target : Account) (bs : List Block) (fs : List Follow)
      → Shows env nanoid account w
      → Shows env text target w
      → check_permission env.check (account_sign account.id) ≡ ok tt
      → IsValid bs
      → any (goes_between (local account.id) (local target.id)) bs ≡ true
      → unblock_account env nanoid text (holding bs fs w)
        ≡ (ok tt, holding (without (local account.id) (local target.id) bs) fs w)
  unfolding unblock_account find_account resolve_block_target deliver_stored
  unblock_account_lem target bs fs shown target_shown permitted vb blocked =
      rw
        (
          shown,
          permitted,
          target_shown,
          transaction_of_ok (remove_block env account (local_target target)) (holding bs fs w)
              (holding (without (local account.id) (local target.id) bs) fs w) (none, none)
              (remove_block_lem env account target w bs fs vb blocked),
        )
        refl
