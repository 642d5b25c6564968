-- ===== src/Application/Mutes/Repeats.antt =====
-- What a mute leaves, the first time and when it is repeated.
use Prim.Native.String.{String}
use emumet.Prelude.{◌≡◌, refl, ap, ◌∙◌, true, false, List, [], ◌∷◌, ◌++◌, map, any, ◌==◌}
use emumet.Kernel.Error.{Result, ok}
use emumet.Kernel.Account.{Account}
use emumet.Kernel.Permission.{check_permission, account_sign}
use emumet.Kernel.Relation.{Mute, local, new}
use emumet.Driver.Relations.{to_row}
use emumet.Driver.Relations.Rows.{
  IsNew, clashes, insert_if_absent_of_IsNew, insert_if_absent_of_clash, delete_if_exists-to_row,
}
use emumet.Driver.Relations.Deletion.{filter-goes_between}
use emumet.Application.Network.{Network, Outside, foreign_keys, find_account}
use emumet.Application.Blocks.{
  RelationDto, local_target, target_id, target_name, resolve_block_target,
}
use emumet.Application.Blocks.Outcomes.{Shows, made, answer, without}
use emumet.Application.Mutes.{resolve_mute_target, mute_account, unmute_account}

-- the network with these mutes
abbrev pub muting : List Mute → Network → Network
muting ms w = record w { mutes = map to_row ms }

module _ (env : Outside) (nanoid text : String) (account target : Account) (w : Network)
    (shown : Shows env nanoid account w) (target_shown : Shows env text target w)
    (permitted : check_permission env.check (account_sign account.id) ≡ ok tt) where
  mute_account_new :
      (ms : List Mute)
      → (account.id == target.id) ≡ false
      → IsNew (foreign_keys w) (made env account (local_target target)) ms
      → mute_account env nanoid text (muting ms w) ≡ (
        ok (answer (made env account (local_target target)) target.nanoid),
        muting (ms ++ made env account (local_target target) ∷ []) w,
      )
  unfolding mute_account find_account resolve_mute_target resolve_block_target target_id target_name
      new
  mute_account_new ms other n =
      rw
        (
          shown,
          permitted,
          target_shown,
          other,
          insert_if_absent_of_IsNew (foreign_keys w) (made env account (local_target target)) ms n,
        )
        refl

  -- If the read model shows an account and another one as the target, the relation service lets the
  -- subject sign for the first, and a row of the mute table has the pair or the generated id already,
  -- then a request to mute succeeds and changes nothing, and its answer carries the generated id,
  -- whatever id the row has.
  pub mute_account_repeated :
      (ms : List Mute)
      → (account.id == target.id) ≡ false
      → any (clashes (made env account (local_target target))) ms ≡ true
      → mute_account env nanoid text (muting ms w)
        ≡ (ok (answer (made env account (local_target target)) target.nanoid), muting ms w)
  unfolding mute_account find_account resolve_mute_target resolve_block_target target_id target_name
      new
  mute_account_repeated ms other c =
      rw
        (
          shown,
          permitted,
          target_shown,
          other,
          insert_if_absent_of_clash (foreign_keys w) (made env account (local_target target)) ms c,
        )
        refl

  unmute_account_lem :
      (ms : List Mute)
      → unmute_account env nanoid text (muting ms w)
        ≡ (ok tt, muting (without (local account.id) (local target.id) ms) w)
  unfolding unmute_account find_account resolve_mute_target resolve_block_target target_id
  unmute_account_lem ms =
      rw
        (
          shown,
          permitted,
          target_shown,
          delete_if_exists-to_row (local account.id) (local target.id) ms,
        )
        refl

  -- If the read model shows an account and another one as the target, the relation service lets the
  -- subject sign for the first, and the pair and the generated id are new to the mute table, then a
  -- mute followed by an unmute leaves the network as it was.
  pub unmute_account-mute_account :
      (ms : List Mute)
      → (account.id == target.id) ≡ false
      → IsNew (foreign_keys w) (made env account (local_target target)) ms
      → unmute_account env nanoid text (mute_account env nanoid text (muting ms w)).1
        ≡ (ok tt, muting ms w)
  unfolding target_id
  unmute_account-mute_account ms other n =
      ap (λ (s : Result RelationDto × Network). unmute_account env nanoid text s.1)
        (mute_account_new ms other n)
      ∙ unmute_account_lem (ms ++ made env account (local_target target) ∷ [])
      ∙ ap (λ (l : List Mute). (ok tt, muting l w))
          (filter-goes_between (made env account (local_target target)) ms n.0)
