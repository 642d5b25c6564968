-- ===== src/Application/Mutes.antt =====
-- application/src/service/mute.rs: mute and unmute an account. Its target is resolved as that of a
-- block is.
pub mod Repeats
use Prim.Native.String.{String}
use emumet.Prelude.{not}
use emumet.Kernel.Error.{rejected, ensure}
use emumet.Kernel.Exec.{Exec, pure, lift, ◌>>=◌, ◌>>◌}
use emumet.Kernel.Activity.{decimal}
use emumet.Kernel.Permission.{check_permission, account_sign}
use emumet.Kernel.Relation.{local, same_target, new}
use emumet.Driver.Relations.{insert_if_absent, delete_if_exists}
use emumet.Application.Network.{Network, Outside, on_mutes, find_account}
use emumet.Application.Blocks.{
  RelationDto, BlockTarget, target_id, target_name, target_type, resolve_block_target,
}

module _ (env : Outside) where
  -- `resolve_mute_target`
  unfoldable pub resolve_mute_target : String → Exec Network BlockTarget
  resolve_mute_target = resolve_block_target env

  unfoldable pub mute_account : String → String → Exec Network RelationDto
  mute_account nanoid target_text = do
    account ← find_account env nanoid
    lift (check_permission env.check (account_sign account.id))
    target ← resolve_mute_target target_text
    lift (ensure (not (same_target (local account.id) (target_id target))) rejected)
    mute ← lift (new env.relation_id (local account.id) (target_id target) tt)
    on_mutes (λ keys. insert_if_absent keys mute)
    pure (record {
      id = decimal mute.id;
      target_type = target_type mute.destination;
      target = target_name target;
    })

  unfoldable pub unmute_account : String → String → Exec Network (Unit {0})
  unmute_account nanoid target_text = do
    account ← find_account env nanoid
    lift (check_permission env.check (account_sign account.id))
    target ← resolve_mute_target target_text
    on_mutes (λ keys. delete_if_exists (local account.id) (target_id target))
    pure tt
