-- ===== src/Application/Roles.antt =====
-- application/src/service/account/instance_role.rs: giving and taking the roles of the instance.
pub mod Outcomes
use Prim.Native.String.{String}
use emumet.Prelude.{Bool, true, false, not, ◌&&◌, ◌==◌}
use emumet.Kernel.Error.{rejected, not_found, ok_or, ensure}
use emumet.Kernel.Exec.{Exec, lift, ◌>>=◌, ◌>>◌}
use emumet.Kernel.Account.{AccountId, AuthAccountId}
use emumet.Kernel.Permission.{
  InstanceRole, admin, moderator, instance_target, check_permission, instance_administrate,
}
use emumet.Driver.Accounts.{find_auth_account_id_by_account_id}
use emumet.Application.World.{World, Environment, create_relation, delete_relation, on_tables, call}
use emumet.Application.Aggregate.{find_unfiltered}

abbrev pub is_admin : InstanceRole → Bool
is_admin admin = true
is_admin moderator = false

-- the principal that is linked with the account
unfoldable pub find_target : AccountId → Exec World AuthAccountId
unfolding find_auth_account_id_by_account_id
find_target id = do
  target ← on_tables (find_auth_account_id_by_account_id id)
  lift (ok_or not_found target)

module _ (env : Environment) (auth_account_id : AuthAccountId) where
  unfoldable pub assign_instance_role : String → InstanceRole → Exec World (Unit {0})
  assign_instance_role nanoid role = do
    projection ← find_unfiltered env nanoid
    lift (check_permission env.check instance_administrate)
    target ← find_target projection.id
    call env (create_relation (instance_target role) target)

  unfoldable pub revoke_instance_role : String → InstanceRole → Exec World (Unit {0})
  revoke_instance_role nanoid role = do
    projection ← find_unfiltered env nanoid
    lift (check_permission env.check instance_administrate)
    target ← find_target projection.id
    lift (ensure (not (is_admin role && target == auth_account_id)) rejected)
    call env (delete_relation (instance_target role) target)
