-- ===== src/Tests/Roles.antt =====
-- Requests for roles on one account.
use emumet.Prelude.{◌≡◌, refl, none, [], ◌∷◌}
use emumet.Kernel.Error.{ok}
use emumet.Kernel.Account.Status
use emumet.Kernel.Permission.{admin, check_permission, satisfies, instance_administrate}
use emumet.Driver.Accounts.{
  find_by_nanoid_unfiltered, find_auth_account_id_by_account_id, account_from_row, to_row,
}
use emumet.Application.World.{World, call}
use emumet.Application.Aggregate.{find_unfiltered}
use emumet.Application.Roles.{find_target, revoke_instance_role}
use emumet.Application.Roles.Outcomes.{Revoked, revoke_instance_role_lem}
use emumet.Tests.Fixture.{env, born, alice, world}

abbrev one_world : World
one_world = world (alice Status.active none 10) (born ∷ [])

-- the principal 3 is linked with the account, and keeps the role
revoke_instance_role_lem_example :
    Revoked env 3 admin one_world (revoke_instance_role env 3 "a1" admin one_world).1
revoke_instance_role_lem_example = revoke_instance_role_lem env 3 admin one_world "a1"

revoked : (revoke_instance_role env 5 "a1" admin one_world).0 ≡ ok tt
unfolding revoke_instance_role find_unfiltered find_by_nanoid_unfiltered account_from_row to_row
    find_target find_auth_account_id_by_account_id check_permission satisfies instance_administrate
    call
revoked = refl
