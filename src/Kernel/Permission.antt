-- ===== src/Kernel/Permission.antt =====
-- kernel/src/permission.rs and application/src/permission.rs: what a request may do. The relation
-- service behind `PermissionChecker` and `PermissionWriter` is Ory Keto, a parameter.
pub mod Requirements
use Prim.Native.String.{String}
use emumet.Prelude.{Bool, true, false, List, [], ◌∷◌, ◌++◌, if◌then◌else◌}
use emumet.Kernel.Error.{Result, ok, err, permission_denied, ◌>>=◌}
use emumet.Kernel.Account.{AccountId}

pub data AccountRelation : Type 0 where
  owner editor signer : AccountRelation

pub data InstanceRole : Type 0 where
  admin moderator : InstanceRole

pub data PermissionReq : Type 0 where
  account_req : AccountId → String → PermissionReq
  instance_req : String → PermissionReq

abbrev pub Permission : Type 0
Permission = List PermissionReq

abbrev pub single : PermissionReq → Permission
single req = req ∷ []

-- `Permission + Permission`
unfoldable pub add : Permission → Permission → Permission
add p q = p ++ q

pub data RelationTarget : Type 0 where
  account_target : AccountId → AccountRelation → RelationTarget
  instance_target : InstanceRole → RelationTarget

-- the answer of the relation service to one question about the subject
abbrev pub Check : Type 0
Check = PermissionReq → Result Bool

-- `satisfies`: the first refusal or error ends the loop
unfoldable pub satisfies : Check → Permission → Result Bool
satisfies check [] = ok true
satisfies check (req ∷ reqs) =
    let rest = satisfies check reqs in do granted ← check req; if granted then rest else ok false

unfoldable pub account_view : AccountId → Permission
account_view id = single (account_req id "view")

unfoldable pub account_edit : AccountId → Permission
account_edit id = single (account_req id "edit")

unfoldable pub account_deactivate : AccountId → Permission
account_deactivate id = single (account_req id "deactivate")

unfoldable pub account_sign : AccountId → Permission
account_sign id = single (account_req id "sign")

unfoldable pub instance_moderate : Permission
instance_moderate = single (instance_req "moderate")

unfoldable pub instance_administrate : Permission
instance_administrate = single (instance_req "administrate")

unfoldable pub check_permission : Check → Permission → Result (Unit {0})
unfolding satisfies
check_permission check permission = do
  granted ← satisfies check permission
  if granted then ok tt else err permission_denied
