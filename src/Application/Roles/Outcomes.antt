-- ===== src/Application/Roles/Outcomes.antt =====
-- What a request for a role sends to the relation service.
use Prim.Native.String.{String}
use emumet.Prelude.{◌≡◌, ◌⊎◌, inl, inr, refl, true, false, ◌&&◌, ◌==◌, [], ◌∷◌, ◌++◌, Bool-cases}
use emumet.Kernel.Error.{Result, ok, err}
use emumet.Kernel.Exec.{Exec, continue}
use emumet.Kernel.Account.{AuthAccountId}
use emumet.Kernel.Permission.{
  InstanceRole, instance_target, instance_req, check_permission, instance_administrate,
}
use emumet.Kernel.Permission.Requirements.{check_permission_iff}
use emumet.Application.World.{
  World, Environment, RelationCall, create_relation, delete_relation, call,
}
use emumet.Application.World.Atomic.{Needs, needs_rules}
use emumet.Application.Aggregate.{find_unfiltered}
use emumet.Application.Roles.{is_admin, find_target, assign_instance_role, revoke_instance_role}

only :
    {A B : Type 0} (P : World → Type 0) (r : Result A) (f : A → Exec World B) (w : World)
    → P w
    → ((a : A) → P (f a w).1)
    → P (continue r f w).1
only P (ok a) f w stays moves = moves a
only P (err e) f w stays moves = stays

abbrev pub sent : RelationCall → World → World
sent request w = record w { calls = w.calls ++ request ∷ [] }

module _ (env : Environment) (auth_account_id : AuthAccountId) (role : InstanceRole)
    (w : World) where
  abbrev pub Revoked : World → Type 0
  Revoked w' =
      (w' ≡ w)
      ⊎ ((target : AuthAccountId) × (w' ≡ sent (delete_relation (instance_target role) target) w)
          × ((is_admin role && target == auth_account_id) ≡ false))

  abbrev pub Assigned : World → Type 0
  Assigned w' =
      (w' ≡ w)
      ⊎ ((target : AuthAccountId) × (w' ≡ sent (create_relation (instance_target role) target) w))

  -- A request to take a role changes nothing but the calls of the relation service. It sends at most
  -- one, which takes that role from somebody, and never the role of an administrator from the
  -- principal who asks.
  pub revoke_instance_role_lem :
      (nanoid : String) → Revoked (revoke_instance_role env auth_account_id nanoid role w).1
  unfolding revoke_instance_role find_unfiltered find_target call
  revoke_instance_role_lem nanoid =
      only Revoked (find_unfiltered env nanoid w).0 _ w (inl refl) λ projection.
        only Revoked (check_permission env.check instance_administrate) _ w (inl refl) λ allowed.
          only Revoked (find_target projection.id w).0 _ w (inl refl) λ target.
            elim (Bool-cases (is_admin role && target == auth_account_id)) [
              | inl e ↦ rw e (inl refl)
              | inr e ↦ rw e (inr (target, refl, e))
            ]

  -- A request to give a role changes nothing but the calls of the relation service. It sends at most
  -- one, which gives that role to somebody.
  pub assign_instance_role_lem :
      (nanoid : String) → Assigned (assign_instance_role env auth_account_id nanoid role w).1
  unfolding assign_instance_role find_unfiltered find_target call
  assign_instance_role_lem nanoid =
      only Assigned (find_unfiltered env nanoid w).0 _ w (inl refl) λ projection.
        only Assigned (check_permission env.check instance_administrate) _ w (inl refl) λ allowed.
          only Assigned (find_target projection.id w).0 _ w (inl refl) λ target. inr (target, refl)

module _ (env : Environment) (auth_account_id : AuthAccountId) (nanoid : String)
    (role : InstanceRole) where
  assign-Needs :
      Needs
        (check_permission env.check instance_administrate ≡ ok tt)
        (assign_instance_role env auth_account_id nanoid role)
  unfolding assign_instance_role
  assign-Needs = search needs_rules

  revoke-Needs :
      Needs
        (check_permission env.check instance_administrate ≡ ok tt)
        (revoke_instance_role env auth_account_id nanoid role)
  unfolding revoke_instance_role
  revoke-Needs = search needs_rules

  granted :
      check_permission env.check instance_administrate ≡ ok tt
      → env.check (instance_req "administrate") ≡ ok true
  unfolding instance_administrate
  granted h = ((check_permission_iff env.check instance_administrate).0 h).0

  -- If a request to give or to take a role succeeds, the relation service lets the subject
  -- administrate.
  pub role_needs_administrate :
      (w : World)
      → ((assign_instance_role env auth_account_id nanoid role w).0 ≡ ok tt)
        ⊎ ((revoke_instance_role env auth_account_id nanoid role w).0 ≡ ok tt)
      → env.check (instance_req "administrate") ≡ ok true
  role_needs_administrate w (inl h) = granted (assign-Needs.at w tt h)
  role_needs_administrate w (inr h) = granted (revoke-Needs.at w tt h)
