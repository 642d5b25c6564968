-- ===== src/Application/Moderation/Refusals.antt =====
-- What a moderation request that fails leaves behind, and who may make one.
use Prim.Native.String.{String}
use emumet.Prelude.{◌≡◌, refl, Option, true}
use emumet.Kernel.Error.{KernelError, ok, err}
use emumet.Kernel.Exec.{Exec}
use emumet.Kernel.Event.{OffsetDateTime}
use emumet.Kernel.Permission.{instance_req, check_permission, instance_moderate}
use emumet.Kernel.Permission.Requirements.{check_permission_iff}
use emumet.Application.World.Atomic.{
  Untouched, ReadOnly, IsAtomic, Needs, needs_rules, atomic_rules,
}
use emumet.Application.World.{World, Environment}
use emumet.Application.Aggregate.{find_unfiltered}
use emumet.Application.Moderation.{suspend_account, unsuspend_account, ban_account, unban_account}

pub data Request : Type 0 where
  suspend : String → String → Option OffsetDateTime → Request
  unsuspend : String → Request
  ban : String → String → Request
  unban : String → Request

-- the four use cases
unfoldable pub serve : Environment → Request → Exec World (Unit {0})
serve env (suspend nanoid reason expires_at) = suspend_account env nanoid reason expires_at
serve env (unsuspend nanoid) = unsuspend_account env nanoid
serve env (ban nanoid reason) = ban_account env nanoid reason
serve env (unban nanoid) = unban_account env nanoid

find_unfiltered-ReadOnly :
    (env : Environment) (nanoid : String) → ReadOnly (find_unfiltered env nanoid)
unfolding find_unfiltered
find_unfiltered-ReadOnly env nanoid = record { state = λ w. refl }

serve-IsAtomic : (env : Environment) (request : Request) → IsAtomic (serve env request)
unfolding serve suspend_account unsuspend_account ban_account unban_account
serve-IsAtomic env (suspend nanoid reason expires_at) =
    search (atomic_rules, find_unfiltered-ReadOnly)
serve-IsAtomic env (unsuspend nanoid) = search (atomic_rules, find_unfiltered-ReadOnly)
serve-IsAtomic env (ban nanoid reason) = search (atomic_rules, find_unfiltered-ReadOnly)
serve-IsAtomic env (unban nanoid) = search (atomic_rules, find_unfiltered-ReadOnly)

-- A moderation request that fails leaves the rows of the event table, the read model and the calls
-- of the relation service as they were.
pub serve_error_Untouched :
    (env : Environment) (request : Request) (w : World) (e : KernelError)
    → (serve env request w).0 ≡ err e
    → Untouched w (serve env request w).1
serve_error_Untouched env request w e h = (serve-IsAtomic env request).at w e h

granted :
    (env : Environment)
    → check_permission env.check instance_moderate ≡ ok tt
    → env.check (instance_req "moderate") ≡ ok true
unfolding instance_moderate
granted env h = ((check_permission_iff env.check instance_moderate).0 h).0

serve-Needs :
    (env : Environment) (request : Request)
    → Needs (check_permission env.check instance_moderate ≡ ok tt) (serve env request)
unfolding serve suspend_account unsuspend_account ban_account unban_account
serve-Needs env (suspend nanoid reason expires_at) = search needs_rules
serve-Needs env (unsuspend nanoid) = search needs_rules
serve-Needs env (ban nanoid reason) = search needs_rules
serve-Needs env (unban nanoid) = search needs_rules

-- If a moderation request succeeds, the relation service lets the subject moderate.
pub serve_needs_moderate :
    (env : Environment) (request : Request) (w : World)
    → (serve env request w).0 ≡ ok tt
    → env.check (instance_req "moderate") ≡ ok true
serve_needs_moderate env request w h = granted env ((serve-Needs env request).at w tt h)
