-- ===== src/Kernel/Permission/Requirements.antt =====
-- The requirements of a permission, as kernel/src/permission.rs asks for them.
use emumet.Prelude.{◌≡◌, ◌↔◌, refl, true, false, [], ◌∷◌, arith, All, if◌then◌else◌}
use emumet.Kernel.Error.{ok, ◌>>=◌}
use emumet.Kernel.Permission.{Permission, Check, add, satisfies, check_permission}

-- The requirements of a sum are those of the first permission, then, if they are met, those of the
-- second.
pub satisfies-add :
    (check : Check) (p q : Permission)
    → satisfies check (add p q)
      ≡ (satisfies check p >>= λ met. if met then satisfies check q else ok false)
unfolding satisfies add
satisfies-add check [] q = refl
satisfies-add check (req ∷ reqs) q = ground (arith, satisfies-add check reqs q)

satisfies→All :
    (check : Check) (p : Permission)
    → satisfies check p ≡ ok true
    → All (λ req. check req ≡ ok true) p
unfolding satisfies
satisfies→All check [] h = tt
satisfies→All check (req ∷ reqs) h = ground (arith, satisfies→All check reqs)

All→satisfies :
    (check : Check) (p : Permission)
    → All (λ req. check req ≡ ok true) p
    → satisfies check p ≡ ok true
unfolding satisfies
All→satisfies check [] h = refl
All→satisfies check (req ∷ reqs) h = ground (arith, All→satisfies check reqs h.1, h.0)

-- A permission check passes exactly when the relation service grants every requirement of the
-- permission.
pub check_permission_iff :
    (check : Check) (p : Permission)
    → (check_permission check p ≡ ok tt) ↔ All (λ req. check req ≡ ok true) p
check_permission_iff check p = (
  λ h. satisfies→All check p (unfold check_permission in ground arith),
  λ h. unfold check_permission in rw (All→satisfies check p h),
)
