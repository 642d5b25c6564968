-- ===== src/Application/World/Atomic.antt =====
-- Use cases that fail without a trace, and what a successful one needs: a rule for each way to build
-- a use case, for `search`.
use emumet.Prelude.{◌≡◌, refl, ap, subst, arith}
use emumet.Kernel.Error.{KernelError, Result, ok, err}
use emumet.Kernel.Exec.{Exec, lift, continue, ◌>>=◌}
use emumet.Application.World.{World, transaction}

-- No table's rows, and no call of the relation service, differ.
pub record Untouched (w w' : World) : Type 0 where
  pub rows : w'.events.rows ≡ w.events.rows
  pub tables : w'.tables ≡ w.tables
  pub calls : w'.calls ≡ w.calls

pub record ReadOnly {A : Type 0} (m : Exec World A) : Type 0 where
  pub state : (w : World) → (m w).1 ≡ w

-- an error leaves no trace
pub record IsAtomic {A : Type 0} (m : Exec World A) : Type 0 where
  pub at : (w : World) (e : KernelError) → (m w).0 ≡ err e → Untouched w (m w).1

-- success needs `P`
pub record Needs {A : Type 0} (P : Type 0) (m : Exec World A) : Type 0 where
  pub at : (w : World) (a : A) → (m w).0 ≡ ok a → P

module _ {A : Type 0} where
  pub IsAtomic-transaction : (m : Exec World A) → IsAtomic (transaction m)
  unfolding transaction
  IsAtomic-transaction m = record { at = λ w e h. ground arith }

module _ {A B : Type 0} where
  pub IsAtomic-lift :
      (r : Result A) (f : A → Exec World B) → ((a : A) → IsAtomic (f a)) → IsAtomic (lift r >>= f)
  IsAtomic-lift (ok a) f h = record { at = λ w e failed. (h a).at w e failed }
  IsAtomic-lift (err e) f h = record {
    at = λ w e failed. record { rows = refl; tables = refl; calls = refl };
  }

  continue-Untouched :
      (r : Result A) (f : A → Exec World B) (s w : World) (e : KernelError)
      → s ≡ w
      → ((a : A) → IsAtomic (f a))
      → (continue r f s).0 ≡ err e
      → Untouched w (continue r f s).1
  continue-Untouched (ok a) f s w e p h failed =
      subst (λ v. Untouched v (f a s).1) p ((h a).at s e failed)
  continue-Untouched (err k) f s w e p h failed = record {
    rows = ap (λ (v : World). v.events.rows) p;
    tables = ap (λ (v : World). v.tables) p;
    calls = ap (λ (v : World). v.calls) p;
  }

  pub IsAtomic-read :
      (m : Exec World A) (f : A → Exec World B)
      → ReadOnly m
      → ((a : A) → IsAtomic (f a))
      → IsAtomic (m >>= f)
  IsAtomic-read m f r h = record {
    at = λ w e failed. continue-Untouched (m w).0 f (m w).1 w e (r.state w) h failed;
  }

  continue-Needs :
      {P : Type 0} (r : Result A) (f : A → Exec World B) (s : World) (b : B)
      → ((a : A) → Needs P (f a))
      → (continue r f s).0 ≡ ok b
      → P
  continue-Needs (ok a) f s b h done = (h a).at s b done
  continue-Needs (err e) f s b h done = cc

  pub Needs-bind :
      {P : Type 0} (m : Exec World A) (f : A → Exec World B)
      → ((a : A) → Needs P (f a))
      → Needs P (m >>= f)
  Needs-bind m f h = record { at = λ w b done. continue-Needs (m w).0 f (m w).1 b h done }

pub Needs-lift :
    {B : Type 0} (r : Result (Unit {0})) (f : Unit {0} → Exec World B)
    → Needs (r ≡ ok tt) (lift r >>= f)
Needs-lift (ok a) f = record { at = λ w b done. refl }
Needs-lift (err e) f = record { at = λ w b done. cc }

pub ruleset atomic_rules = (IsAtomic-transaction, IsAtomic-lift, IsAtomic-read)

pub ruleset needs_rules = (Needs-bind, Needs-lift)
