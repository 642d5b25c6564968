-- ===== src/Kernel/Error.antt =====
-- kernel/src/error.rs: the error kinds, and `error_stack::Result`. A report is its current context;
-- the texts attached to it are left out.
use emumet.Prelude.{Option, none, some, Bool, true, false, List, ◌∷◌}

pub data KernelError : Type 0 where
  concurrency timeout internal permission_denied not_found rejected validation : KernelError

pub data Result {ℓ} (A : Type ℓ) : Type ℓ where
  ok : A → Result A
  err : KernelError → Result A

infixl 5 ◌>>=◌ ◌>>◌
abbrev pub ◌>>=◌ {ℓ κ} : {A : Type ℓ} {B : Type κ} → Result A → (A → Result B) → Result B
ok a >>= f = f a
err e >>= f = err e

abbrev pub ◌>>◌ {ℓ κ} : {A : Type ℓ} {B : Type κ} → Result A → Result B → Result B
m >> k = m >>= λ _. k

-- `Result::map`
abbrev pub map_ok {ℓ κ} : {A : Type ℓ} {B : Type κ} → (A → B) → Result A → Result B
map_ok f (ok a) = ok (f a)
map_ok f (err e) = err e

-- `ok_or_else`
abbrev pub ok_or {ℓ} : {A : Type ℓ} → KernelError → Option A → Result A
ok_or e none = err e
ok_or e (some a) = ok a

-- an early return of an error unless the test holds
abbrev pub ensure : Bool → KernelError → Result (Unit {0})
ensure true e = ok tt
ensure false e = err e

abbrev pub is_ok {ℓ} : {A : Type ℓ} → Result A → Bool
is_ok (ok a) = true
is_ok (err e) = false

-- one turn of `collect::<Result<Vec<_>, _>>()`
abbrev pub cons_ok {ℓ} : {A : Type ℓ} → Result A → Result (List A) → Result (List A)
cons_ok first rest = first >>= λ a. map_ok (◌∷◌ a) rest
