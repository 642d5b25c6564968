-- ===== src/Kernel/Account/Lifecycle.antt =====
-- Events that `apply` of an account refuses.
use emumet.Prelude.{◌≡◌, Option, none, some, arith}
use emumet.Kernel.Error.{err, KernelError}
use emumet.Kernel.Event.{OffsetDateTime, EventEnvelope}
use emumet.Kernel.Id.{Externals}
use emumet.Kernel.Account.{Account, AccountEvent, apply}

-- An event that is refused leaves the account, or the empty slot, as it was.
pub apply_error_unchanged :
    (x : Externals) (now : OffsetDateTime) (event : EventEnvelope AccountEvent)
    (entity : Option Account) (e : KernelError)
    → (apply x now event entity).0 ≡ err e
    → (apply x now event entity).1 ≡ entity
unfolding apply
apply_error_unchanged x now event none e h = ground arith
apply_error_unchanged x now event (some account) e h = ground arith
