-- ===== src/Kernel/Account/Status.antt =====
-- kernel/src/entity/account/status.rs
use Prim.Native.String.{String}
use emumet.Prelude.{Option, Bool, true, false}
use emumet.Kernel.Event.{OffsetDateTime}

pub data AccountStatus : Type 0 where
  active : AccountStatus
  -- reason, suspended_at, expires_at
  suspended : String → OffsetDateTime → Option OffsetDateTime → AccountStatus
  -- reason, banned_at
  banned : String → OffsetDateTime → AccountStatus

abbrev pub is_active : AccountStatus → Bool
is_active active = true
is_active _ = false

abbrev pub is_suspended : AccountStatus → Bool
is_suspended (suspended _ _ _) = true
is_suspended _ = false

abbrev pub is_banned : AccountStatus → Bool
is_banned (banned _ _) = true
is_banned _ = false
