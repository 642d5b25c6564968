-- ===== src/Application/DetailUpdate/Atomicity.antt =====
-- A change of details that fails.
use Prim.Native.String.{String}
use emumet.Prelude.{◌≡◌, refl, Bool, true, false}
use emumet.Kernel.Error.{KernelError, err, rejected, ensure}
use emumet.Kernel.Exec.{Exec, pure, ◌>>=◌}
use emumet.Kernel.Account.{Account, AccountId, is_active}
use emumet.Kernel.Permission.{check_permission, account_edit}
use emumet.Application.Aggregate.{find_unfiltered}
use emumet.Application.Details.{UpdateAccountDto, validate_update_account_dto}
use emumet.Application.DetailWorld.{DetailWorld, DetailEnvironment, on_world}
use emumet.Application.DetailWorld.Atomic.{
  SameRows, LeavesRows, NeverFails, ReadOnly, LeavesRows-transaction, LeavesRows-lift,
  LeavesRows-read,
}
use emumet.Application.DetailUpdate.{change_details, announce, update_account_detail}

module _ (env : DetailEnvironment)
    (deliver : AccountId → String → Exec DetailWorld (Unit {0})) where
  find-ReadOnly : (nanoid : String) → ReadOnly (on_world (find_unfiltered env.environment nanoid))
  unfolding find_unfiltered
  find-ReadOnly nanoid = record { at = λ w. refl }

  announce-NeverFails :
      {A : Type 0} (changed : Bool) (id : AccountId) (nanoid : String) (a : A)
      → NeverFails (announce env deliver changed id nanoid >>= λ _. pure a)
  unfolding announce
  announce-NeverFails false id nanoid a = record { at = λ w. (a, refl) }
  announce-NeverFails true id nanoid a = record { at = λ w. (a, refl) }

  update-LeavesRows : (dto : UpdateAccountDto) → LeavesRows (update_account_detail env deliver dto)
  unfolding update_account_detail
  update-LeavesRows dto = LeavesRows-lift (validate_update_account_dto dto) _ λ _.
      LeavesRows-read _ _ (find-ReadOnly dto.account_nanoid) λ (projection : Account).
        LeavesRows-lift (check_permission env.environment.check (account_edit projection.id)) _ λ _.
          LeavesRows-lift (ensure (is_active projection.status) rejected) _ λ _.
            LeavesRows-transaction (change_details env dto projection.id) _
              λ updated. announce-NeverFails updated.1 projection.id dto.account_nanoid updated.0

  -- A request that changes an account's details and fails, wherever it fails, leaves every row of
  -- every table as it was; a failed announcement to other servers is not such a failure.
  pub update_account_detail-SameRows :
      (dto : UpdateAccountDto) (w : DetailWorld) (e : KernelError)
      → (update_account_detail env deliver dto w).0 ≡ err e
      → SameRows w (update_account_detail env deliver dto w).1
  update_account_detail-SameRows dto w e h = (update-LeavesRows dto).at w e h
