-- ===== src/Kernel/Relation.antt =====
-- kernel/src/entity/{follow,block,mute}.rs: who follows, blocks or mutes whom. The three entities and
-- their target ids differ in names, and in the approval that a follow alone has: one type, with the
-- approval as a parameter. `block_target_to_follow_target` is thus the identity.
use emumet.Prelude.{ℕ, Option, Bool, false, ◌==◌}
use emumet.Kernel.Error.{Result, ok, err, internal}
use emumet.Kernel.Event.{OffsetDateTime}
use emumet.Kernel.Account.{AccountId}

abbrev pub RemoteAccountId : Type 0
RemoteAccountId = ℕ

-- `FollowTargetId`, `BlockTargetId` and `MuteTargetId`
pub data TargetId : Type 0 where
  local : AccountId → TargetId
  remote : RemoteAccountId → TargetId

pub record Relation (X : Type 0) : Type 0 where
  pub id : ℕ
  pub source : TargetId
  pub destination : TargetId
  pub approved_at : X

abbrev pub Follow : Type 0
Follow = Relation (Option OffsetDateTime)

abbrev pub Block : Type 0
Block = Relation (Unit {0})

abbrev pub Mute : Type 0
Mute = Relation (Unit {0})

-- the derived `PartialEq`
abbrev pub same_target : TargetId → TargetId → Bool
same_target (local a) (local b) = a == b
same_target (remote a) (remote b) = a == b
same_target _ _ = false

-- `Follow::new`, `Block::new` and `Mute::new`
unfoldable pub new : {X : Type 0} → ℕ → TargetId → TargetId → X → Result (Relation X)
new id (remote _) (remote _) approved_at = err internal
new id source destination approved_at =
    ok (record { id = id; source = source; destination = destination; approved_at = approved_at })
