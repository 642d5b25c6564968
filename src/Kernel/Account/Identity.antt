-- ===== src/Kernel/Account/Identity.antt =====
-- The identity and the version of an account along a replay.
use emumet.Prelude.{suc, ◌≡◌, Option, none, some, List, [], ◌∷◌, arith, inl, inr}
use emumet.Prelude.Sort.{last_key}
use emumet.Kernel.Error.{ok}
use emumet.Kernel.Event.{OffsetDateTime, EventVersion, EventEnvelope, version_of}
use emumet.Kernel.Id.{Externals}
use emumet.Kernel.Rehydrated.{Clock, fold}
use emumet.Kernel.Account.{Account, AccountEvent, apply, account_applier}
use emumet.Kernel.Account.Balance.{Result-cases}

-- the slot holds the account `a`, changed at most in its state, at a version
abbrev pub Kept : Account → EventVersion → Option Account → Type 0
Kept a version none = ⊥
Kept a version (some b) =
    (b.id ≡ a.id)
    × (b.name ≡ a.name)
    × (b.nanoid ≡ a.nanoid)
    × (b.created_at ≡ a.created_at)
    × (b.version ≡ version)

module _ (x : Externals) where
  apply-Kept :
      (now : OffsetDateTime) (event : EventEnvelope AccountEvent) (a : Account)
      → (apply x now event (some a)).0 ≡ ok tt
      → Kept a event.version (apply x now event (some a)).1
  unfolding apply
  apply-Kept now event a h = ground arith

  Kept-trans :
      (a b : Account) (v w : EventVersion) (s : Option Account)
      → Kept a v (some b)
      → Kept b w s
      → Kept a w s
  Kept-trans a b v w none h k = k
  Kept-trans a b v w (some c) h k = ground arith

  fold-Kept_from :
      (clock : Clock) (events : List (EventEnvelope AccountEvent)) (a : Account)
      (s : Option Account) (version : EventVersion)
      → Kept a version s
      → (fold (account_applier x) clock events s).0 ≡ ok tt
      → Kept a (last_key version_of version events) (fold (account_applier x) clock events s).1
  unfolding fold account_applier
  fold-Kept_from clock [] a s version k h = k
  fold-Kept_from clock (event ∷ events) a none version k h = absurd k
  fold-Kept_from clock (event ∷ events) a (some b) version k h =
      elim (Result-cases (apply x (clock 0) event (some b)).0) [
        | inl e ↦ rw e (
            fold-Kept_from (λ n. clock (suc n)) events a (apply x (clock 0) event (some b)).1
              event.version
              (Kept-trans a b version event.version (apply x (clock 0) event (some b)).1 k
                (apply-Kept (clock 0) event b e))
              (rw e at h))
        | inr (k, e) ↦ ground (arith, e)
      ]

  -- If events on an existing account replay, they leave its id, name, nanoid and creation time as
  -- they are, and its version is that of the last event, or the old one if there is none.
  pub fold-Kept :
      (clock : Clock) (events : List (EventEnvelope AccountEvent)) (a : Account)
      → (fold (account_applier x) clock events (some a)).0 ≡ ok tt
      → Kept a
          (last_key version_of a.version events)
          (fold (account_applier x) clock events (some a)).1
  fold-Kept clock events a h = fold-Kept_from clock events a (some a) a.version (ground arith) h
