-- ===== src/Kernel/Account/Balance.antt =====
-- The number of each kind of event in a stream that replays.
use emumet.Prelude.{
  ℕ, suc, ◌+◌, ◌≡◌, refl, Option, none, some, Bool, true, false, List, [], ◌∷◌, arith, is_some, inl,
  inr, ◌⊎◌, if◌then◌else◌,
}
use emumet.Kernel.Error.{KernelError, Result, ok, err}
use emumet.Kernel.Event.{OffsetDateTime, EventEnvelope}
use emumet.Kernel.Id.{Externals}
use emumet.Kernel.Rehydrated.{Clock, fold}
use emumet.Kernel.Account.{
  Account, AccountEvent, created, deactivated, banned, unbanned, reactivated, is_banned, apply,
  account_applier,
}

pub Result-cases : (r : Result (Unit {0})) → (r ≡ ok tt) ⊎ ((e : KernelError) × (r ≡ err e))
Result-cases (ok _) = inl refl
Result-cases (err e) = inr (e, refl)

abbrev pub count : {A : Type 0} → (A → Bool) → List (EventEnvelope A) → ℕ
count p [] = 0
count p (event ∷ events) = (if p event.event then 1 else 0) + count p events

abbrev pub is_deactivated : AccountEvent → Bool
is_deactivated deactivated = true
is_deactivated _ = false

abbrev pub is_reactivated : AccountEvent → Bool
is_reactivated reactivated = true
is_reactivated _ = false

abbrev pub is_ban : AccountEvent → Bool
is_ban (banned _ _) = true
is_ban _ = false

abbrev pub is_unban : AccountEvent → Bool
is_unban unbanned = true
is_unban _ = false

abbrev pub is_created : AccountEvent → Bool
is_created (created _ _ _ _) = true
is_created _ = false

-- 1 where the test holds of an account in the slot
abbrev pub flag : (Account → Bool) → Option Account → ℕ
flag p none = 0
flag p (some a) = if p a then 1 else 0

abbrev pub is_deleted : Account → Bool
is_deleted a = is_some a.deleted_at

abbrev pub has_ban : Account → Bool
has_ban a = is_banned a.status

-- the account events that a successful step accounts for
record Balanced (s t : Option Account) (event : AccountEvent) : Type 0 where
  deletions :
      flag is_deleted s + (if is_deactivated event then 1 else 0)
      ≡ (if is_reactivated event then 1 else 0) + flag is_deleted t
  bans :
      flag has_ban s + (if is_ban event then 1 else 0)
      ≡ (if is_unban event then 1 else 0) + flag has_ban t
  births : flag (λ a. true) s + (if is_created event then 1 else 0) ≡ 1
  lives : flag (λ a. true) t ≡ 1

module _ (x : Externals) where
  apply-Balanced :
      (now : OffsetDateTime) (event : EventEnvelope AccountEvent) (s : Option Account)
      → (apply x now event s).0 ≡ ok tt
      → Balanced s (apply x now event s).1 event.event
  unfolding apply
  apply-Balanced now event none h = ground arith
  apply-Balanced now event (some a) h = ground arith

  -- Along a replay that succeeds: the deactivations, with one for a deactivated account at the
  -- start, are as many as the reactivations with one for a deactivated account at the end; the same
  -- for bans and unbans; and the creations, with one for an account at the start, are as many as
  -- the accounts at the end, none or one.
  pub fold-Balanced :
      (clock : Clock) (events : List (EventEnvelope AccountEvent)) (s : Option Account)
      → (fold (account_applier x) clock events s).0 ≡ ok tt
      → let t = (fold (account_applier x) clock events s).1 in
        (flag is_deleted s + count is_deactivated events
          ≡ count is_reactivated events + flag is_deleted t)
        × (flag has_ban s + count is_ban events ≡ count is_unban events + flag has_ban t)
        × (flag (λ a. true) s + count is_created events ≡ flag (λ a. true) t)
  unfolding fold account_applier
  fold-Balanced clock [] s h = ground arith
  fold-Balanced clock (event ∷ events) s h = elim (Result-cases (apply x (clock 0) event s).0) [
    | inl e ↦
        let b = apply-Balanced (clock 0) event s e in
        let (d, k, n) =
          fold-Balanced (λ n. clock (suc n)) events (apply x (clock 0) event s).1 (rw e at h) in
        rw e (
          omega (arith, b.deletions, d),
          omega (arith, b.bans, k),
          omega (arith, b.births, b.lives, n),
        )
    | inr (k, e) ↦ ground (arith, e)
  ]
