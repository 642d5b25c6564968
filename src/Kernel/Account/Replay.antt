-- ===== src/Kernel/Account/Replay.antt =====
-- One stream of account events, replayed under two clocks.
use emumet.Prelude.{suc, ◌≡◌, refl, Option, none, some, List, [], ◌∷◌, arith, is_some}
use emumet.Kernel.Error.{Result, ok, err}
use emumet.Kernel.Exec.{continue}
use emumet.Kernel.Event.{OffsetDateTime, EventEnvelope}
use emumet.Kernel.Id.{Externals}
use emumet.Kernel.Rehydrated.{Clock, fold}
use emumet.Kernel.Account.{Account, AccountEvent, apply, account_applier}

-- Two replays of an account that differ in the instant of the deactivation alone.
pub record SameButTime (a b : Account) : Type 0 where
  pub id : a.id ≡ b.id
  pub name : a.name ≡ b.name
  pub is_bot : a.is_bot ≡ b.is_bot
  pub status : a.status ≡ b.status
  pub deleted : is_some a.deleted_at ≡ is_some b.deleted_at
  pub version : a.version ≡ b.version
  pub nanoid : a.nanoid ≡ b.nanoid
  pub created_at : a.created_at ≡ b.created_at

abbrev pub SameSlot : Option Account → Option Account → Type 0
SameSlot none none = Unit
SameSlot (some a) (some b) = SameButTime a b
SameSlot _ _ = ⊥

SameSlot-refl : (s : Option Account) → SameSlot s s
SameSlot-refl none = tt
SameSlot-refl (some a) = ground arith

module _ (x : Externals) where
  apply_same :
      (now now' : OffsetDateTime) (event : EventEnvelope AccountEvent) (a b : Account)
      → SameButTime a b
      → ((apply x now event (some a)).0 ≡ (apply x now' event (some b)).0)
        × SameSlot (apply x now event (some a)).1 (apply x now' event (some b)).1
  unfolding apply
  apply_same now now' event a b h = ground arith

  apply-SameSlot :
      (now now' : OffsetDateTime) (event : EventEnvelope AccountEvent) (s t : Option Account)
      → SameSlot s t
      → ((apply x now event s).0 ≡ (apply x now' event t).0)
        × SameSlot (apply x now event s).1 (apply x now' event t).1
  unfolding apply
  apply-SameSlot now now' event none none h = (refl, SameSlot-refl (apply x now event none).1)
  apply-SameSlot now now' event none (some b) h = absurd h
  apply-SameSlot now now' event (some a) none h = absurd h
  apply-SameSlot now now' event (some a) (some b) h = apply_same now now' event a b h

  -- From accounts that agree but for the instant of the deactivation, a stream replayed under any
  -- two clocks gives the same success or error, and accounts that agree but for that instant.
  pub fold_clock_independent :
      (clock clock' : Clock) (events : List (EventEnvelope AccountEvent)) (s t : Option Account)
      → SameSlot s t
      → ((fold (account_applier x) clock events s).0 ≡ (fold (account_applier x) clock' events t).0)
        × SameSlot
            (fold (account_applier x) clock events s).1
            (fold (account_applier x) clock' events t).1
  unfolding fold account_applier
  fold_clock_independent clock clock' [] s t h = (refl, h)
  fold_clock_independent clock clock' (event ∷ events) s t h =
      go (apply x (clock 0) event s) (apply x (clock' 0) event t)
        (apply-SameSlot (clock 0) (clock' 0) event s t h)
        (fold_clock_independent (λ n. clock (suc n)) (λ n. clock' (suc n)) events)
    where
      go :
          (m n : Result (Unit {0}) × Option Account)
          → (m.0 ≡ n.0) × SameSlot m.1 n.1
          → ((s t : Option Account)
              → SameSlot s t
              → ((fold (account_applier x) (λ n. clock (suc n)) events s).0
                  ≡ (fold (account_applier x) (λ n. clock' (suc n)) events t).0)
                × SameSlot
                    (fold (account_applier x) (λ n. clock (suc n)) events s).1
                    (fold (account_applier x) (λ n. clock' (suc n)) events t).1)
          → ((continue m.0 (λ _. fold (account_applier x) (λ n. clock (suc n)) events) m.1).0
              ≡ (continue n.0 (λ _. fold (account_applier x) (λ n. clock' (suc n)) events) n.1).0)
            × SameSlot
                (continue m.0 (λ _. fold (account_applier x) (λ n. clock (suc n)) events) m.1).1
                (continue n.0 (λ _. fold (account_applier x) (λ n. clock' (suc n)) events) n.1).1
      go (ok _, s) (ok _, t) h ih = ih s t h.1
      go (err e, s) (err f, t) h ih = h
      go (ok _, s) (err f, t) h ih = cc
      go (err e, s) (ok _, t) h ih = cc
