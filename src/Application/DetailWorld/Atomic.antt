-- ===== src/Application/DetailWorld/Atomic.antt =====
-- Requests that leave no row behind when they fail: a rule for each way to build one.
use emumet.Prelude.{◌≡◌, ◌≢◌, refl, ap, subst, sym, ◌∙◌}
use emumet.Kernel.Error.{KernelError, Result, ok, err}
use emumet.Kernel.Exec.{Exec, lift, continue, ◌>>=◌}
use emumet.Application.DetailWorld.{DetailWorld, roll_back_details, detail_transaction, settle}

-- the rows of every table, and the calls of the relation service, are the same
pub record SameRows (w w' : DetailWorld) : Type 0 where
  pub events : w'.world.events.rows ≡ w.world.events.rows
  pub tables : w'.world.tables ≡ w.world.tables
  pub calls : w'.world.calls ≡ w.world.calls
  pub profile_events : w'.profile_events.rows ≡ w.profile_events.rows
  pub profiles : w'.profiles ≡ w.profiles
  pub metadata_events : w'.metadata_events.rows ≡ w.metadata_events.rows
  pub metadata : w'.metadata ≡ w.metadata
  pub images : w'.images ≡ w.images
  pub signing_keys : w'.signing_keys ≡ w.signing_keys

pub SameRows-roll_back : (w w' : DetailWorld) → SameRows w (roll_back_details w w')
SameRows-roll_back w w' = record {
  events = refl;
  tables = refl;
  calls = refl;
  profile_events = refl;
  profiles = refl;
  metadata_events = refl;
  metadata = refl;
  images = refl;
  signing_keys = refl;
}

-- an error leaves no row
pub record LeavesRows {A : Type 0} (m : Exec DetailWorld A) : Type 0 where
  pub at : (w : DetailWorld) (e : KernelError) → (m w).0 ≡ err e → SameRows w (m w).1

-- no error
pub record NeverFails {A : Type 0} (m : Exec DetailWorld A) : Type 0 where
  pub at : (w : DetailWorld) → (a : A) × ((m w).0 ≡ ok a)

pub record ReadOnly {A : Type 0} (m : Exec DetailWorld A) : Type 0 where
  pub at : (w : DetailWorld) → (m w).1 ≡ w

ok≢err : {B : Type 0} {b : B} {e : KernelError} → ok b ≢ err e
ok≢err h = cc

module _ {A B : Type 0} where
  -- what follows a settled transaction
  abbrev settled :
      (f : A → Exec DetailWorld B) → DetailWorld → Result A × DetailWorld → Result B × DetailWorld
  settled f w p = continue (settle w p.0 p.1).0 f (settle w p.0 p.1).1

  pub transaction_failed :
      (m : Exec DetailWorld A) (f : A → Exec DetailWorld B) (w : DetailWorld) (e : KernelError)
      → (m w).0 ≡ err e
      → (detail_transaction m >>= f) w ≡ (err e, roll_back_details w (m w).1)
  unfolding detail_transaction
  transaction_failed m f w e h = ap (λ (r : Result A). settled f w (r, (m w).1)) h

  pub transaction_done :
      (m : Exec DetailWorld A) (f : A → Exec DetailWorld B) (w w' : DetailWorld) (a : A)
      → m w ≡ (ok a, w')
      → (detail_transaction m >>= f) w ≡ f a w'
  unfolding detail_transaction
  transaction_done m f w w' a h = ap (settled f w) h

  after_transaction :
      (m : Exec DetailWorld A) (f : A → Exec DetailWorld B) (w : DetailWorld) (e : KernelError)
      (r : Result A)
      → ((a : A) → NeverFails (f a))
      → (m w).0 ≡ r
      → ((detail_transaction m >>= f) w).0 ≡ err e
      → SameRows w ((detail_transaction m >>= f) w).1
  after_transaction m f w e (err k) total h failed =
      subst (λ (p : Result B × DetailWorld). SameRows w p.1) (sym (transaction_failed m f w k h))
        (SameRows-roll_back w (m w).1)
  after_transaction m f w e (ok a) total h failed =
      let (b, done) = (total a).at (m w).1 in
      let same : (detail_transaction m >>= f) w ≡ f a (m w).1 =
        transaction_done m f w (m w).1 a (ap (λ (r : Result A). (r, (m w).1)) h) in
      absurd (ok≢err (sym done ∙ ap (λ (p : Result B × DetailWorld). p.0) (sym same) ∙ failed))

  pub LeavesRows-transaction :
      (m : Exec DetailWorld A) (f : A → Exec DetailWorld B)
      → ((a : A) → NeverFails (f a))
      → LeavesRows (detail_transaction m >>= f)
  LeavesRows-transaction m f total = record {
    at = λ w e failed. after_transaction m f w e _ total refl failed;
  }

  pub LeavesRows-lift :
      (r : Result A) (f : A → Exec DetailWorld B)
      → ((a : A) → LeavesRows (f a))
      → LeavesRows (lift r >>= f)
  LeavesRows-lift (ok a) f h = record { at = λ w e failed. (h a).at w e failed }
  LeavesRows-lift (err e) f h = record { at = λ w k failed. SameRows-roll_back w w }

  continue-SameRows :
      (r : Result A) (f : A → Exec DetailWorld B) (s w : DetailWorld) (e : KernelError)
      → s ≡ w
      → ((a : A) → LeavesRows (f a))
      → (continue r f s).0 ≡ err e
      → SameRows w (continue r f s).1
  continue-SameRows (ok a) f s w e p h failed =
      subst (λ v. SameRows v (f a s).1) p ((h a).at s e failed)
  continue-SameRows (err k) f s w e p h failed =
      subst (λ v. SameRows v s) p (SameRows-roll_back s s)

  pub LeavesRows-read :
      (m : Exec DetailWorld A) (f : A → Exec DetailWorld B)
      → ReadOnly m
      → ((a : A) → LeavesRows (f a))
      → LeavesRows (m >>= f)
  LeavesRows-read m f r h = record {
    at = λ w e failed. continue-SameRows (m w).0 f (m w).1 w e (r.at w) h failed;
  }
