-- ===== src/Application/Aggregate/Change.antt =====
-- What the transaction of a use case leaves behind.
use emumet.Prelude.{◌≡◌, ap, subst, sym, some, length}
use emumet.Kernel.Error.{Result, ok}
use emumet.Kernel.Exec.{continue}
use emumet.Kernel.Event.{OffsetDateTime, EventEnvelope, at}
use emumet.Kernel.Rehydrated.{Rehydrated}
use emumet.Kernel.Account.{Account, AccountEvent, AccountId, AccountCommand, apply, account_applier}
use emumet.Driver.EventStore.{EventTable, to_event}
use emumet.Driver.EventStore.Appends.{IsFresh, appended, stream}
use emumet.Driver.Repository.{account_repository}
use emumet.Driver.Repository.SaveLoad
use emumet.Application.World.{World, Environment, transaction}
use emumet.Application.Aggregate.{load, save, change}

module _ (env : Environment) where
  -- the account loads, under the request's clock
  abbrev pub Loads : AccountId → World → Rehydrated Account → Type 0
  Loads id w loaded =
      SaveLoad.load (account_applier env.externals) env.replayed_at id w.events
      ≡ (ok loaded, w.events)

  -- the instant that a load reads for an event that is appended to this stream
  abbrev pub replayed : AccountId → World → OffsetDateTime
  replayed id w = env.replayed_at (length (stream id w.events))

  abbrev pub recorded : AccountCommand → World → World
  recorded command w = record w { events = appended (to_event command env.generated) w.events }

module _ (env : Environment) (id : AccountId) (guard : Account → Result (Unit {0}))
    (command : Rehydrated Account → AccountCommand) (w : World) (loaded : Rehydrated Account)
    (loads : Loads env id w loaded) where
  load-eq : load env id w ≡ (ok loaded, w)
  unfolding load account_repository
  load-eq =
      ap
        (λ (r : Result (Rehydrated Account) × EventTable AccountEvent).
          (r.0, record w { events = r.1 }))
        loads

  save-eq :
      (command loaded).id ≡ id
      → (command loaded).prev_version ≡ some (at loaded.version)
      → IsFresh env.generated w.events
      → save env (command loaded) w
        ≡ (ok (to_event (command loaded) env.generated), recorded env (command loaded) w)
  unfolding save account_repository
  save-eq same at_version fresh =
      ap
        (λ (r : Result (EventEnvelope AccountEvent) × EventTable AccountEvent).
          (r.0, record w { events = r.1 }))
        (SaveLoad.save-eq (account_applier env.externals) env.generated (command loaded) w.events
          at_version
          (rw same (
            SaveLoad.max_version_of_load (account_applier env.externals) env.replayed_at id w.events
              loads))
          fresh)

  -- Without a transaction it is the same.
  pub changes :
      guard loaded.aggregate ≡ ok tt
      → (command loaded).id ≡ id
      → (command loaded).prev_version ≡ some (at loaded.version)
      → IsFresh env.generated w.events
      → change env id guard command w ≡ (ok tt, recorded env (command loaded) w)
  unfolding change
  changes passes same at_version fresh =
      rw (load-eq, continue, passes, save-eq same at_version fresh)

  -- If the guard passes, the command's event is appended, and nothing else changes.
  pub change-eq :
      guard loaded.aggregate ≡ ok tt
      → (command loaded).id ≡ id
      → (command loaded).prev_version ≡ some (at loaded.version)
      → IsFresh env.generated w.events
      → transaction (change env id guard command) w ≡ (ok tt, recorded env (command loaded) w)
  unfolding change transaction
  change-eq passes same at_version fresh =
      let e = changes passes same at_version fresh in rw (e, transaction, e)

  -- If the event applies, the account loads after the transaction, with the event applied.
  pub change-Loads :
      (next : Account)
      → guard loaded.aggregate ≡ ok tt
      → (command loaded).id ≡ id
      → (command loaded).prev_version ≡ some (at loaded.version)
      → IsFresh env.generated w.events
      → (apply env.externals
            (replayed env (command loaded).id w)
            (to_event (command loaded) env.generated)
            (some loaded.aggregate)
          ≡ (ok tt, some next))
      → (transaction (change env id guard command) w ≡ (ok tt, recorded env (command loaded) w))
        × Loads env id
            (recorded env (command loaded) w)
            (record { aggregate = next; version = env.generated })
  change-Loads next passes same at_version fresh applies = (
    change-eq passes same at_version fresh,
    subst
        (λ i.
          Loads env i (recorded env (command loaded) w)
            (record { aggregate = next; version = env.generated }))
        same
        (SaveLoad.load-appended (account_applier env.externals) env.replayed_at env.generated
          (command loaded) w.events (subst (λ i. Loads env i w loaded) (sym same) loads) fresh
          (unfold account_applier in applies)),
  )
