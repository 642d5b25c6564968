-- ===== src/Application/Aggregate.antt =====
-- The steps that the account use cases of application/src/service/account/ share: finding the account
-- that the read model shows, and the transaction that loads it, checks it and saves a command.
pub mod Change
use Prim.Native.String.{String}
use emumet.Kernel.Error.{Result, not_found, ok_or}
use emumet.Kernel.Exec.{Exec, pure, lift, ◌>>=◌, ◌>>◌}
use emumet.Kernel.Event.{EventEnvelope}
use emumet.Kernel.Rehydrated.{Rehydrated}
use emumet.Kernel.Account.{Account, AccountEvent, AccountId, AccountCommand}
use emumet.Driver.Repository.{account_repository}
use emumet.Driver.Accounts.{find_by_nanoid_unfiltered}
use emumet.Application.World.{World, Environment, on_events, on_tables, transaction}

module _ (env : Environment) where
  -- `account_repository().load(..)` inside the transaction
  unfoldable pub load : AccountId → Exec World (Rehydrated Account)
  load id = on_events ((account_repository env.externals).load env.replayed_at id)

  unfoldable pub save : AccountCommand → Exec World (EventEnvelope AccountEvent)
  save command = on_events ((account_repository env.externals).save env.generated command)

  -- the account that the read model shows for the nanoid, or `NotFound`
  unfoldable pub find_unfiltered : String → Exec World Account
  unfolding find_by_nanoid_unfiltered
  find_unfiltered nanoid = do
    projection ← on_tables (find_by_nanoid_unfiltered env.queried_at nanoid)
    lift (ok_or not_found projection)

  -- the body of each transaction: load, check the aggregate, save the command made at its version
  unfoldable pub change :
      AccountId
      → (Account → Result (Unit {0}))
      → (Rehydrated Account → AccountCommand)
      → Exec World (Unit {0})
  change id guard command = do
    loaded ← load id
    lift (guard loaded.aggregate)
    save (command loaded)
    pure tt
