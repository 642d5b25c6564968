-- ===== src/Application/Lifecycle/Outcomes.antt =====
-- What the owners' requests do to the account that loads afterwards.
use Prim.Native.String.{String}
use emumet.Prelude.{◌≡◌, refl, List, [], ◌∷◌, Option, none, some, Bool, true, arith, ◌++◌}
use emumet.Kernel.Error.{Result, ok, err}
use emumet.Kernel.Exec.{Exec, continue}
use emumet.Kernel.Event.{OffsetDateTime}
use emumet.Kernel.Rehydrated.{Rehydrated}
use emumet.Kernel.FieldAction.{FieldAction}
use emumet.Kernel.Account.{
  Account, AccountId, AuthAccountId, AccountCommand, update, deactivate, reactivate, apply,
}
use emumet.Kernel.Permission.{AccountRelation, account_target, check_permission, account_deactivate}
use emumet.Driver.EventStore.Appends.{IsFresh}
use emumet.Driver.Accounts.{is_linked_including_deleted}
use emumet.Application.World.{
  World, Environment, RelationCall, create_relation, delete_relation, call,
}
use emumet.Application.Aggregate.Change.{Loads, replayed, recorded, change-Loads}
use emumet.Application.Lifecycle.{
  relations, may_reactivate, new_is_bot, for_relations, find_filtered, find_including_deleted,
  deactivate_account, reactivate_account,
}

continue-events :
    (r : Result (Unit {0})) (m : Exec World (Unit {0})) (w : World)
    → (m w).1.events ≡ w.events
    → (continue r (λ _. m) w).1.events ≡ w.events
continue-events (ok a) m w h = h
continue-events (err e) m w h = refl

-- The calls of the relation service write no event, whatever its answers are.
pub for_relations-events :
    (env : Environment) (request : AccountRelation → RelationCall) (rs : List AccountRelation)
    (w : World)
    → (for_relations env request rs w).1.events ≡ w.events
unfolding for_relations call
for_relations-events env request [] w = refl
for_relations-events env request (r ∷ rs) w =
    let w' = record w { calls = w.calls ++ request r ∷ [] } in
    continue-events (env.respond (request r)) (for_relations env request rs) w'
      (for_relations-events env request rs w')

Loads-for_relations :
    (env : Environment) (request : AccountRelation → RelationCall) (id : AccountId)
    (loaded : Rehydrated Account) (w : World)
    → Loads env id w loaded
    → Loads env id (for_relations env request relations w).1 loaded
Loads-for_relations env request id loaded w loads =
    rw (for_relations-events env request relations w) loads

-- the account with another deactivation time, at the version of the event that set it
abbrev pub with_deleted_at :
    Option OffsetDateTime → Environment → Rehydrated Account → Rehydrated Account
with_deleted_at deleted_at env loaded = record {
  aggregate = record loaded.aggregate { deleted_at = deleted_at; version = env.generated };
  version = env.generated;
}

abbrev update_command : AccountId → FieldAction Bool → Rehydrated Account → AccountCommand
update_command id is_bot l = update id (new_is_bot is_bot l.aggregate) l.version

-- the account with the flag that the field action writes, at the version of the event that set it
abbrev pub with_is_bot : FieldAction Bool → Environment → Rehydrated Account → Rehydrated Account
with_is_bot is_bot env loaded = record {
  aggregate = record loaded.aggregate {
    is_bot = new_is_bot is_bot loaded.aggregate;
    version = env.generated;
  };
  version = env.generated;
}

module _ (env : Environment) (nanoid : String) (w : World) (projection : Account)
    (loaded : Rehydrated Account) (loads : Loads env projection.id w loaded)
    (fresh : IsFresh env.generated w.events) where
  -- If the filtered read model shows the account, the relation service lets the subject deactivate
  -- it, the account loads from its stream as not deactivated, and the generated version is fresh,
  -- then after the request it loads as deactivated, otherwise as before, whatever the relation
  -- service answers to the calls that follow.
  pub deactivate_account_lem :
      (auth_account_id : AuthAccountId)
      → find_filtered env nanoid w ≡ (ok projection, w)
      → check_permission env.check (account_deactivate projection.id) ≡ ok tt
      → loaded.aggregate.deleted_at ≡ none
      → Loads env projection.id
          (deactivate_account env auth_account_id nanoid w).1
          (with_deleted_at (some (replayed env projection.id w)) env loaded)
  unfolding deactivate_account
  deactivate_account_lem auth_account_id found allowed live =
      let (done, after) =
        change-Loads env projection.id (λ account. ok tt) (λ l. deactivate projection.id l.version)
          w loaded loads
          (with_deleted_at (some (replayed env projection.id w)) env loaded).aggregate refl
          (unfold deactivate in refl) (unfold deactivate in refl) fresh
          (unfold deactivate apply in ground arith) in
      rw (found, continue, allowed, done)
        (Loads-for_relations env
          (λ relation. delete_relation (account_target projection.id relation) auth_account_id)
          projection.id _ (recorded env (deactivate projection.id loaded.version) w) after)

  -- If the read model has the account, the subject is linked with it, it loads from its stream as
  -- deactivated, and the generated version is fresh, then after the request it loads as not
  -- deactivated, otherwise as before, whatever the relation service answers to the calls that
  -- follow.
  pub reactivate_account_lem :
      (auth_account_id : AuthAccountId)
      → find_including_deleted env nanoid w ≡ (ok projection, w)
      → is_linked_including_deleted auth_account_id projection.id w.tables ≡ (ok true, w.tables)
      → may_reactivate loaded.aggregate ≡ ok tt
      → Loads env projection.id
          (reactivate_account env auth_account_id nanoid w).1
          (with_deleted_at none env loaded)
  unfolding reactivate_account
  reactivate_account_lem auth_account_id found linked may =
      let (done, after) =
        change-Loads env projection.id may_reactivate (λ l. reactivate projection.id l.version) w
          loaded loads (with_deleted_at none env loaded).aggregate may (unfold reactivate in refl)
          (unfold reactivate in refl) fresh
          (unfold reactivate apply may_reactivate in ground arith) in
      rw (found, continue, linked, done)
        (Loads-for_relations env
          (λ relation. create_relation (account_target projection.id relation) auth_account_id)
          projection.id _ (recorded env (reactivate projection.id loaded.version) w) after)
