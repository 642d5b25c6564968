-- ===== src/Application/Lifecycle.antt =====
-- application/src/service/account/{deactivate,reactivate,update}.rs: what owners do to an account.
pub mod Outcomes
pub mod Poison
use Prim.Native.String.{String}
use emumet.Prelude.{Option, Bool, true, false, not, List, [], ◌∷◌, is_some, is_none, if◌then◌else◌}
use emumet.Kernel.Error.{Result, ok, err, rejected, not_found, permission_denied, ok_or, ensure}
use emumet.Kernel.Exec.{Exec, pure, lift, ◌>>=◌, ◌>>◌}
use emumet.Kernel.Rehydrated.{Rehydrated}
use emumet.Kernel.FieldAction.{FieldAction, unchanged, clear, set}
use emumet.Kernel.Account.{
  Account, AccountId, AuthAccountId, is_active, update, deactivate, reactivate,
}
use emumet.Kernel.Permission.{
  AccountRelation, owner, editor, signer, RelationTarget, account_target, check_permission,
  account_edit, account_deactivate,
}
use emumet.Driver.Accounts.{
  find_by_nanoid, find_by_nanoid_including_deleted, is_linked_including_deleted,
}
use emumet.Application.World.{
  World, Environment, RelationCall, create_relation, delete_relation, on_tables, transaction, call,
}
use emumet.Application.Aggregate.{find_unfiltered, change}

abbrev pub relations : List AccountRelation
relations = owner ∷ editor ∷ signer ∷ []

unfoldable pub may_reactivate : Account → Result (Unit {0})
may_reactivate account = ensure (not (is_none account.deleted_at)) rejected

unfoldable pub new_is_bot : FieldAction Bool → Account → Bool
new_is_bot unchanged account = account.is_bot
new_is_bot clear account = false
new_is_bot (set value) account = value

unfoldable pub may_update : Account → Result (Unit {0})
may_update account =
    if is_active account.status
    then ensure (not (is_some account.deleted_at)) rejected
    else err rejected

module _ (env : Environment) where
  -- `for relation in [..] { ..(relation).await?; }`
  unfoldable pub for_relations :
      (AccountRelation → RelationCall) → List AccountRelation → Exec World (Unit {0})
  for_relations request [] = pure tt
  for_relations request (relation ∷ rest) =
      call env (request relation) >> for_relations request rest

  unfoldable pub find_filtered : String → Exec World Account
  find_filtered nanoid = do
    projection ← on_tables (find_by_nanoid env.queried_at nanoid)
    lift (ok_or not_found projection)

  unfoldable pub find_including_deleted : String → Exec World Account
  find_including_deleted nanoid = do
    projection ← on_tables (find_by_nanoid_including_deleted env.queried_at nanoid)
    lift (ok_or not_found projection)

  -- the transaction saves without a look at the loaded account
  unfoldable pub deactivate_account : AuthAccountId → String → Exec World (Unit {0})
  deactivate_account auth_account_id nanoid = do
    projection ← find_filtered nanoid
    lift (check_permission env.check (account_deactivate projection.id))
    transaction (
        change env projection.id (λ account. ok tt)
          (λ loaded. deactivate projection.id loaded.version))
    for_relations
        (λ relation. delete_relation (account_target projection.id relation) auth_account_id)
        relations

  unfoldable pub reactivate_account : AuthAccountId → String → Exec World (Unit {0})
  reactivate_account auth_account_id nanoid = do
    projection ← find_including_deleted nanoid
    linked ← on_tables (is_linked_including_deleted auth_account_id projection.id)
    lift (ensure linked permission_denied)
    transaction (
        change env projection.id may_reactivate (λ loaded. reactivate projection.id loaded.version))
    for_relations
        (λ relation. create_relation (account_target projection.id relation) auth_account_id)
        relations

  -- the one use case that runs on a plain connection, outside a transaction
  unfoldable pub update_account : String → FieldAction Bool → Exec World (Unit {0})
  update_account nanoid is_bot = do
    projection ← find_unfiltered env nanoid
    lift (check_permission env.check (account_edit projection.id))
    change env projection.id may_update
        (λ loaded. update projection.id (new_is_bot is_bot loaded.aggregate) loaded.version)
