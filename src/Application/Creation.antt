-- ===== src/Application/Creation.antt =====
-- application/src/service/account/create.rs, and `CreateSigningKeyUseCase` of
-- application/src/signing_key.rs: a new account with its profile and its signing key.
pub mod Refusals
pub mod Rows
pub mod Writes
use Prim.Native.String.{String}
use emumet.Prelude.{none, some, any}
use emumet.Kernel.Exec.{Exec, pure, lift, ◌>>=◌, ◌>>◌}
use emumet.Kernel.Account.{Account, AccountId, AuthAccountId, account_applier}
use emumet.Kernel.Account as Account
use emumet.Kernel.Profile.{Profile, ProfileId}
use emumet.Kernel.Profile as Profile
use emumet.Kernel.Permission.{owner, account_target}
use emumet.Kernel.SigningKey.{Cipher, SigningAlgorithm, rsa2048, SigningKey, generate}
use emumet.Kernel.Actor.{builder, key_id}
use emumet.Driver.Accounts.{with_id, link_auth_account}
use emumet.Driver.Accounts.Statements as Accounts
use emumet.Driver.Profiles as Profiles
use emumet.Driver.SigningKeys as SigningKeys
use emumet.Application.World.{on_tables, create_relation, call}
use emumet.Application.AccountDto.{AccountDto, CreateAccountDto, from_account}
use emumet.Application.DetailWorld.{
  DetailWorld, DetailEnvironment, on_world, on_profiles, on_signing_keys, detail_transaction,
  generate_id, generate_nanoid, constructed,
}
use emumet.Application.DetailUpdate.{save_account, save_profile, references}

module _ (env : DetailEnvironment) (cipher : Cipher) (public_base_url : String) where
  unfoldable insert_signing_key : SigningKey → Exec DetailWorld (Unit {0})
  insert_signing_key key w =
      on_signing_keys (SigningKeys.create (λ id. any (with_id id) w.world.tables.accounts) key) w

  -- `CreateSigningKeyUseCase::create`
  unfoldable pub create_signing_key :
      AccountId → String → SigningAlgorithm → Exec DetailWorld SigningKey
  unfolding generate insert_signing_key builder key_id
  create_signing_key account_id nanoid algorithm = do
    password ← lift cipher.get_password
    pair ← lift (generate cipher password)
    id ← generate_id env
    let key : SigningKey = record {
      id = id;
      account_id = account_id;
      algorithm = algorithm;
      encrypted_private_key = pair.encrypted_private_key;
      public_key_pem = pair.public_key_pem;
      key_id_uri = key_id (builder public_base_url nanoid);
      created_at = env.environment.commanded_at;
      revoked_at = none;
    }
    insert_signing_key key
    pure key

  -- the account's event and its row, linked to the principal
  unfoldable pub create_account_row : AuthAccountId → CreateAccountDto → Exec DetailWorld Account
  unfolding save_account
  create_account_row auth_account_id dto = do
    id ← generate_id env
    nanoid ← generate_nanoid env
    event ← save_account env (Account.create id dto.name dto.is_bot nanoid auth_account_id)
    account ← lift (
        constructed (
          (account_applier env.environment.externals).apply env.environment.commanded_at event
            none))
    on_world (on_tables (Accounts.create account))
    on_world (on_tables (link_auth_account id auth_account_id))
    pure account

  unfoldable insert_profile : Profile → Exec DetailWorld (Unit {0})
  insert_profile profile w = on_profiles (Profiles.create (references env w) profile) w

  -- the profile, whose display name is the account's name
  unfoldable pub create_profile_row : AccountId → String → Exec DetailWorld (Unit {0})
  unfolding save_profile insert_profile Profile.apply
  create_profile_row account_id display_name = do
    id ← generate_id env
    nanoid ← generate_nanoid env
    event ←
        save_profile env (Profile.create id account_id (some display_name) none none none nanoid)
    profile ← lift (constructed (Profile.apply event none))
    insert_profile profile

  -- the body of the transaction
  unfoldable pub create_rows : AuthAccountId → CreateAccountDto → Exec DetailWorld Account
  unfolding create_account_row create_profile_row create_signing_key
  create_rows auth_account_id dto = do
    account ← create_account_row auth_account_id dto
    create_profile_row account.id dto.name
    create_signing_key account.id account.nanoid rsa2048
    pure account

  -- the owner is told to the relation service after the commit
  unfoldable pub create_account : AuthAccountId → CreateAccountDto → Exec DetailWorld AccountDto
  unfolding create_rows detail_transaction call from_account
  create_account auth_account_id dto = do
    account ← detail_transaction (create_rows auth_account_id dto)
    on_world
        (call env.environment (create_relation (account_target account.id owner) auth_account_id))
    pure (from_account account)
