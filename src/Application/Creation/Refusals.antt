-- ===== src/Application/Creation/Refusals.antt =====
-- What is left of a creation that fails.
use Prim.Native.String.{String}
use emumet.Prelude.{◌≡◌, refl, sym, ◌∙◌, subst, [], ◌∷◌, ◌++◌}
use emumet.Kernel.Error.{KernelError, Result, ok, err, map_ok}
use emumet.Kernel.Exec.{pure, continue}
use emumet.Kernel.Account.{Account, AuthAccountId}
use emumet.Kernel.Permission.{owner, account_target}
use emumet.Kernel.SigningKey.{Cipher}
use emumet.Application.World.{RelationCall, create_relation, call}
use emumet.Application.AccountDto.{AccountDto, CreateAccountDto, from_account}
use emumet.Application.DetailWorld.{DetailWorld, DetailEnvironment}
use emumet.Application.DetailWorld.Atomic.{
  SameRows, SameRows-roll_back, transaction_failed, transaction_done,
}
use emumet.Application.Creation.{create_rows, create_account}

continue-pure :
    {S A B : Type 0} (r : Result A) (b : B) (s : S)
    → continue r (λ _. pure b) s ≡ (map_ok (λ _. b) r, s)
continue-pure (ok a) b s = refl
continue-pure (err e) b s = refl

module _ (env : DetailEnvironment) (cipher : Cipher) (base : String) where
  -- If the transaction of a creation fails, the request answers with its error and no row of any
  -- table and no call of the relation service is left of it.
  pub create_account-SameRows :
      (auth_account_id : AuthAccountId) (dto : CreateAccountDto) (w : DetailWorld) (e : KernelError)
      → (create_rows env cipher base auth_account_id dto w).0 ≡ err e
      → ((create_account env cipher base auth_account_id dto w).0 ≡ err e)
        × SameRows w (create_account env cipher base auth_account_id dto w).1
  unfolding create_account
  create_account-SameRows auth_account_id dto w e h =
      let rows = create_rows env cipher base auth_account_id dto in
      subst (λ (p : Result AccountDto × DetailWorld). (p.0 ≡ err e) × SameRows w p.1)
        (sym (transaction_failed rows _ w e h)) (refl, SameRows-roll_back w (rows w).1)

  -- If the rows are written, the account, its profile and its key stay, and the relation service is
  -- told of the owner, whatever it answers: an error of it is the answer of the request.
  pub create_account-committed :
      (auth_account_id : AuthAccountId) (dto : CreateAccountDto) (w w' : DetailWorld)
      (account : Account)
      → create_rows env cipher base auth_account_id dto w ≡ (ok account, w')
      → let request : RelationCall =
          create_relation (account_target account.id owner) auth_account_id in
        create_account env cipher base auth_account_id dto w ≡ (
          map_ok (λ _. from_account account) (env.environment.respond request),
          record w' { world = record w'.world { calls = w'.world.calls ++ request ∷ [] } },
        )
  unfolding create_account call
  create_account-committed auth_account_id dto w w' account h =
      transaction_done (create_rows env cipher base auth_account_id dto) _ w w' account h
      ∙ continue-pure
          (env.environment.respond
            (create_relation (account_target account.id owner) auth_account_id))
          (from_account account) _
