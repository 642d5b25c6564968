-- ===== src/Application/Creation/Rows.antt =====
-- What a creation leaves, whatever happens.
use Prim.Native.String.{String}
use emumet.Prelude.{
  ℕ, ◌≡◌, refl, sym, subst, ◌∙◌, ap, none, some, true, any, List, [], ◌∷◌, ◌++◌, inl, inr, ◌⊎◌,
  none,
}
use emumet.Kernel.Error.{KernelError, Result, ok, err, map_ok}
use emumet.Kernel.Exec.{pure, lift}
use emumet.Kernel.Actor as Actor
use emumet.Kernel.Actor.{builder}
use emumet.Application.World.{on_tables}
use emumet.Kernel.Account.{
  create_entity, Account, AccountId, AuthAccountId, account_applier, AccountEvent,
}
use emumet.Kernel.Account as Account
use emumet.Kernel.Profile.{Profile, ProfileEvent}
use emumet.Kernel.Profile as Profile
use emumet.Kernel.SigningKey.{Cipher, SigningKey, rsa2048, generate, GeneratedKeyPair}
use emumet.Driver.Accounts.{with_id, is_link, link_auth_account}
use emumet.Driver.Accounts.Statements as Accounts
use emumet.Driver.SigningKeys.{is_active_key}
use emumet.Application.World.{RelationCall, create_relation}
use emumet.Application.AccountDto.{AccountDto, CreateAccountDto, from_account}
use emumet.Kernel.Permission.{owner, account_target}
use emumet.Application.DetailWorld.Atomic.{SameRows}
use emumet.Application.Creation.Refusals.{create_account-SameRows, create_account-committed}
use emumet.Application.DetailWorld.{
  DetailWorld, DetailEnvironment, constructed, generate_id, generate_nanoid, on_world,
}
use emumet.Application.DetailUpdate.{save_account, save_profile, references}
use emumet.Application.Creation.{
  insert_profile, insert_signing_key, create_account_row, create_profile_row, create_signing_key,
  create_rows, create_account,
}
use emumet.Application.Creation.Writes.{
  Triple, Triple-bind, ok_injective, link-rows, create-row, profile-row, key-row, Seen, Sees, IsOf,
  save_account-IsOf, save_profile-IsOf, account-id, profile-account_id, is_of,
}

module _ (env : DetailEnvironment) (cipher : Cipher) (base : String) (auth_id : AuthAccountId)
    (called : List RelationCall) where
  abbrev Called : Seen
  Called tables profiles keys calls = calls ≡ called

  abbrev HasAccount : AccountId → Seen
  HasAccount id tables profiles keys calls =
      (any (with_id id) tables.accounts ≡ true)
      × (any (is_link id auth_id) tables.links ≡ true)
      × (calls ≡ called)

  abbrev HasProfile : AccountId → Seen
  HasProfile id tables profiles keys calls =
      (any (is_of id) profiles ≡ true) × HasAccount id tables profiles keys calls

  abbrev HasKey : AccountId → Seen
  HasKey id tables profiles keys calls =
      (any (is_active_key id) keys ≡ true) × HasProfile id tables profiles keys calls

  abbrev Stored : AccountId → Account → DetailWorld → Type 0
  Stored id account w =
      (account.id ≡ id)
      × (any (with_id account.id) w.world.tables.accounts ≡ true)
      × (w.world.calls ≡ called)

  create_account_row-HasAccount :
      (dto : CreateAccountDto)
      → Triple
          (Sees Called)
          (create_account_row env cipher base auth_id dto)
          (λ a. Sees (HasAccount a.id))
  unfolding create_account_row Account.create
  create_account_row-HasAccount dto =
      Triple-bind (generate_id env) _ (λ _. Sees Called) (record { at = λ w a p h. p })
        λ id.
          Triple-bind (generate_nanoid env) _ (λ _. Sees Called) (record { at = λ w a p h. p })
            λ nanoid.
              let command = Account.create id dto.name dto.is_bot nanoid auth_id in
              Triple-bind (save_account env command) _
                (λ event w. Sees Called w × IsOf command event)
                (save_account-IsOf env Called command)
                λ event.
                  Triple-bind
                    (lift (
                      constructed (
                        (account_applier env.environment.externals).apply
                          env.environment.commanded_at event none)))
                    _ (λ account w. (account.id ≡ id) × Sees Called w)
                    (record {
                      at = λ w account p h. (
                        account-id env.environment.externals env.environment.commanded_at event
                              account dto.name dto.is_bot nanoid auth_id p.1.1 h
                            ∙ p.1.0,
                        p.0,
                      );
                    })
                    λ account.
                      Triple-bind (on_world (on_tables (Accounts.create account))) _
                        (λ _. Stored id account)
                        (record {
                          at = λ w b p h. (p.0, create-row account w.world.tables b h, p.1);
                        })
                        λ _.
                          Triple-bind (on_world (on_tables (link_auth_account id auth_id)))
                            (λ _. pure account) (λ _. Sees (HasAccount account.id))
                            (record {
                              at = λ w b p h.
                                  let (linked, same) = link-rows id auth_id w.world.tables b h in
                                  (
                                    ap (any (with_id account.id)) same ∙ p.1,
                                    subst
                                        (λ i.
                                          any (is_link i auth_id)
                                            (link_auth_account id auth_id w.world.tables).1.links
                                          ≡ true)
                                        (sym p.0) linked,
                                    p.2,
                                  );
                            })
                            λ _. record {
                              at = λ w a p h.
                                  subst (λ (v : Account). Sees (HasAccount v.id) w) (ok_injective h)
                                    p;
                            }

  create_profile_row-HasProfile :
      (id : AccountId) (name : String)
      → Triple
          (Sees (HasAccount id))
          (create_profile_row env cipher base id name)
          (λ _. Sees (HasProfile id))
  unfolding create_profile_row Profile.create insert_profile
  create_profile_row-HasProfile id name =
      Triple-bind (generate_id env) _ (λ _. Sees (HasAccount id)) (record { at = λ w a p h. p })
        λ profile_id.
          Triple-bind (generate_nanoid env) _ (λ _. Sees (HasAccount id))
            (record { at = λ w a p h. p })
            λ nanoid.
              let command = Profile.create profile_id id (some name) none none none nanoid in
              Triple-bind (save_profile env command) _
                (λ event w. Sees (HasAccount id) w × IsOf command event)
                (save_profile-IsOf env (HasAccount id) command)
                λ event.
                  Triple-bind (lift (constructed (Profile.apply event none)))
                    (insert_profile env cipher base)
                    (λ profile w. (profile.account_id ≡ id) × Sees (HasAccount id) w)
                    (record {
                      at = λ w profile p h. (
                        profile-account_id event profile id (some name) none none none nanoid p.1.1
                            h,
                        p.0,
                      );
                    })
                    λ profile. record {
                      at = λ w b p h. (
                        subst
                            (λ i.
                              any (is_of i) (insert_profile env cipher base profile w).1.profiles
                              ≡ true)
                            p.0 (profile-row (references env w) profile w.profiles b h),
                        p.1,
                      );
                    }

  create_signing_key-HasKey :
      (id : AccountId) (nanoid : String)
      → Triple
          (Sees (HasProfile id))
          (create_signing_key env cipher base id nanoid rsa2048)
          (λ _. Sees (HasKey id))
  unfolding create_signing_key insert_signing_key
  create_signing_key-HasKey id nanoid =
      let made : ℕ → GeneratedKeyPair → SigningKey = λ key_id pair. record {
        id = key_id;
        account_id = id;
        algorithm = rsa2048;
        encrypted_private_key = pair.encrypted_private_key;
        public_key_pem = pair.public_key_pem;
        key_id_uri = Actor.key_id (builder base nanoid);
        created_at = env.environment.commanded_at;
        revoked_at = none;
      } in
      Triple-bind (lift cipher.get_password) _ (λ _. Sees (HasProfile id))
        (record { at = λ w a p h. p })
        λ password.
          Triple-bind (lift (generate cipher password)) _ (λ _. Sees (HasProfile id))
            (record { at = λ w a p h. p })
            λ pair.
              Triple-bind (generate_id env) _ (λ _. Sees (HasProfile id))
                (record { at = λ w a p h. p })
                λ key_id.
                  Triple-bind (insert_signing_key env cipher base (made key_id pair))
                    (λ _. pure (made key_id pair)) (λ _. Sees (HasKey id))
                    (record {
                      at = λ w b p h. (
                        key-row (λ i. any (with_id i) w.world.tables.accounts) (made key_id pair)
                            w.signing_keys b refl h,
                        p,
                      );
                    })
                    λ _. record { at = λ w a p h. p }

  create_rows-HasKey :
      (dto : CreateAccountDto)
      → Triple (Sees Called) (create_rows env cipher base auth_id dto) (λ a. Sees (HasKey a.id))
  unfolding create_rows
  create_rows-HasKey dto =
      Triple-bind (create_account_row env cipher base auth_id dto) _ (λ a. Sees (HasAccount a.id))
        (create_account_row-HasAccount dto)
        λ account.
          Triple-bind (create_profile_row env cipher base account.id dto.name) _
            (λ _. Sees (HasProfile account.id)) (create_profile_row-HasProfile account.id dto.name)
            λ _.
              Triple-bind (create_signing_key env cipher base account.id account.nanoid rsa2048)
                (λ _. pure account) (λ _. Sees (HasKey account.id))
                (create_signing_key-HasKey account.id account.nanoid)
                λ _. record {
                  at = λ w a p h. subst (λ (v : Account). Sees (HasKey v.id) w) (ok_injective h) p;
                }

module _ (env : DetailEnvironment) (cipher : Cipher) (base : String) (auth_id : AuthAccountId) where
  abbrev owner_request : Account → RelationCall
  owner_request account = create_relation (account_target account.id owner) auth_id

  -- a creation is done: what is stored, what the relation service was told, and what is answered
  pub record IsCreated (w : DetailWorld) (s : Result AccountDto × DetailWorld) : Type 0 where
    pub account : Account
    pub answer :
        s.0 ≡ map_ok (λ _. from_account account) (env.environment.respond (owner_request account))
    pub told : s.1.world.calls ≡ w.world.calls ++ owner_request account ∷ []
    pub has_account : any (with_id account.id) s.1.world.tables.accounts ≡ true
    pub has_link : any (is_link account.id auth_id) s.1.world.tables.links ≡ true
    pub has_profile : any (is_of account.id) s.1.profiles ≡ true
    pub has_key : any (is_active_key account.id) s.1.signing_keys ≡ true

  committed-IsCreated :
      (dto : CreateAccountDto) (w : DetailWorld) (account : Account)
      → (create_rows env cipher base auth_id dto w).0 ≡ ok account
      → IsCreated w (create_account env cipher base auth_id dto w)
  committed-IsCreated dto w account h =
      let rows = create_rows env cipher base auth_id dto w in
      let (key, (profile, (row, link, calls))) =
        (create_rows-HasKey env cipher base auth_id w.world.calls dto).at w account refl h in
      subst (IsCreated w)
        (sym (
          create_account-committed env cipher base auth_id dto w rows.1 account
            (ap (λ (r : Result Account). (r, rows.1)) h)))
        (record {
          account = account;
          answer = refl;
          told = ap (λ l. l ++ owner_request account ∷ []) calls;
          has_account = row;
          has_link = link;
          has_profile = profile;
          has_key = key;
        })

  -- A creation either answers with an error and leaves no row of any table and no call of the
  -- relation service, or there is an account that is stored afterwards, linked to the principal, with
  -- a profile and with a signing key that is not revoked, and the relation service was told of its
  -- owner once and nothing else. In the second case the answer is the account, or the error of the
  -- relation service: the rows stay then too.
  pub create_account_lem :
      (dto : CreateAccountDto) (w : DetailWorld)
      → let s : Result AccountDto × DetailWorld = create_account env cipher base auth_id dto w in
        ((e : KernelError) × (s.0 ≡ err e) × SameRows w s.1) ⊎ IsCreated w s
  create_account_lem dto w = go (create_rows env cipher base auth_id dto w).0 refl
    where
      go :
          (r : Result Account)
          → (create_rows env cipher base auth_id dto w).0 ≡ r
          → ((e : KernelError) × ((create_account env cipher base auth_id dto w).0 ≡ err e)
              × SameRows w (create_account env cipher base auth_id dto w).1)
            ⊎ IsCreated w (create_account env cipher base auth_id dto w)
      go (ok account) h = inr (committed-IsCreated dto w account h)
      go (err e) h =
          let (failed, same) = create_account-SameRows env cipher base auth_id dto w e h in
          inl (e, failed, same)
