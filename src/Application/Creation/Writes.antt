-- ===== src/Application/Creation/Writes.antt =====
-- What one write of a creation leaves when it succeeds, and rules for a run of them.
use Prim.Native.String.{String}
use emumet.Prelude.{
  ℕ, ◌≡◌, ◌≢◌, refl, sym, ap, none, Bool, true, false, any, any-last, List, [], ◌∷◌, ◌++◌, ◌==◌,
  ==_refl, ◌&&◌, if◌then◌else◌, Bool-cases, inl, inr, Option, none,
}
use emumet.Kernel.Error.{KernelError, Result, ok, err, internal}
use emumet.Kernel.Exec.{Exec, pure, continue, ◌>>=◌}
use emumet.Kernel.Event.{EventEnvelope, EventVersion, CommandEnvelope}
use emumet.Kernel.Account.{
  create_entity, Account, AccountId, AuthAccountId, account_applier, AccountEvent,
}
use emumet.Kernel.Account as Account
use emumet.Kernel.Profile.{Profile, ProfileEvent}
use emumet.Kernel.Profile as Profile
use emumet.Kernel.SigningKey.{SigningKey}
use emumet.Driver.Accounts.{
  AccountTables, has_auth_account, to_row, with_id, is_link, link_auth_account,
}
use emumet.Driver.Accounts.Statements as Accounts
use emumet.Driver.EventStore.{EventTable, to_event, persist_internal, persist_and_transform}
use emumet.Driver.Repository.{repository, account_repository, profile_repository}
use emumet.Kernel.Id.{Externals, from_timestamp_ms, extract_timestamp_ms}
use emumet.Driver.Profiles as Profiles
use emumet.Driver.SigningKeys as SigningKeys
use emumet.Driver.SigningKeys.{SigningKeyTable, is_active_key}
use emumet.Application.World.{RelationCall}
use emumet.Application.DetailWorld.{DetailWorld, DetailEnvironment, constructed}
use emumet.Application.DetailUpdate.{save_account, save_profile}

ok≢err : {B : Type 0} {b : B} {e : KernelError} → err e ≢ ok b
ok≢err h = cc

-- what holds after a success, where it held before
pub record Triple {A : Type 0} (P : DetailWorld → Type 0) (m : Exec DetailWorld A)
    (Q : A → DetailWorld → Type 0) : Type 0 where
  pub at : (w : DetailWorld) (a : A) → P w → (m w).0 ≡ ok a → Q a (m w).1

module _ {A B : Type 0} where
  pub Triple-bind :
      {P : DetailWorld → Type 0} {R : B → DetailWorld → Type 0} (m : Exec DetailWorld A)
      (f : A → Exec DetailWorld B) (Q : A → DetailWorld → Type 0)
      → Triple P m Q
      → ((a : A) → Triple (Q a) (f a) R)
      → Triple P (m >>= f) R
  Triple-bind {P = P} {R = R} m f Q first next = record { at = λ w b p h. go w b p (m w).0 refl h }
    where
      go :
          (w : DetailWorld) (b : B)
          → P w
          → (r : Result A) → (m w).0 ≡ r
          → (continue r f (m w).1).0 ≡ ok b
          → R b (continue r f (m w).1).1
      go w b p (ok a) e h = (next a).at (m w).1 b (first.at w a p e) h
      go w b p (err k) e h = absurd (ok≢err h)

-- a write that is refused under a test, or unless it holds
module _ {S : Type 0} (P : S → Type 0) (written left : S) (e : KernelError) (u : Unit {0}) where
  abbrev outcome : Bool → Result (Unit {0}) × S
  outcome b = if b then (ok tt, written) else (err e, left)

  abbrev refusal : Bool → Result (Unit {0}) × S
  refusal b = if b then (err e, left) else (ok tt, written)

  outcome-ok : (b : Bool) → P written → (outcome b).0 ≡ ok u → P (outcome b).1
  outcome-ok true p h = p
  outcome-ok false p h = absurd (ok≢err h)

  refusal-ok : (b : Bool) → P written → (refusal b).0 ≡ ok u → P (refusal b).1
  refusal-ok false p h = p
  refusal-ok true p h = absurd (ok≢err h)

pub ok_injective : {A : Type 0} {a b : A} → ok a ≡ ok b → a ≡ b
ok_injective h = cc

-- one row of each table
pub link-rows :
    (id : AccountId) (auth_id : AuthAccountId) (t : AccountTables) (b : Unit {0})
    → (link_auth_account id auth_id t).0 ≡ ok b
    → (any (is_link id auth_id) (link_auth_account id auth_id t).1.links ≡ true)
      × ((link_auth_account id auth_id t).1.accounts ≡ t.accounts)
unfolding link_auth_account
link-rows id auth_id t b = elim (Bool-cases (any (is_link id auth_id) t.links)) [
  | inl e ↦ rw e (λ h. (e, refl))
  | inr e ↦ rw e (
      outcome-ok
        (λ (s : AccountTables).
          (any (is_link id auth_id) s.links ≡ true) × (s.accounts ≡ t.accounts))
        (record t { links = t.links ++ (id, auth_id) ∷ [] }) t internal b
        (any (with_id id) t.accounts && has_auth_account auth_id t)
        (
          any-last (is_link id auth_id) t.links (id, auth_id)
              (rw (==_refl id, ==_refl auth_id) refl),
          refl,
        ))
]

pub create-row :
    (account : Account) (t : AccountTables) (b : Unit {0})
    → (Accounts.create account t).0 ≡ ok b
    → any (with_id account.id) (Accounts.create account t).1.accounts ≡ true
unfolding Accounts.create to_row
create-row account t b =
    refusal-ok (λ (s : AccountTables). any (with_id account.id) s.accounts ≡ true) _ t internal b _
      (any-last (with_id account.id) t.accounts _ (==_refl account.id))

abbrev pub is_of : AccountId → Profile → Bool
is_of id profile = profile.account_id == id

pub profile-row :
    (keys : Profiles.References) (profile : Profile) (rows : List Profile) (b : Unit {0})
    → (Profiles.create keys profile rows).0 ≡ ok b
    → any (is_of profile.account_id) (Profiles.create keys profile rows).1 ≡ true
unfolding Profiles.create
profile-row keys profile rows b =
    outcome-ok (λ (s : List Profile). any (is_of profile.account_id) s ≡ true)
      (rows ++ profile ∷ []) rows internal b _
      (any-last (is_of profile.account_id) rows profile (==_refl profile.account_id))

pub key-row :
    (has_account : AccountId → Bool) (key : SigningKey) (rows : SigningKeyTable) (b : Unit {0})
    → key.revoked_at ≡ none
    → (SigningKeys.create has_account key rows).0 ≡ ok b
    → any (is_active_key key.account_id) (SigningKeys.create has_account key rows).1 ≡ true
unfolding SigningKeys.create SigningKeys.to_row
key-row has_account key rows b active =
    refusal-ok (λ (s : SigningKeyTable). any (is_active_key key.account_id) s ≡ true) _ rows
      internal b _
      (any-last (is_active_key key.account_id) rows (SigningKeys.to_row key)
        (rw (==_refl key.account_id, active) refl))

-- a predicate on the tables that the requests write, and on the calls of the relation service
abbrev pub Seen : Type 1
Seen = AccountTables → List Profile → SigningKeyTable → List RelationCall → Type 0

abbrev pub Sees : Seen → DetailWorld → Type 0
Sees P w = P w.world.tables w.profiles w.signing_keys w.world.calls

continue-pure-ok :
    {S A B : Type 0} (r : Result A) (b c : B) (s : S)
    → (continue r (λ _. pure b) s).0 ≡ ok c
    → b ≡ c
continue-pure-ok (ok a) b c s h = cc
continue-pure-ok (err e) b c s h = absurd (ok≢err h)

persisted-event :
    {E : Type 0} (version : EventVersion) (command : CommandEnvelope E) (table : EventTable E)
    (event : EventEnvelope E)
    → (persist_and_transform version command table).0 ≡ ok event
    → to_event command version ≡ event
unfolding persist_and_transform
persisted-event version command table event h =
    continue-pure-ok (persist_internal command version table).0 (to_event command version) event
      (persist_internal command version table).1 h

-- the event that a command becomes
abbrev pub IsOf : {E : Type 0} → CommandEnvelope E → EventEnvelope E → Type 0
IsOf command event = (event.id ≡ command.id) × (event.event ≡ command.event)

module _ (env : DetailEnvironment) (P : Seen) where
  pub save_account-IsOf :
      (command : CommandEnvelope AccountEvent)
      → Triple (Sees P) (save_account env command) (λ event w. Sees P w × IsOf command event)
  unfolding save_account account_repository repository
  save_account-IsOf command = record {
    at = λ w event p h.
        let e = persisted-event (env.generated_id w.drawn) command w.world.events event h in
        (
          p,
          (
            ap (λ (v : EventEnvelope AccountEvent). v.id) (sym e),
            ap (λ (v : EventEnvelope AccountEvent). v.event) (sym e),
          ),
        );
  }

  pub save_profile-IsOf :
      (command : CommandEnvelope ProfileEvent)
      → Triple (Sees P) (save_profile env command) (λ event w. Sees P w × IsOf command event)
  unfolding save_profile profile_repository repository
  save_profile-IsOf command = record {
    at = λ w event p h.
        let e = persisted-event (env.generated_id w.drawn) command w.profile_events event h in
        (
          p,
          (
            ap (λ (v : EventEnvelope ProfileEvent). v.id) (sym e),
            ap (λ (v : EventEnvelope ProfileEvent). v.event) (sym e),
          ),
        );
  }

entity-id :
    (event : EventEnvelope AccountEvent) (name : String) (is_bot : Bool) (nanoid : String)
    (created_at : Result ℕ) (account : Account)
    → constructed (create_entity event name is_bot nanoid created_at) ≡ ok account
    → account.id ≡ event.id
unfolding create_entity
entity-id event name is_bot nanoid (ok t) account h =
    sym (ap (λ (a : Account). a.id) (ok_injective h))
entity-id event name is_bot nanoid (err k) account h = absurd (ok≢err h)

pub account-id :
    (x : Externals) (now : ℕ) (event : EventEnvelope AccountEvent) (account : Account)
    (name : String) (is_bot : Bool) (nanoid : String) (auth_id : AuthAccountId)
    → event.event ≡ Account.created name is_bot nanoid auth_id
    → constructed ((account_applier x).apply now event none) ≡ ok account
    → account.id ≡ event.id
unfolding account_applier Account.apply
account-id x now event account name is_bot nanoid auth_id e = rw e (
    entity-id event name is_bot nanoid (from_timestamp_ms x (extract_timestamp_ms x event.id))
      account)

pub profile-account_id :
    (event : EventEnvelope ProfileEvent) (profile : Profile) (account_id : AccountId)
    (name summary : Option String) (icon banner : Option ℕ) (nanoid : String)
    → event.event ≡ Profile.created account_id name summary icon banner nanoid
    → constructed (Profile.apply event none) ≡ ok profile
    → profile.account_id ≡ account_id
unfolding Profile.apply
profile-account_id event profile account_id name summary icon banner nanoid e =
    rw e (λ h. sym (ap (λ (p : Profile). p.account_id) (ok_injective h)))
