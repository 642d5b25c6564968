-- ===== src/Application/Projection/Groups.antt =====
-- What the projector does with the events of one account.
use emumet.Prelude.{
  ℕ, ◌≡◌, ◌∙◌, ap, subst, sym, true, any, any-last, any_of_find?, ◌==◌, Bool-cases, inl, inr,
  ==_refl, refl, arith, Option, none, some, false, List, [], ◌∷◌, filter, is_some,
}
use emumet.Prelude.Sort.{sort_by_key}
use emumet.Kernel.Error.{KernelError, Result, ok, err, internal}
use emumet.Kernel.Exec.{Exec}
use emumet.Kernel.Event.{EventEnvelope, version_of}
use emumet.Kernel.Rehydrated.{fold}
use emumet.Kernel.Account.{
  Account, AccountId, AuthAccountId, AccountEvent, account_applier, apply, created, updated,
  deactivated, suspended, unsuspended, banned, unbanned, reactivated,
}
use emumet.Driver.Accounts.{
  AccountTables, find_by_id_unfiltered, upsert, to_row, link_auth_account, has_auth_account,
  with_id, is_link,
}
use emumet.Driver.Accounts.Upsert.{row_of, newest, upsert-newest, upsert-auth_accounts}
use emumet.Application.Projection.{
  ReadSide, Surroundings, Group, under_savepoint, roll_back, write_projection, write_folded,
  link_owner, send, project_pending, project_group, is_newer, created_auth_account_id,
  nothing_pending,
}

-- the events of a group that its account has not seen, in the order of their versions
abbrev pub pending_of : Option Account → Group → List (EventEnvelope AccountEvent)
pending_of existing group = filter (is_newer existing) (sort_by_key version_of group.1)

-- the read model shows this, or nothing, for the account of the group
abbrev pub Finds : Surroundings → Group → Option Account → ReadSide → Type 0
Finds env group existing w =
    find_by_id_unfiltered env.queried_at group.0 w.tables ≡ (ok existing, w.tables)

-- the events that are new fold to this
abbrev pub FoldsTo : Surroundings → Group → Option Account → Account → Type 0
FoldsTo env group existing account =
    fold (account_applier env.externals) (env.replayed_at group.0) (pending_of existing group)
      existing
    ≡ (ok tt, some account)

-- the principal that is to own an account, if there is one, is stored
abbrev pub KnowsOwner : Option AuthAccountId → AccountTables → Type 0
KnowsOwner none t = Unit
KnowsOwner (some auth_id) t = has_auth_account auth_id t ≡ true

-- the principal, if there is one, is linked with the account
abbrev pub IsLinked : AccountId → Option AuthAccountId → AccountTables → Type 0
IsLinked account_id none t = Unit
IsLinked account_id (some auth_id) t = any (is_link account_id auth_id) t.links ≡ true

KnowsOwner-same :
    (auth_id : Option AuthAccountId) (t t' : AccountTables)
    → t'.auth_accounts ≡ t.auth_accounts
    → KnowsOwner auth_id t
    → KnowsOwner auth_id t'
KnowsOwner-same none t t' e h = tt
KnowsOwner-same (some auth_id) t t' e h =
    subst (λ (l : List AuthAccountId). any (λ a. a == auth_id) l ≡ true) (sym e) h

link_auth_account-IsLinked :
    (account_id : AccountId) (auth_id : AuthAccountId) (t : AccountTables)
    → any (with_id account_id) t.accounts ≡ true
    → has_auth_account auth_id t ≡ true
    → ((link_auth_account account_id auth_id t).0 ≡ ok tt)
      × ((link_auth_account account_id auth_id t).1.accounts ≡ t.accounts)
      × (any (is_link account_id auth_id) (link_auth_account account_id auth_id t).1.links ≡ true)
unfolding link_auth_account
link_auth_account-IsLinked account_id auth_id t stored known =
    elim (Bool-cases (any (is_link account_id auth_id) t.links)) [
      | inl e ↦ rw e (refl, refl, e)
      | inr e ↦
          rw (e, stored, known)
            (
              refl,
              refl,
              any-last (is_link account_id auth_id) t.links (account_id, auth_id)
                  (rw (==_refl account_id, ==_refl auth_id) refl),
            )
    ]

link_owner-IsLinked :
    (account_id : AccountId) (auth_id : Option AuthAccountId) (w : ReadSide)
    → any (with_id account_id) w.tables.accounts ≡ true
    → KnowsOwner auth_id w.tables
    → ((link_owner account_id auth_id w).0 ≡ ok tt)
      × ((link_owner account_id auth_id w).1.tables.accounts ≡ w.tables.accounts)
      × IsLinked account_id auth_id (link_owner account_id auth_id w).1.tables
unfolding link_owner send
link_owner-IsLinked account_id none w stored known = (refl, refl, tt)
link_owner-IsLinked account_id (some auth_id) w stored known =
    let (done, same, linked) =
      link_auth_account-IsLinked account_id auth_id w.tables stored known in
    rw done (refl, same, linked)

saved_of_ok :
    (m : Exec ReadSide (Unit {0})) (w w' : ReadSide)
    → m w ≡ (ok tt, w')
    → under_savepoint m w ≡ (ok tt, w')
unfolding under_savepoint
saved_of_ok m w w' h = ground arith

saved_of_err :
    (m : Exec ReadSide (Unit {0})) (w w' : ReadSide) (e : KernelError)
    → m w ≡ (err e, w')
    → under_savepoint m w ≡ (ok tt, roll_back w w')
unfolding under_savepoint
saved_of_err m w w' e h = ground arith

module _ (env : Surroundings) (group : Group) (existing : Option Account) (account : Account)
    (w : ReadSide) (finds : Finds env group existing w)
    (some_pending : nothing_pending (pending_of existing group) ≡ false)
    (folds : FoldsTo env group existing account) where
  -- the principal of the `Created` event, if there is one
  abbrev auth_id : Option AuthAccountId
  auth_id = created_auth_account_id (sort_by_key version_of group.1)

  written :
      project_group env group w
      ≡ under_savepoint (write_projection group.0 auth_id (some account)) w
  unfolding project_group project_pending write_folded
  written = rw (finds, some_pending, folds) refl

  -- If the row of the account cannot be written, the poll leaves everything as it was for that account.
  pub project_group_failed :
      (e : KernelError)
      → (upsert account w.tables).0 ≡ err e
      → project_group env group w ≡ (ok tt, w)
  unfolding write_projection
  project_group_failed e failed =
      written
      ∙ saved_of_err (write_projection group.0 auth_id (some account)) w
          (record w { tables = (upsert account w.tables).1 }) e (rw failed refl)

  -- If the read model shows an account, or none, some event is newer than it, the newer events fold
  -- onto it to an account of the group's id that is not deactivated, its row can be written, and the
  -- principal of the `Created` event, if the window holds one, is stored, then after the poll the row
  -- of that account is the newer of what the events fold to and what was stored, and the principal is
  -- linked with the account.
  pub project_group_lem :
      account.id ≡ group.0
      → account.deleted_at ≡ none
      → (upsert account w.tables).0 ≡ ok tt
      → KnowsOwner auth_id w.tables
      → (row_of account.id (project_group env group w).1.tables
          ≡ some (newest (to_row account) (row_of account.id w.tables)))
        × IsLinked group.0 auth_id (project_group env group w).1.tables
  unfolding write_projection
  project_group_lem same_id active done known =
      let s = record w { tables = (upsert account w.tables).1 } in
      let row = upsert-newest account w.tables done in
      let (linked, same, owned) =
        link_owner-IsLinked group.0 auth_id s
          (subst (λ id. any (with_id id) s.tables.accounts ≡ true) same_id
            (any_of_find? (with_id account.id) s.tables.accounts _ row))
          (KnowsOwner-same auth_id w.tables s.tables (upsert-auth_accounts account w.tables)
            known) in
      rw
        (
          written,
          saved_of_ok (write_projection group.0 auth_id (some account)) w
              (link_owner group.0 auth_id s).1
              (rw (done, ap is_some active)
                (ap (λ (r : Result (Unit {0})). (r, (link_owner group.0 auth_id s).1)) linked)),
          same,
        )
        (row, owned)

module _ (env : Surroundings) where
  all_newer : (events : List (EventEnvelope AccountEvent)) → filter (is_newer none) events ≡ events
  all_newer [] = refl
  all_newer (event ∷ events) =
      ap (λ (l : List (EventEnvelope AccountEvent)). event ∷ l) (all_newer events)

  -- without a `Created`, nothing can be folded onto nothing
  apply_nothing :
      (account_id : AccountId) (id : AccountId) (event : AccountEvent) (version : ℕ)
      (events : List (EventEnvelope AccountEvent))
      → created_auth_account_id (record { id = id; event = event; version = version } ∷ events)
        ≡ none
      → fold
          (account_applier env.externals)
          (env.replayed_at account_id)
          (record { id = id; event = event; version = version } ∷ events)
          none
        ≡ (err internal, none)
  unfolding fold account_applier apply created_auth_account_id
  apply_nothing account_id id (created _ _ _ a) version events h = cc
  apply_nothing account_id id (updated _) version events h = refl
  apply_nothing account_id id deactivated version events h = refl
  apply_nothing account_id id (suspended _ _ _) version events h = refl
  apply_nothing account_id id unsuspended version events h = refl
  apply_nothing account_id id (banned _ _) version events h = refl
  apply_nothing account_id id unbanned version events h = refl
  apply_nothing account_id id reactivated version events h = refl

  pending_nothing :
      (account_id : AccountId) (auth_id : Option AuthAccountId)
      (events : List (EventEnvelope AccountEvent)) (w : ReadSide)
      → created_auth_account_id events ≡ none
      → auth_id ≡ none
      → project_pending env account_id auth_id none events w ≡ (ok tt, w)
  unfolding project_pending write_folded
  pending_nothing account_id auth_id [] w h e = rw e refl
  pending_nothing account_id auth_id (event ∷ events) w h e =
      rw (apply_nothing account_id event.id event.event event.version events h) refl

  -- If the read model shows no account of the group's id, which is so for a deactivated one, and the
  -- window holds no `Created` of it, then the poll leaves everything as it was for that account: a
  -- `Reactivated` is lost.
  pub project_group_hidden :
      (group : Group) (w : ReadSide)
      → Finds env group none w
      → created_auth_account_id (sort_by_key version_of group.1) ≡ none
      → project_group env group w ≡ (ok tt, w)
  unfolding project_group
  project_group_hidden group w finds h =
      rw (finds, all_newer (sort_by_key version_of group.1))
        (pending_nothing group.0 (created_auth_account_id (sort_by_key version_of group.1))
          (sort_by_key version_of group.1) w h h)
