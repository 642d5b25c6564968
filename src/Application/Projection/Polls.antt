-- ===== src/Application/Projection/Polls.antt =====
-- A poll of the account projector goes on whatever the events of one account do.
use emumet.Prelude.{
  ℕ, ◌≡◌, ◌∙◌, ap, take, refl, Option, true, List, [], ◌∷◌, arith, Bool-cases, inl, inr, ◌⊎◌,
  filter, find?, is_none, ◌&&◌,
}
use mathlib.Core.Option as Option
use emumet.Prelude.Sort.{sort_by_key}
use emumet.Kernel.Error.{KernelError, Result, ok, err}
use emumet.Kernel.Exec.{Exec}
use emumet.Kernel.Event.{EventEnvelope, version_of}
use emumet.Kernel.Rehydrated.{fold}
use emumet.Kernel.Account.{Account, AccountId, AuthAccountId, AccountEvent, account_applier}
use emumet.Driver.Accounts.{find_by_id_unfiltered, account_from_row, with_id}
use emumet.Driver.EventLog as EventLog
use emumet.Driver.EventLog.{
  CheckpointTable, advance, last_seq, find_by_seq_window, seq_of, is_after,
}
use emumet.Driver.EventStore.{SeqEvent}
use emumet.Application.Projection.{
  ReadSide, Surroundings, Group, account_projector_name, account_projector_window,
  account_projector_batch_limit, under_savepoint, roll_back, write_projection, write_folded,
  project_pending, project_group, project_groups, group_events, max_seq, checkpoint_or_zero,
  project_events, poll, in_transaction, project_batch, is_newer, created_auth_account_id,
  nothing_pending,
}
use emumet.Application.Projection.Keeps.{
  SameLog, same_log, SameLog-trans, Keeps, write_projection-Keeps,
}

-- a step that succeeds and leaves the events and the checkpoints
abbrev Goes : ReadSide → Result (Unit {0}) × ReadSide → Type 0
Goes w s = (s.0 ≡ ok tt) × SameLog w s.1

-- what a write under a savepoint leaves: all of it, or, if it failed, the calls alone
abbrev Saved : Exec ReadSide (Unit {0}) → ReadSide → ReadSide → Type 0
Saved m w w' =
    (((m w).0 ≡ ok tt) × (w' ≡ (m w).1))
    ⊎ ((e : KernelError) × ((m w).0 ≡ err e) × (w' ≡ roll_back w (m w).1))

under_savepoint-Goes :
    (m : Exec ReadSide (Unit {0})) → Keeps m → (w : ReadSide) → Goes w (under_savepoint m w)
unfolding under_savepoint
under_savepoint-Goes m h w = go (m w).0 (h w)
  where
    go :
        (r : Result (Unit {0}))
        → SameLog w (m w).1
        → Goes w (elim r [ ok _ ↦ (ok tt, (m w).1) | err e ↦ (ok tt, roll_back w (m w).1) ])
    go (ok _) same = (refl, same)
    go (err e) same = (refl, record { events = refl; checkpoints = refl })

write_folded-Goes :
    (account_id : AccountId) (auth_id : Option AuthAccountId)
    (folded : Result (Unit {0}) × Option Account) (w : ReadSide)
    → Goes w (write_folded account_id auth_id folded w)
unfolding write_folded
write_folded-Goes account_id auth_id (err e, entity) w = (refl, same_log w)
write_folded-Goes account_id auth_id (ok _, entity) w =
    under_savepoint-Goes (write_projection account_id auth_id entity)
      (write_projection-Keeps account_id auth_id entity) w

-- the checkpoint of the projector, and the window that starts before it
abbrev pub checkpoint : ReadSide → ℕ
checkpoint w = checkpoint_or_zero (last_seq account_projector_name w.checkpoints)

abbrev pub batch : ReadSide → List (SeqEvent AccountEvent)
batch w =
    take account_projector_batch_limit
      (sort_by_key seq_of (filter (is_after (checkpoint w) account_projector_window) w.events.rows))

-- the checkpoints after a poll of these events
abbrev pub moved : ℕ → List (SeqEvent AccountEvent) → CheckpointTable → CheckpointTable
moved seq [] checkpoints = checkpoints
moved seq (row ∷ rows) checkpoints =
    advance account_projector_name (max_seq seq (row ∷ rows)) checkpoints

in_transaction_of_ok :
    (m : Exec ReadSide ℕ) (w w' : ReadSide) (seq : ℕ)
    → m w ≡ (ok seq, w')
    → in_transaction m w ≡ (ok seq, w')
unfolding in_transaction
in_transaction_of_ok m w w' seq h = ground arith

module _ (env : Surroundings) where
  project_pending-Goes :
      (account_id : AccountId) (auth_id : Option AuthAccountId) (existing : Option Account)
      (pending : List (EventEnvelope AccountEvent)) (w : ReadSide)
      → Goes w (project_pending env account_id auth_id existing pending w)
  unfolding project_pending
  project_pending-Goes account_id auth_id existing pending w =
      elim (Bool-cases (nothing_pending pending && is_none auth_id)) [
        | inl e ↦ rw e (refl, same_log w)
        | inr e ↦ rw e (
            write_folded-Goes account_id auth_id
              (fold (account_applier env.externals) (env.replayed_at account_id) pending existing)
              w)
      ]

  found_group-Goes :
      (group : Group) (existing : Option Account) (w : ReadSide)
      → find_by_id_unfiltered env.queried_at group.0 w.tables ≡ (ok existing, w.tables)
      → Goes w (project_group env group w)
  unfolding project_group
  found_group-Goes (account_id, envelopes) existing w found =
      let events = sort_by_key version_of envelopes in
      rw found (
        project_pending-Goes account_id (created_auth_account_id events) existing
          (filter (is_newer existing) events) w)

  project_group-Goes : (group : Group) (w : ReadSide) → Goes w (project_group env group w)
  unfolding find_by_id_unfiltered
  project_group-Goes group w =
      found_group-Goes group
        (Option.map (λ row. account_from_row env.queried_at row true)
          (find? (λ row. with_id group.0 row && is_none row.deleted_at) w.tables.accounts))
        w refl

  project_groups-Goes : (groups : List Group) (w : ReadSide) → Goes w (project_groups env groups w)
  unfolding project_groups
  project_groups-Goes [] w = (refl, same_log w)
  project_groups-Goes (group ∷ groups) w =
      let (done, same) = project_group-Goes group w in
      let (rest, same') = project_groups-Goes groups (project_group env group w).1 in
      rw done (rest, SameLog-trans same same')

  -- what a poll answers, and the checkpoints that it leaves
  project_events-Goes :
      (seq : ℕ) (events : List (SeqEvent AccountEvent)) (w : ReadSide)
      → ((project_events env seq events w).0 ≡ ok (max_seq seq events))
        × ((project_events env seq events w).1.events ≡ w.events)
        × ((project_events env seq events w).1.checkpoints ≡ moved seq events w.checkpoints)
  unfolding project_events EventLog.set
  project_events-Goes seq [] w = (refl, refl, refl)
  project_events-Goes seq (row ∷ rows) w =
      let (done, same) = project_groups-Goes (env.iterate (group_events [] (row ∷ rows))) w in
      rw done (
        refl,
        same.events,
        ap (advance account_projector_name (max_seq seq (row ∷ rows))) same.checkpoints,
      )

  poll_lem : (w : ReadSide) → poll env w ≡ project_events env (checkpoint w) (batch w) w
  unfolding poll EventLog.get find_by_seq_window
  poll_lem w = refl

  -- A poll always succeeds, whatever the events hold, whichever accounts fail to fold or to be written,
  -- and in whatever order the accounts are taken: it answers the number of the last event of the
  -- window, or the checkpoint if the window is empty, moves the checkpoint there unless the window is
  -- empty, and leaves the events.
  pub project_batch_lem :
      (w : ReadSide)
      → ((project_batch env w).0 ≡ ok (max_seq (checkpoint w) (batch w)))
        × ((project_batch env w).1.events ≡ w.events)
        × ((project_batch env w).1.checkpoints ≡ moved (checkpoint w) (batch w) w.checkpoints)
  unfolding project_batch
  project_batch_lem w =
      let (done, events, checkpoints) = project_events-Goes (checkpoint w) (batch w) w in
      let after = (project_events env (checkpoint w) (batch w) w).1 in
      rw
        (in_transaction_of_ok (poll env) w after (max_seq (checkpoint w) (batch w))
          (poll_lem w ∙ ap (λ (r : Result ℕ). (r, after)) done))
        (refl, events, checkpoints)
