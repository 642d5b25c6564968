-- ===== src/Application/DetailProjection/Polls.antt =====
-- A poll of the projector of a kind of detail goes on whatever the events of one detail do.
use emumet.Prelude.{
  ℕ, ◌≡◌, ◌∙◌, refl, ap, Option, none, some, Bool, true, false, List, [], ◌∷◌, filter, take,
  Bool-cases, inl, inr, arith, if◌then◌else◌,
}
use emumet.Prelude.Sort.{sort_by_key}
use emumet.Kernel.Error.{Result, ok, err}
use emumet.Kernel.Exec.{Exec, pure}
use emumet.Kernel.Event.{EventEnvelope, EventId, version_of}
use emumet.Kernel.Rehydrated.{fold}
use emumet.Kernel.Account.{AccountId}
use emumet.Driver.Accounts.{find_by_id_including_deleted}
use emumet.Driver.EventLog as EventLog
use emumet.Driver.EventLog.{
  CheckpointTable, advance, last_seq, find_by_seq_window, seq_of, is_after,
}
use emumet.Driver.EventStore.{SeqEvent}
use emumet.Application.Projection.{
  GroupOf, group_events, max_seq, nothing_pending, checkpoint_or_zero,
}
use emumet.Application.DetailProjection.{
  Detail, DetailSide, DetailSurroundings, is_newer, created_account_id, is_orphan,
  parent_deactivated, with_savepoint, or_dropped, write_detail, write_folded, project_pending,
  project_detail, project_details, project_events, poll, project_detail_batch,
  detail_projector_window, detail_projector_batch_limit,
}

module _ {A E : Type 0} where
  -- the lookup of a kind of detail reads, and always answers
  pub record IsReader (detail : Detail A E) : Type 0 where
    pub found : EventId → List A → Option A
    pub reads :
        (id : EventId) (rows : List A)
        → detail.find_by_id_unfiltered id rows ≡ (ok (found id rows), rows)

  -- only the rows of the details may differ
  record SameSide (w w' : DetailSide A E) : Type 0 where
    events : w'.events ≡ w.events
    checkpoints : w'.checkpoints ≡ w.checkpoints
    accounts : w'.accounts ≡ w.accounts

  same_side : (w : DetailSide A E) → SameSide w w
  same_side w = record { events = refl; checkpoints = refl; accounts = refl }

  SameSide-trans : {u v w : DetailSide A E} → SameSide u v → SameSide v w → SameSide u w
  SameSide-trans a b = record {
    events = b.events ∙ a.events;
    checkpoints = b.checkpoints ∙ a.checkpoints;
    accounts = b.accounts ∙ a.accounts;
  }

  abbrev Goes : DetailSide A E → Result (Unit {0}) × DetailSide A E → Type 0
  Goes w s = (s.0 ≡ ok tt) × SameSide w s.1

  with_savepoint-Goes :
      (m : Exec (DetailSide A E) (Unit {0})) (w : DetailSide A E)
      → SameSide w (m w).1
      → Goes w (with_savepoint m w)
  unfolding with_savepoint
  with_savepoint-Goes m w same = go (m w).0 same
    where
      go :
          (r : Result (Unit {0}))
          → SameSide w (m w).1
          → Goes w (elim r [ ok _ ↦ (ok tt, (m w).1) | err e ↦ (ok tt, w) ])
      go (ok _) same = (refl, same)
      go (err e) same = (refl, same_side w)

  or_dropped_of_ok :
      (m : Exec (DetailSide A E) ℕ) (w w' : DetailSide A E) (seq : ℕ)
      → m w ≡ (ok seq, w')
      → or_dropped m w ≡ (ok seq, w')
  unfolding or_dropped
  or_dropped_of_ok m w w' seq h = ground arith

module _ {A E : Type 0} (detail : Detail A E) (env : DetailSurroundings E) where
  write_detail-SameSide :
      (id : EventId) (entity : Option A) (w : DetailSide A E)
      → SameSide w (write_detail detail env id entity w).1
  unfolding write_detail
  write_detail-SameSide id none w = record { events = refl; checkpoints = refl; accounts = refl }
  write_detail-SameSide id (some a) w = record {
    events = refl;
    checkpoints = refl;
    accounts = refl;
  }

  write_folded-Goes :
      (id : EventId) (folded : Result (Unit {0}) × Option A) (w : DetailSide A E)
      → Goes w (write_folded detail env id folded w)
  unfolding write_folded
  write_folded-Goes id (err e, entity) w = (refl, same_side w)
  write_folded-Goes id (ok _, entity) w =
      with_savepoint-Goes (write_detail detail env id entity) w (write_detail-SameSide id entity w)

  -- whether it is an orphan is answered by a read
  is_orphan-reads :
      (existing : Option A) (pending : List (EventEnvelope E)) (w : DetailSide A E)
      → (b : Bool) × (is_orphan detail env existing pending w ≡ (ok b, w))
  unfolding is_orphan parent_deactivated find_by_id_including_deleted
  is_orphan-reads (some a) pending w = (false, refl)
  is_orphan-reads none pending w = parent-reads (created_account_id detail env pending)
    where
      parent-reads :
          (id : Option AccountId) → (b : Bool) × (parent_deactivated detail env id w ≡ (ok b, w))
      parent-reads none = (false, refl)
      parent-reads (some id) = (_, refl)

  project_pending-Goes :
      (id : EventId) (existing : Option A) (pending : List (EventEnvelope E)) (w : DetailSide A E)
      → Goes w (project_pending detail env id existing pending w)
  unfolding project_pending
  project_pending-Goes id existing pending w =
      let (b, read) = is_orphan-reads existing pending w in
      elim (Bool-cases (nothing_pending pending)) [
        | inl e ↦ rw e (refl, same_side w)
        | inr e ↦ rw (e, read) (go b)
      ]
    where
      go :
          (b : Bool)
          → let step : Exec (DetailSide A E) (Unit {0}) =
              if b
              then pure tt
              else write_folded detail env id
                  (fold detail.applier (env.replayed_at id) pending existing) in
            Goes w (step w)
      go true = (refl, same_side w)
      go false = write_folded-Goes id (fold detail.applier (env.replayed_at id) pending existing) w

  module _ (reader : IsReader detail) where
    project_detail-Goes :
        (group : GroupOf E) (w : DetailSide A E) → Goes w (project_detail detail env group w)
    unfolding project_detail
    project_detail-Goes (id, envelopes) w = rw (reader.reads id w.details) (
        project_pending-Goes id (reader.found id w.details)
          (filter (is_newer detail env (reader.found id w.details))
            (sort_by_key version_of envelopes))
          w)

    project_details-Goes :
        (groups : List (GroupOf E)) (w : DetailSide A E)
        → Goes w (project_details detail env groups w)
    unfolding project_details
    project_details-Goes [] w = (refl, same_side w)
    project_details-Goes (group ∷ groups) w =
        let (done, same) = project_detail-Goes group w in
        let (rest, same') = project_details-Goes groups (project_detail detail env group w).1 in
        rw done (rest, SameSide-trans same same')

    abbrev pub checkpoint : DetailSide A E → ℕ
    checkpoint w = checkpoint_or_zero (last_seq detail.projector_name w.checkpoints)

    abbrev pub batch : DetailSide A E → List (SeqEvent E)
    batch w = take detail_projector_batch_limit (
        sort_by_key seq_of (filter (is_after (checkpoint w) detail_projector_window) w.events.rows))

    -- the checkpoints after a poll of these events
    abbrev pub moved : ℕ → List (SeqEvent E) → CheckpointTable → CheckpointTable
    moved seq [] checkpoints = checkpoints
    moved seq (row ∷ rows) checkpoints =
        advance detail.projector_name (max_seq seq (row ∷ rows)) checkpoints

    project_events-Goes :
        (seq : ℕ) (events : List (SeqEvent E)) (w : DetailSide A E)
        → ((project_events detail env seq events w).0 ≡ ok (max_seq seq events))
          × ((project_events detail env seq events w).1.events ≡ w.events)
          × ((project_events detail env seq events w).1.accounts ≡ w.accounts)
          × ((project_events detail env seq events w).1.checkpoints
              ≡ moved seq events w.checkpoints)
    unfolding project_events EventLog.set
    project_events-Goes seq [] w = (refl, refl, refl, refl)
    project_events-Goes seq (row ∷ rows) w =
        let (done, same) = project_details-Goes (env.iterate (group_events [] (row ∷ rows))) w in
        rw done (
          refl,
          same.events,
          same.accounts,
          ap (advance detail.projector_name (max_seq seq (row ∷ rows))) same.checkpoints,
        )

    poll_lem :
        (w : DetailSide A E)
        → poll detail env w ≡ project_events detail env (checkpoint w) (batch w) w
    unfolding poll EventLog.get find_by_seq_window
    poll_lem w = refl

    -- For a kind of detail whose lookup reads and always answers, a poll always succeeds, whatever the
    -- events hold, whichever details fail to fold or to be written, and in whatever order they are
    -- taken: it answers the number of the last event of the window, or the checkpoint if the window is
    -- empty, moves the checkpoint there unless the window is empty, and leaves the events and the
    -- accounts.
    pub project_detail_batch_lem :
        (w : DetailSide A E)
        → ((project_detail_batch detail env w).0 ≡ ok (max_seq (checkpoint w) (batch w)))
          × ((project_detail_batch detail env w).1.events ≡ w.events)
          × ((project_detail_batch detail env w).1.accounts ≡ w.accounts)
          × ((project_detail_batch detail env w).1.checkpoints
              ≡ moved (checkpoint w) (batch w) w.checkpoints)
    unfolding project_detail_batch
    project_detail_batch_lem w =
        let (done, events, accounts, checkpoints) =
          project_events-Goes (checkpoint w) (batch w) w in
        let after = (project_events detail env (checkpoint w) (batch w) w).1 in
        rw
          (or_dropped_of_ok (poll detail env) w after (max_seq (checkpoint w) (batch w))
            (poll_lem w ∙ ap (λ (r : Result ℕ). (r, after)) done))
          (refl, events, accounts, checkpoints)
