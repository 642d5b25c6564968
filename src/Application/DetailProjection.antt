-- ===== src/Application/DetailProjection.antt =====
-- application/src/projection/{profile,metadata}_projector.rs: one poll of the projector of profiles or
-- of metadata. The two files differ in names, and are one projector over a kind of detail here.
pub mod Polls
use Prim.Native.String.{String}
use emumet.Prelude.{
  ℕ, Option, none, some, Bool, true, false, List, [], ◌∷◌, ltb, if◌then◌else◌, filter, any, is_some,
}
use emumet.Prelude.Sort.{sort_by_key}
use emumet.Kernel.Error.{Result, ok, err}
use emumet.Kernel.Exec.{Exec, pure, ◌>>=◌, ◌>>◌}
use emumet.Kernel.Event.{
  OffsetDateTime, EventApplier, EventEnvelope, EventId, EventVersion, version_of,
}
use emumet.Kernel.Rehydrated.{Clock, fold}
use emumet.Kernel.Account.{Account, AccountId}
use emumet.Kernel.Metadata.{Metadata, MetadataEvent, metadata_applier}
use emumet.Kernel.Metadata as Metadata
use emumet.Kernel.Profile.{Profile, ProfileEvent, profile_applier}
use emumet.Kernel.Profile as Profile
use emumet.Driver.Accounts.{AccountTables, find_by_id_including_deleted, with_id}
use emumet.Driver.EventLog.{CheckpointTable, find_by_seq_window}
use emumet.Driver.EventLog as EventLog
use emumet.Driver.EventStore.{EventTable, SeqEvent}
use emumet.Driver.MetadataRows as MetadataRows
use emumet.Driver.Profiles as Profiles
use emumet.Application.Projection.{
  GroupOf, group_events, max_seq, nothing_pending, checkpoint_or_zero,
}

-- what the two projectors differ in
pub record Detail (A E : Type 0) : Type 0 where
  pub projector_name : String
  pub applier : EventApplier A E
  pub version : A → EventVersion
  pub parent : E → Option AccountId
  pub find_by_id_unfiltered : EventId → Exec (List A) (Option A)
  -- given the accounts that there are
  pub upsert : (AccountId → Bool) → A → Exec (List A) (Unit {0})
  pub delete : EventId → Exec (List A) (Unit {0})

abbrev parent_of_profile : ProfileEvent → Option AccountId
parent_of_profile (Profile.created account_id _ _ _ _ _) = some account_id
parent_of_profile _ = none

abbrev parent_of_metadata : MetadataEvent → Option AccountId
parent_of_metadata (Metadata.created account_id _ _ _) = some account_id
parent_of_metadata _ = none

-- `has_image` is the table of images
abbrev pub profile_detail : (ℕ → Bool) → Detail Profile ProfileEvent
profile_detail has_image = record {
  projector_name = "profile_projector";
  applier = profile_applier;
  version = λ profile. profile.version;
  parent = parent_of_profile;
  find_by_id_unfiltered = Profiles.find_by_id_unfiltered;
  upsert =
      λ has_account. Profiles.upsert (record { has_account = has_account; has_image = has_image });
  delete = Profiles.discard;
}

abbrev pub metadata_detail : Detail Metadata MetadataEvent
metadata_detail = record {
  projector_name = "metadata_projector";
  applier = metadata_applier;
  version = λ metadata. metadata.version;
  parent = parent_of_metadata;
  find_by_id_unfiltered = MetadataRows.find_by_id_unfiltered;
  upsert = MetadataRows.upsert;
  delete = MetadataRows.discard;
}

abbrev pub detail_projector_window : ℕ
detail_projector_window = 100

abbrev pub detail_projector_batch_limit : ℕ
detail_projector_batch_limit = 1000

-- the tables that a poll reads and writes
pub record DetailSide (A E : Type 0) : Type 0 where
  pub events : EventTable E
  pub checkpoints : CheckpointTable
  pub accounts : AccountTables
  pub details : List A

-- what the outside answers while one poll runs
pub record DetailSurroundings (E : Type 0) : Type 0 where
  pub queried_at : OffsetDateTime
  -- the clock, as the fold of a detail's events reads it
  pub replayed_at : EventId → Clock
  -- the order in which a `HashMap` yields its entries
  pub iterate : List (GroupOf E) → List (GroupOf E)

module _ {A E B : Type 0} where
  abbrev on_details : Exec (List A) B → Exec (DetailSide A E) B
  on_details m w = let (r, details) = m w.details in (r, record w { details = details })

  abbrev on_accounts : Exec AccountTables B → Exec (DetailSide A E) B
  on_accounts m w = let (r, accounts) = m w.accounts in (r, record w { accounts = accounts })

  abbrev on_checkpoints : Exec CheckpointTable B → Exec (DetailSide A E) B
  on_checkpoints m w =
      let (r, checkpoints) = m w.checkpoints in (r, record w { checkpoints = checkpoints })

  abbrev on_events : Exec (EventTable E) B → Exec (DetailSide A E) B
  on_events m w = let (r, events) = m w.events in (r, record w { events = events })

module _ {A E : Type 0} where
  -- a write under a savepoint, whose error is logged
  unfoldable pub with_savepoint :
      Exec (DetailSide A E) (Unit {0}) → Exec (DetailSide A E) (Unit {0})
  with_savepoint m w = let (r, w') = m w in elim r [ ok _ ↦ (ok tt, w') | err e ↦ (ok tt, w) ]

  -- a poll that fails drops its transaction
  unfoldable pub or_dropped : Exec (DetailSide A E) ℕ → Exec (DetailSide A E) ℕ
  or_dropped m w = let (r, w') = m w in elim r [ ok seq ↦ (ok seq, w') | err e ↦ (err e, w) ]

module _ {A E : Type 0} (detail : Detail A E) (env : DetailSurroundings E) where
  abbrev pub is_newer : Option A → EventEnvelope E → Bool
  is_newer none event = true
  is_newer (some a) event = ltb (detail.version a) event.version

  -- the account of the `Created` event, if there is one
  unfoldable pub created_account_id : List (EventEnvelope E) → Option AccountId
  created_account_id [] = none
  created_account_id (event ∷ events) =
      let rest = created_account_id events in
      elim (detail.parent event.event) [ none ↦ rest | some id ↦ some id ]

  abbrev is_deactivated : Option Account → Bool
  is_deactivated none = false
  is_deactivated (some account) = is_some account.deleted_at

  parent_deactivated : Option AccountId → Exec (DetailSide A E) Bool
  parent_deactivated none = pure false
  parent_deactivated (some account_id) = do
    account ← on_accounts (find_by_id_including_deleted env.queried_at account_id)
    pure (is_deactivated account)

  -- a new detail of a deactivated account is not written
  unfoldable pub is_orphan : Option A → List (EventEnvelope E) → Exec (DetailSide A E) Bool
  unfolding parent_deactivated created_account_id
  is_orphan (some a) pending = pure false
  is_orphan none pending = parent_deactivated (created_account_id pending)

  write_detail : EventId → Option A → Exec (DetailSide A E) (Unit {0})
  write_detail id (some a) w =
      on_details (detail.upsert (λ account_id. any (with_id account_id) w.accounts.accounts) a) w
  write_detail id none w = on_details (detail.delete id) w

  write_folded : EventId → Result (Unit {0}) × Option A → Exec (DetailSide A E) (Unit {0})
  unfolding write_detail with_savepoint
  write_folded id (err e, entity) = pure tt
  write_folded id (ok _, entity) = with_savepoint (write_detail id entity)

  project_pending : EventId → Option A → List (EventEnvelope E) → Exec (DetailSide A E) (Unit {0})
  unfolding is_orphan fold write_folded
  project_pending id existing pending =
      if nothing_pending pending
      then pure tt
      else is_orphan existing pending >>= λ orphan.
          if orphan
          then pure tt
          else write_folded id (fold detail.applier (env.replayed_at id) pending existing)

  -- one turn of the loop over the details
  unfoldable pub project_detail : GroupOf E → Exec (DetailSide A E) (Unit {0})
  unfolding sort_by_key project_pending
  project_detail (id, envelopes) = do
    existing ← on_details (detail.find_by_id_unfiltered id)
    project_pending id existing (filter (is_newer existing) (sort_by_key version_of envelopes))

  unfoldable pub project_details : List (GroupOf E) → Exec (DetailSide A E) (Unit {0})
  unfolding project_detail
  project_details [] = pure tt
  project_details (group ∷ groups) = project_detail group >> project_details groups

  project_events : ℕ → List (SeqEvent E) → Exec (DetailSide A E) ℕ
  unfolding project_details group_events max_seq
  project_events checkpoint [] = pure checkpoint
  project_events checkpoint (row ∷ rows) = do
    project_details (env.iterate (group_events [] (row ∷ rows)))
    on_checkpoints (EventLog.set detail.projector_name (max_seq checkpoint (row ∷ rows)))
    pure (max_seq checkpoint (row ∷ rows))

  poll : Exec (DetailSide A E) ℕ
  unfolding project_events
  poll = do
    stored ← on_checkpoints (EventLog.get detail.projector_name)
    events ← on_events (
        find_by_seq_window (checkpoint_or_zero stored) detail_projector_window
          detail_projector_batch_limit)
    project_events (checkpoint_or_zero stored) events

  unfoldable pub project_detail_batch : Exec (DetailSide A E) ℕ
  unfolding poll or_dropped
  project_detail_batch = or_dropped poll

unfoldable pub project_profile_batch :
    (ℕ → Bool) → DetailSurroundings ProfileEvent → Exec (DetailSide Profile ProfileEvent) ℕ
unfolding project_detail_batch
project_profile_batch has_image = project_detail_batch (profile_detail has_image)

unfoldable pub project_metadata_batch :
    DetailSurroundings MetadataEvent → Exec (DetailSide Metadata MetadataEvent) ℕ
unfolding project_detail_batch
project_metadata_batch = project_detail_batch metadata_detail
