-- ===== src/Application/Projection.antt =====
-- application/src/projection/account_projector.rs: one poll of the account projector. It reads a window
-- of the event log, folds the events of each account onto its row of the read model, and moves the
-- checkpoint, in one transaction with a savepoint for each account.
pub mod Keeps
pub mod Polls
pub mod Groups
use Prim.Native.String.{String}
use emumet.Prelude.{
  ℕ, Option, none, some, Bool, true, false, not, ◌&&◌, List, [], ◌∷◌, ◌++◌, map, ◌==◌, ltb,
  if◌then◌else◌, filter, is_some, is_none,
}
use emumet.Prelude.Sort.{sort_by_key}
use emumet.Kernel.Error.{Result, ok, err}
use emumet.Kernel.Exec.{Exec, pure, ◌>>=◌, ◌>>◌}
use emumet.Kernel.Event.{OffsetDateTime, EventEnvelope, EventId, version_of}
use emumet.Kernel.Id.{Externals}
use emumet.Kernel.Rehydrated.{Clock, fold}
use emumet.Kernel.Account.{
  Account, AccountId, AuthAccountId, AccountEvent, created, account_applier,
}
use emumet.Kernel.Metadata.{Metadata}
use emumet.Kernel.Permission.{RelationTarget, account_target, owner}
use emumet.Kernel.Profile.{Profile}
use emumet.Kernel.Relation.{Follow, local}
use emumet.Driver.Accounts.{AccountTables, find_by_id_unfiltered, link_auth_account, upsert}
use emumet.Driver.EventLog.{CheckpointTable, find_by_seq_window}
use emumet.Driver.EventLog as EventLog
use emumet.Driver.EventStore.{EventTable, SeqEvent}
use emumet.Driver.MetadataRows.{MetadataTable}
use emumet.Driver.MetadataRows as MetadataRows
use emumet.Driver.Profiles.{ProfileTable}
use emumet.Driver.Profiles as Profiles
use emumet.Driver.Relations.{find_by_source, find_followers}
use emumet.Application.Follows.{FollowTable, delete_each}
use emumet.Application.World.{RelationCall, create_relation}

abbrev pub account_projector_name : String
account_projector_name = "account_projector"

abbrev pub account_projector_window : ℕ
account_projector_window = 100

abbrev pub account_projector_batch_limit : ℕ
account_projector_batch_limit = 1000

-- the tables that a poll reads and writes
pub record ReadSide : Type 0 where
  pub events : EventTable AccountEvent
  pub checkpoints : CheckpointTable
  pub tables : AccountTables
  pub profiles : ProfileTable
  pub metadata : MetadataTable
  pub follows : FollowTable
  -- the calls that the relation service has received, the latest last
  pub calls : List RelationCall

-- the events of one aggregate
abbrev pub GroupOf : Type 0 → Type 0
GroupOf E = EventId × List (EventEnvelope E)

abbrev pub Group : Type 0
Group = GroupOf AccountEvent

-- what the outside answers while one poll runs
pub record Surroundings : Type 0 where
  pub externals : Externals
  pub queried_at : OffsetDateTime
  -- the clock, as the fold of an account's events reads it
  pub replayed_at : AccountId → Clock
  -- the order in which a `HashMap` yields its entries
  pub iterate : List Group → List Group

module _ {A : Type 0} where
  abbrev on_tables : Exec AccountTables A → Exec ReadSide A
  on_tables m w = let (r, tables) = m w.tables in (r, record w { tables = tables })

  abbrev on_profiles : Exec ProfileTable A → Exec ReadSide A
  on_profiles m w = let (r, profiles) = m w.profiles in (r, record w { profiles = profiles })

  abbrev on_metadata : Exec MetadataTable A → Exec ReadSide A
  on_metadata m w = let (r, metadata) = m w.metadata in (r, record w { metadata = metadata })

  abbrev on_follows : Exec FollowTable A → Exec ReadSide A
  on_follows m w = let (r, follows) = m w.follows in (r, record w { follows = follows })

  abbrev on_checkpoints : Exec CheckpointTable A → Exec ReadSide A
  on_checkpoints m w =
      let (r, checkpoints) = m w.checkpoints in (r, record w { checkpoints = checkpoints })

  abbrev on_events : Exec (EventTable AccountEvent) A → Exec ReadSide A
  on_events m w = let (r, events) = m w.events in (r, record w { events = events })

-- ROLLBACK, to the savepoint or of the transaction: a call that was sent stays sent
abbrev pub roll_back : ReadSide → ReadSide → ReadSide
roll_back before after = record before { calls = after.calls }

-- a write under a savepoint, whose error is logged
unfoldable pub under_savepoint : Exec ReadSide (Unit {0}) → Exec ReadSide (Unit {0})
under_savepoint m w =
    let (r, w') = m w in elim r [ ok _ ↦ (ok tt, w') | err e ↦ (ok tt, roll_back w w') ]

-- a poll that fails drops its transaction
unfoldable pub in_transaction : Exec ReadSide ℕ → Exec ReadSide ℕ
in_transaction m w =
    let (r, w') = m w in elim r [ ok seq ↦ (ok seq, w') | err e ↦ (err e, roll_back w w') ]

-- `groups.entry(id).or_default().push(event)`
unfoldable pub push_event : {E : Type 0} → EventEnvelope E → List (GroupOf E) → List (GroupOf E)
push_event event [] = (event.id, event ∷ []) ∷ []
push_event event ((id, events) ∷ groups) =
    let rest = push_event event groups in
    if id == event.id then (id, events ++ event ∷ []) ∷ groups else (id, events) ∷ rest

unfoldable pub group_events : {E : Type 0} → List (GroupOf E) → List (SeqEvent E) → List (GroupOf E)
unfolding push_event
group_events groups [] = groups
group_events groups (row ∷ rows) = group_events (push_event row.envelope groups) rows

abbrev created_by : AccountEvent → Option AuthAccountId
created_by (created _ _ _ auth_account_id) = some auth_account_id
created_by _ = none

-- the `find_map` over the events
unfoldable pub created_auth_account_id : List (EventEnvelope AccountEvent) → Option AuthAccountId
created_auth_account_id [] = none
created_auth_account_id (event ∷ events) =
    let rest = created_auth_account_id events in
    elim (created_by event.event) [ none ↦ rest | some id ↦ some id ]

abbrev pub is_newer : Option Account → EventEnvelope AccountEvent → Bool
is_newer none event = true
is_newer (some account) event = ltb account.version event.version

abbrev pub nothing_pending : {E : Type 0} → List (EventEnvelope E) → Bool
nothing_pending [] = true
nothing_pending (_ ∷ _) = false

remove_profile : Option Profile → Exec ProfileTable (Unit {0})
remove_profile none = pure tt
remove_profile (some profile) = Profiles.delete profile.id

remove_metadata : List Metadata → Exec MetadataTable (Unit {0})
remove_metadata [] = pure tt
remove_metadata (entry ∷ entries) = MetadataRows.delete entry.id >> remove_metadata entries

clear_profile : AccountId → Exec ReadSide (Unit {0})
unfolding remove_profile
clear_profile account_id = on_profiles (Profiles.find_by_account_id account_id) >>= λ profile.
    on_profiles (remove_profile profile)

clear_metadata : AccountId → Exec ReadSide (Unit {0})
unfolding remove_metadata
clear_metadata account_id = on_metadata (MetadataRows.find_by_account_id account_id) >>= λ entries.
    on_metadata (remove_metadata entries)

clear_followings : AccountId → Exec ReadSide (Unit {0})
unfolding delete_each
clear_followings account_id = on_follows (find_by_source (local account_id)) >>= λ followings.
    on_follows (delete_each followings)

clear_followers : AccountId → Exec ReadSide (Unit {0})
unfolding delete_each
clear_followers account_id = on_follows (find_followers (local account_id)) >>= λ followers.
    on_follows (delete_each followers)

-- what goes when an account is deactivated; the link to its owner stays
unfoldable pub remove_details : AccountId → Exec ReadSide (Unit {0})
unfolding clear_profile clear_metadata clear_followings clear_followers
remove_details account_id =
    clear_profile account_id
    >> clear_metadata account_id
    >> clear_followings account_id
    >> clear_followers account_id

-- the answer of the relation service is logged at most
unfoldable pub send : RelationCall → Exec ReadSide (Unit {0})
send request w = (ok tt, record w { calls = w.calls ++ request ∷ [] })

link_owner : AccountId → Option AuthAccountId → Exec ReadSide (Unit {0})
unfolding send
link_owner account_id none = pure tt
link_owner account_id (some auth_id) =
    on_tables (link_auth_account account_id auth_id)
    >> send (create_relation (account_target account_id owner) auth_id)

-- the row of an account, and what goes with it
unfoldable pub write_projection :
    AccountId → Option AuthAccountId → Option Account → Exec ReadSide (Unit {0})
unfolding link_owner
write_projection account_id auth_account_id none = pure tt
write_projection account_id auth_account_id (some account) =
    on_tables (upsert account)
    >> (if is_some account.deleted_at
        then remove_details account_id
        else link_owner account_id auth_account_id)

-- a fold that failed is skipped
write_folded :
    AccountId → Option AuthAccountId → Result (Unit {0}) × Option Account → Exec ReadSide (Unit {0})
unfolding write_projection under_savepoint
write_folded account_id auth_account_id (err e, entity) = pure tt
write_folded account_id auth_account_id (ok _, entity) =
    under_savepoint (write_projection account_id auth_account_id entity)

-- the greatest `seq` of the batch, or the checkpoint
unfoldable pub max_seq : {E : Type 0} → ℕ → List (SeqEvent E) → ℕ
max_seq checkpoint [] = checkpoint
max_seq checkpoint (row ∷ rows) = max_seq row.seq rows

abbrev pub checkpoint_or_zero : Option ℕ → ℕ
checkpoint_or_zero none = 0
checkpoint_or_zero (some seq) = seq

module _ (env : Surroundings) where
  project_pending :
      AccountId
      → Option AuthAccountId
      → Option Account
      → List (EventEnvelope AccountEvent)
      → Exec ReadSide (Unit {0})
  unfolding fold account_applier write_folded
  project_pending account_id auth_account_id existing pending =
      if nothing_pending pending && is_none auth_account_id
      then pure tt
      else write_folded account_id auth_account_id
          (fold (account_applier env.externals) (env.replayed_at account_id) pending existing)

  -- one turn of the loop over the accounts
  unfoldable pub project_group : Group → Exec ReadSide (Unit {0})
  unfolding sort_by_key created_auth_account_id project_pending
  project_group (account_id, envelopes) = do
    let events : List (EventEnvelope AccountEvent) = sort_by_key version_of envelopes
    existing ← on_tables (find_by_id_unfiltered env.queried_at account_id)
    project_pending account_id (created_auth_account_id events) existing
        (filter (is_newer existing) events)

  unfoldable pub project_groups : List Group → Exec ReadSide (Unit {0})
  unfolding project_group
  project_groups [] = pure tt
  project_groups (group ∷ groups) = project_group group >> project_groups groups

  -- an empty batch ends the poll
  project_events : ℕ → List (SeqEvent AccountEvent) → Exec ReadSide ℕ
  unfolding project_groups group_events max_seq
  project_events checkpoint [] = pure checkpoint
  project_events checkpoint (row ∷ rows) = do
    project_groups (env.iterate (group_events [] (row ∷ rows)))
    on_checkpoints (EventLog.set account_projector_name (max_seq checkpoint (row ∷ rows)))
    pure (max_seq checkpoint (row ∷ rows))

  poll : Exec ReadSide ℕ
  unfolding project_events
  poll = do
    stored ← on_checkpoints (EventLog.get account_projector_name)
    events ← on_events (
        find_by_seq_window (checkpoint_or_zero stored) account_projector_window
          account_projector_batch_limit)
    project_events (checkpoint_or_zero stored) events

  unfoldable pub project_batch : Exec ReadSide ℕ
  unfolding poll in_transaction
  project_batch = in_transaction poll
