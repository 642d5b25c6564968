-- ===== src/Tests/Projection.antt =====
-- A poll of the account projector over alice's stream.
use emumet.Prelude.{◌+◌, ◌≡◌, refl, some, none, true, List, [], ◌∷◌, map}
use emumet.Prelude.Sort.{sort_by_key}
use emumet.Kernel.Error.{ok}
use emumet.Kernel.Event.{version_of}
use emumet.Kernel.Rehydrated.{fold}
use emumet.Kernel.Account.{Account, AccountEvent, updated, reactivated, account_applier, apply}
use emumet.Kernel.Account.Status
use emumet.Driver.EventStore.{SeqEvent}
use emumet.Driver.Accounts.{to_row, find_by_id_unfiltered, account_from_row, upsert}
use emumet.Driver.Accounts.Upsert.{row_of, newest}
use emumet.Application.Projection.{
  ReadSide, Surroundings, Group, project_batch, project_group, max_seq, created_auth_account_id,
}
use emumet.Application.Projection.Polls.{checkpoint, batch, moved, project_batch_lem}
use emumet.Application.Projection.Groups.{
  IsLinked, Finds, FoldsTo, project_group_lem, project_group_hidden,
}
use emumet.Kernel.Profile.{Profile, ProfileEvent}
use emumet.Kernel.Profile as Profile
use emumet.Driver.Profiles as Profiles
use emumet.Application.DetailProjection.{
  DetailSide, DetailSurroundings, profile_detail, Detail, project_detail_batch,
}
use emumet.Application.DetailProjection.Polls.{IsReader, project_detail_batch_lem}
use emumet.Driver.EventLog.{advance}
use emumet.Tests.Fixture.{externals, born, row, alice, table}

abbrev surroundings : Surroundings
surroundings = record {
  externals = externals;
  queried_at = 1000;
  replayed_at = λ account_id n. 1000 + n;
  iterate = λ groups. groups;
}

-- alice's row is that of version 10, and her stream is longer
abbrev read_side : Account → List (SeqEvent AccountEvent) → ReadSide
read_side account rows = record {
  events = table rows;
  checkpoints = [];
  tables = record { accounts = to_row account ∷ []; links = (7, 3) ∷ []; auth_accounts = 3 ∷ [] };
  profiles = [];
  metadata = [];
  follows = [];
  calls = [];
}

abbrev changed : List (SeqEvent AccountEvent)
changed = born ∷ row 2 11 (updated true) ∷ []

abbrev changed_group : Group
changed_group = (7, map (λ (r : SeqEvent AccountEvent). r.envelope) changed)

abbrev stale : ReadSide
stale = read_side (alice Status.active none 10) changed

project_batch_lem_example :
    ((project_batch surroundings stale).0 ≡ ok (max_seq (checkpoint stale) (batch stale)))
    × ((project_batch surroundings stale).1.events ≡ stale.events)
    × ((project_batch surroundings stale).1.checkpoints
        ≡ moved (checkpoint stale) (batch stale) stale.checkpoints)
project_batch_lem_example = project_batch_lem surroundings stale

stale-Finds : Finds surroundings changed_group (some (alice Status.active none 10)) stale
unfolding find_by_id_unfiltered account_from_row to_row
stale-Finds = refl

changed-FoldsTo :
    FoldsTo surroundings changed_group
      (some (alice Status.active none 10))
      (record (alice Status.active none 11) { is_bot = true })
unfolding fold account_applier apply sort_by_key
changed-FoldsTo = refl

project_group_lem_example :
    (row_of 7 (project_group surroundings changed_group stale).1.tables
      ≡ some (
          newest
            (to_row (record (alice Status.active none 11) { is_bot = true }))
            (row_of 7 stale.tables)))
    × IsLinked 7
        (created_auth_account_id (sort_by_key version_of changed_group.1))
        (project_group surroundings changed_group stale).1.tables
unfolding created_auth_account_id sort_by_key upsert to_row
project_group_lem_example =
    project_group_lem surroundings changed_group (some (alice Status.active none 10))
      (record (alice Status.active none 11) { is_bot = true }) stale stale-Finds refl
      changed-FoldsTo refl refl refl refl

-- alice's row is deactivated, and the window holds the reactivation alone
abbrev back : Group
back = (7, record { id = 7; event = reactivated; version = 12 } ∷ [])

abbrev hidden : ReadSide
hidden = read_side (alice Status.active (some 900) 11) []

hidden-Finds : Finds surroundings back none hidden
unfolding find_by_id_unfiltered to_row
hidden-Finds = refl

project_group_hidden_example : project_group surroundings back hidden ≡ (ok tt, hidden)
unfolding sort_by_key created_auth_account_id
project_group_hidden_example = project_group_hidden surroundings back hidden hidden-Finds refl

abbrev profile_surroundings : DetailSurroundings ProfileEvent
profile_surroundings = record {
  queried_at = 1000;
  replayed_at = λ id n. 1000 + n;
  iterate = λ groups. groups;
}

-- the profile of a deactivated account, whose row was removed
abbrev profile_side : DetailSide Profile ProfileEvent
profile_side = record {
  events = record {
    rows =
        record {
          seq = 1;
          envelope = record {
            id = 9;
            event = Profile.created 7 none none none none "p1";
            version = 20;
          };
        }
        ∷ [];
    next_seq = 2;
  };
  checkpoints = [];
  accounts = hidden.tables;
  details = [];
}

abbrev profiles : Detail Profile ProfileEvent
profiles = profile_detail (λ image. true)

profiles-IsReader : IsReader profiles
unfolding Profiles.find_by_id_unfiltered
profiles-IsReader = record { found = λ id rows. _; reads = λ id rows. refl }

project_detail_batch_lem_example :
    let after = project_detail_batch profiles profile_surroundings profile_side in
    (after.0 ≡ ok 1)
    × (after.1.events ≡ profile_side.events)
    × (after.1.accounts ≡ hidden.tables)
    × (after.1.checkpoints ≡ advance profiles.projector_name 1 [])
unfolding sort_by_key max_seq
project_detail_batch_lem_example =
    project_detail_batch_lem profiles profile_surroundings profiles-IsReader profile_side
