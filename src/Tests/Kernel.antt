-- ===== src/Tests/Kernel.antt =====
-- The entities and the checks of kernel/ at concrete inputs.
use Prim.Native.String.{String}
use emumet.Prelude.{ℕ, ◌≡◌, refl, none, some, true, false, List, [], ◌∷◌, map, ◌+◌}
use emumet.Kernel.Error.{ok}
use emumet.Kernel.Event.{OffsetDateTime, EventEnvelope}
use emumet.Kernel.Id.{IsLawful, extract_timestamp_ms, from_timestamp_ms, created_at_total}
use emumet.Kernel.Rehydrated.{fold}
use emumet.Kernel.FieldAction.{FieldAction, unchanged, clear, set}
use emumet.Kernel.Account.{
  AccountEvent, created, deactivated, reactivated, banned, apply, account_applier,
}
use emumet.Kernel.Account.Status
use emumet.Kernel.Account.Replay.{SameSlot, fold_clock_independent}
use emumet.Kernel.Account.Balance.{
  fold-Balanced, flag, count, is_deleted, has_ban, is_deactivated, is_reactivated, is_ban, is_unban,
  is_created,
}
use emumet.Kernel.Account.Identity.{Kept, fold-Kept}
use emumet.Kernel.Metadata.{Metadata}
use emumet.Kernel.Profile.{Profile, ProfileEvent, updated, profile_applier}
use emumet.Kernel.Profile.Updates.{Update, value_after, fold-after_updates}
use emumet.Tests.Fixture.{externals, alice}

abbrev event : AccountEvent → ℕ → EventEnvelope AccountEvent
event e version = record { id = 7; event = e; version = version }

abbrev history : List (EventEnvelope AccountEvent)
history =
    event (created "alice" false "a1" 3) 10
    ∷ event deactivated 11
    ∷ event reactivated 12
    ∷ event (banned "spam" 40) 13
    ∷ []

externals-IsLawful : IsLawful externals
externals-IsLawful = record { mask = refl; dates = λ secs h. refl; fractions = λ nanos t h. refl }

replays : (fold (account_applier externals) (λ n. n) history none).0 ≡ ok tt
unfolding fold account_applier apply extract_timestamp_ms from_timestamp_ms
replays = refl

fold-Balanced_example :
    let t = (fold (account_applier externals) (λ n. n) history none).1 in
    (flag is_deleted none + count is_deactivated history
      ≡ count is_reactivated history + flag is_deleted t)
    × (flag has_ban none + count is_ban history ≡ count is_unban history + flag has_ban t)
    × (flag (λ a. true) none + count is_created history ≡ flag (λ a. true) t)
fold-Balanced_example = fold-Balanced externals (λ n. n) history none replays

fold_clock_independent_example :
    ((fold (account_applier externals) (λ n. n) history none).0
      ≡ (fold (account_applier externals) (λ n. 9) history none).0)
    × SameSlot
        (fold (account_applier externals) (λ n. n) history none).1
        (fold (account_applier externals) (λ n. 9) history none).1
fold_clock_independent_example =
    fold_clock_independent externals (λ n. n) (λ n. 9) history none none tt

abbrev later : List (EventEnvelope AccountEvent)
later = event (banned "spam" 40) 13 ∷ []

later_replays :
    (fold (account_applier externals) (λ n. n) later (some (alice Status.active none 10))).0 ≡ ok tt
unfolding fold account_applier apply
later_replays = refl

fold-Kept_example :
    Kept
      (alice Status.active none 10)
      13
      (fold (account_applier externals) (λ n. n) later (some (alice Status.active none 10))).1
fold-Kept_example = fold-Kept externals (λ n. n) later (alice Status.active none 10) later_replays

created_at_total_example :
    (t : OffsetDateTime) × (from_timestamp_ms externals (extract_timestamp_ms externals 123456789)
      ≡ ok t)
created_at_total_example = created_at_total externals 123456789 externals-IsLawful

abbrev profile : Profile
profile = record {
  id = 4;
  account_id = 7;
  display_name = some "Alice";
  summary = none;
  icon = none;
  banner = some 2;
  version = 20;
  nanoid = "p1";
}

abbrev profile_event :
    ℕ
    → FieldAction String
    → FieldAction String
    → FieldAction ℕ
    → FieldAction ℕ
    → EventEnvelope ProfileEvent
profile_event version name summary icon banner = record {
  id = 4;
  event = updated name summary icon banner;
  version = version;
}

abbrev profile_update :
    ℕ → FieldAction String → FieldAction String → FieldAction ℕ → FieldAction ℕ → Update
profile_update version name summary icon banner = record {
  event = profile_event version name summary icon banner;
  display_name = name;
  summary = summary;
  icon = icon;
  banner = banner;
  holds = refl;
}

abbrev profile_updates : List Update
profile_updates =
    profile_update 21 (set "Al") unchanged (set 5) clear
    ∷ profile_update 22 unchanged (set "hi") clear unchanged
    ∷ []

fold-after_updates_example :
    fold profile_applier (λ n. n) (map (λ (u : Update). u.event) profile_updates) (some profile) ≡ (
      ok tt,
      some (record profile {
        display_name = some "Al";
        summary = some "hi";
        icon = none;
        banner = none;
        version = 22;
      }),
    )
unfolding value_after
fold-after_updates_example = fold-after_updates (λ n. n) profile_updates profile

abbrev site : Metadata
site = record { id = 6; account_id = 7; label = "site"; content = "a"; version = 30; nanoid = "m1" }
