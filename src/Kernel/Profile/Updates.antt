-- ===== src/Kernel/Profile/Updates.antt =====
-- The fields of a profile after any run of events.
use Prim.Native.String.{String}
use emumet.Prelude.{suc, ◌≡◌, ◌∙◌, refl, Option, none, some, List, [], ◌∷◌, map, last_from, arith}
use emumet.Kernel.Error.{KernelError, Result, ok, err}
use emumet.Kernel.Event.{EventEnvelope}
use emumet.Kernel.FieldAction.{FieldAction, unchanged, clear, set, act}
use emumet.Kernel.Rehydrated.{Clock, fold}
use emumet.Kernel.Profile.{Profile, ProfileEvent, ImageId, updated, apply, profile_applier}

module _ {ℓ} {T : Type ℓ} where
  abbrev later : FieldAction T → FieldAction T → FieldAction T
  later action unchanged = action
  later action clear = clear
  later action (set v) = set v

  -- the last action on a field that is not `Unchanged`
  abbrev latest : List (FieldAction T) → FieldAction T
  latest [] = unchanged
  latest (action ∷ actions) = later action (latest actions)

  -- what a field holds that held the first value before the action
  abbrev value_of : Option T → FieldAction T → Option T
  value_of field unchanged = field
  value_of field clear = none
  value_of field (set v) = some v

  -- what a field holds after actions on it
  unfoldable pub value_after : List (FieldAction T) → Option T → Option T
  value_after actions field = value_of field (latest actions)

  value_of-later :
      (action last : FieldAction T) (field : Option T)
      → value_of (act action field) last ≡ value_of field (later action last)
  unfolding act
  value_of-later unchanged unchanged field = refl
  value_of-later clear unchanged field = refl
  value_of-later (set v) unchanged field = refl
  value_of-later action clear field = refl
  value_of-later action (set v) field = refl

  value_after-act :
      (action : FieldAction T) (actions : List (FieldAction T)) (field : Option T)
      → value_after actions (act action field) ≡ value_after (action ∷ actions) field
  unfolding value_after
  value_after-act action actions field = value_of-later action (latest actions) field

-- an update of a profile, with the actions that its event holds
pub record Update : Type 0 where
  pub event : EventEnvelope ProfileEvent
  pub display_name : FieldAction String
  pub summary : FieldAction String
  pub icon : FieldAction ImageId
  pub banner : FieldAction ImageId
  pub holds : event.event ≡ updated display_name summary icon banner

abbrev pub after_updates : List Update → Profile → Profile
after_updates updates profile = record profile {
  display_name = value_after (map (λ (u : Update). u.display_name) updates) profile.display_name;
  summary = value_after (map (λ (u : Update). u.summary) updates) profile.summary;
  icon = value_after (map (λ (u : Update). u.icon) updates) profile.icon;
  banner = value_after (map (λ (u : Update). u.banner) updates) profile.banner;
  version = last_from profile.version (map (λ (u : Update). u.event.version) updates);
}

no_updates :
    (profile : Profile)
    → ◌≡◌ {A = Result (Unit {0}) × Option Profile}
        (ok tt, some profile)
        (ok tt, some (after_updates [] profile))
unfolding value_after
no_updates profile = refl

-- The replay of any updates on a profile succeeds. Each field then holds what the last action on it
-- that is not `Unchanged` wrote, or what it held if there is none, the version is that of the last
-- update, and the ids and the nanoid stay.
pub fold-after_updates :
    (clock : Clock) (updates : List Update) (profile : Profile)
    → fold profile_applier clock (map (λ (u : Update). u.event) updates) (some profile)
      ≡ (ok tt, some (after_updates updates profile))
unfolding fold profile_applier apply
fold-after_updates clock [] profile = no_updates profile
fold-after_updates clock (u ∷ us) profile = rw u.holds (
    fold-after_updates (λ n. clock (suc n)) us
      (record profile {
        display_name = act u.display_name profile.display_name;
        summary = act u.summary profile.summary;
        icon = act u.icon profile.icon;
        banner = act u.banner profile.banner;
        version = u.event.version;
      })
    ∙ rw
        (
          value_after-act u.display_name (map (λ (v : Update). v.display_name) us)
              profile.display_name,
          value_after-act u.summary (map (λ (v : Update). v.summary) us) profile.summary,
          value_after-act u.icon (map (λ (v : Update). v.icon) us) profile.icon,
          value_after-act u.banner (map (λ (v : Update). v.banner) us) profile.banner,
        )
        refl)

-- A refused profile event leaves the profile, or the empty slot, as it was.
pub profile_error_unchanged :
    (event : EventEnvelope ProfileEvent) (entity : Option Profile) (e : KernelError)
    → (apply event entity).0 ≡ err e
    → (apply event entity).1 ≡ entity
unfolding apply
profile_error_unchanged event none e h = ground arith
profile_error_unchanged event (some profile) e h = ground arith
