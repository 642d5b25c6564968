-- ===== src/Kernel/Profile.antt =====
-- kernel/src/entity/profile.rs: the profile aggregate.
pub mod Updates
use Prim.Native.String.{String}
use emumet.Prelude.{ℕ, Option, none, some}
use emumet.Kernel.Error.{Result, ok, err, internal}
use emumet.Kernel.Exec.{Exec}
use emumet.Kernel.Event.{
  OffsetDateTime, EventVersion, EventId, EventEnvelope, nothing, CommandEnvelope, EventApplier,
}
use emumet.Kernel.FieldAction.{FieldAction, act}
use emumet.Kernel.Account.{AccountId}

abbrev pub ProfileId : Type 0
ProfileId = ℕ

abbrev pub ImageId : Type 0
ImageId = ℕ

pub record Profile : Type 0 where
  pub id : ProfileId
  pub account_id : AccountId
  pub display_name : Option String
  pub summary : Option String
  pub icon : Option ImageId
  pub banner : Option ImageId
  pub version : EventVersion
  pub nanoid : String

pub data ProfileEvent : Type 0 where
  -- account_id, display_name, summary, icon, banner, nanoid
  created :
      AccountId
      → Option String
      → Option String
      → Option ImageId
      → Option ImageId
      → String
      → ProfileEvent
  -- display_name, summary, icon, banner
  updated :
      FieldAction String
      → FieldAction String
      → FieldAction ImageId
      → FieldAction ImageId
      → ProfileEvent

abbrev pub ProfileCommand : Type 0
ProfileCommand = CommandEnvelope ProfileEvent

unfoldable pub create :
    ProfileId
    → AccountId
    → Option String
    → Option String
    → Option ImageId
    → Option ImageId
    → String
    → ProfileCommand
create id account_id display_name summary icon banner nanoid = record {
  id = id;
  event = created account_id display_name summary icon banner nanoid;
  prev_version = some nothing;
}

-- last write wins: no expected version
unfoldable pub update :
    ProfileId
    → FieldAction String
    → FieldAction String
    → FieldAction ImageId
    → FieldAction ImageId
    → ProfileCommand
update id display_name summary icon banner = record {
  id = id;
  event = updated display_name summary icon banner;
  prev_version = none;
}

dispatch : ProfileEvent → EventEnvelope ProfileEvent → Exec (Option Profile) (Unit {0})
unfolding act
dispatch (created account_id display_name summary icon banner nanoid) event none = (
  ok tt,
  some (record {
    id = event.id;
    account_id = account_id;
    display_name = display_name;
    summary = summary;
    icon = icon;
    banner = banner;
    version = event.version;
    nanoid = nanoid;
  }),
)
dispatch (created _ _ _ _ _ _) event (some profile) = (err internal, some profile)
dispatch (updated _ _ _ _) event none = (err internal, none)
dispatch (updated display_name summary icon banner) event (some profile) = (
  ok tt,
  some (record profile {
    display_name = act display_name profile.display_name;
    summary = act summary profile.summary;
    icon = act icon profile.icon;
    banner = act banner profile.banner;
    version = event.version;
  }),
)

unfoldable pub apply : EventEnvelope ProfileEvent → Exec (Option Profile) (Unit {0})
unfolding dispatch
apply event entity = dispatch event.event event entity

unfoldable pub profile_applier : EventApplier Profile ProfileEvent
unfolding apply
profile_applier = record { apply = λ now event. apply event }
