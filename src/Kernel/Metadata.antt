-- ===== src/Kernel/Metadata.antt =====
-- kernel/src/entity/metadata.rs: the metadata aggregate, the one that can be deleted.
pub mod Deletion
use Prim.Native.String.{String}
use emumet.Prelude.{ℕ, Option, none, some}
use emumet.Kernel.Error.{ok, err, internal}
use emumet.Kernel.Exec.{Exec}
use emumet.Kernel.Event.{EventVersion, EventEnvelope, nothing, at, CommandEnvelope, EventApplier}
use emumet.Kernel.Account.{AccountId}

abbrev pub MetadataId : Type 0
MetadataId = ℕ

pub record Metadata : Type 0 where
  pub id : MetadataId
  pub account_id : AccountId
  pub label : String
  pub content : String
  pub version : EventVersion
  pub nanoid : String

pub data MetadataEvent : Type 0 where
  -- account_id, label, content, nanoid
  created : AccountId → String → String → String → MetadataEvent
  -- label, content
  updated : String → String → MetadataEvent
  deleted : MetadataEvent

abbrev pub MetadataCommand : Type 0
MetadataCommand = CommandEnvelope MetadataEvent

unfoldable pub create : MetadataId → AccountId → String → String → String → MetadataCommand
create id account_id label content nanoid = record {
  id = id;
  event = created account_id label content nanoid;
  prev_version = some nothing;
}

unfoldable pub update : MetadataId → String → String → EventVersion → MetadataCommand
update id label content current_version = record {
  id = id;
  event = updated label content;
  prev_version = some (at current_version);
}

unfoldable pub delete : MetadataId → EventVersion → MetadataCommand
delete id current_version = record {
  id = id;
  event = deleted;
  prev_version = some (at current_version);
}

dispatch : MetadataEvent → EventEnvelope MetadataEvent → Exec (Option Metadata) (Unit {0})
dispatch (created account_id label content nanoid) event none = (
  ok tt,
  some (record {
    id = event.id;
    account_id = account_id;
    label = label;
    content = content;
    version = event.version;
    nanoid = nanoid;
  }),
)
dispatch (created _ _ _ _) event (some metadata) = (err internal, some metadata)
dispatch (updated _ _) event none = (err internal, none)
dispatch (updated label content) event (some metadata) =
    (ok tt, some (record metadata { label = label; content = content; version = event.version }))
dispatch deleted event none = (err internal, none)
dispatch deleted event (some metadata) = (ok tt, none)

unfoldable pub apply : EventEnvelope MetadataEvent → Exec (Option Metadata) (Unit {0})
unfolding dispatch
apply event entity = dispatch event.event event entity

unfoldable pub metadata_applier : EventApplier Metadata MetadataEvent
unfolding apply
metadata_applier = record { apply = λ now event. apply event }
