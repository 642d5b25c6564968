-- ===== src/Kernel/Metadata/Deletion.antt =====
-- A metadata entry after its deletion.
use emumet.Prelude.{◌≡◌, none, some, List, [], ◌∷◌, ◌++◌, arith}
use emumet.Kernel.Error.{ok}
use emumet.Kernel.Event.{EventEnvelope}
use emumet.Kernel.Rehydrated.{Clock, fold, from_events_allow_deletion}
use emumet.Kernel.Rehydrated.Laws.{from_events_allow_deletion-append}
use emumet.Kernel.Metadata.{Metadata, MetadataEvent, deleted, apply, metadata_applier}

-- If a stream folds to an entry, the stream with a deletion at its end loads as no entry and
-- without an error.
pub deletion_loads_none :
    (clock : Clock) (events : List (EventEnvelope MetadataEvent))
    (event : EventEnvelope MetadataEvent) (metadata : Metadata)
    → fold metadata_applier clock events none ≡ (ok tt, some metadata)
    → event.event ≡ deleted
    → from_events_allow_deletion metadata_applier clock (events ++ event ∷ []) ≡ ok none
deletion_loads_none clock events event metadata h e =
    rw (from_events_allow_deletion-append metadata_applier clock events event h)
      (unfold metadata_applier apply in ground (arith, e))
