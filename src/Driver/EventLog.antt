-- ===== src/Driver/EventLog.antt =====
-- driver/src/database/postgres/projection.rs: the event logs, which read an event table by `seq`, and
-- the checkpoints of the projectors. A window starts at `from - minus`, which may be negative.
pub mod Window
pub mod Batches
pub mod Checkpoints
use Prim.Native.String.{String}
use text.Mathlib.Text.{◌==◌ as str_eq}
use emumet.Prelude.{
  ℕ, ◌+◌, Option, none, some, Bool, List, [], ◌∷◌, ltb, if◌then◌else◌, take, filter,
}
use emumet.Prelude.Sort.{sort_by_key}
use emumet.Kernel.Error.{ok}
use emumet.Kernel.Exec.{Exec, gets}
use emumet.Driver.EventStore.{SeqEvent, EventTable}

abbrev pub seq_of : {E : Type 0} → SeqEvent E → ℕ
seq_of row = row.seq

module _ {E : Type 0} where
  abbrev pub is_after : ℕ → ℕ → SeqEvent E → Bool
  is_after from minus row = ltb from (row.seq + minus)

  -- SELECT .. WHERE seq > from - minus ORDER BY seq LIMIT limit
  unfoldable pub find_by_seq_window : ℕ → ℕ → ℕ → Exec (EventTable E) (List (SeqEvent E))
  find_by_seq_window from minus limit =
      gets λ table. take limit (sort_by_key seq_of (filter (is_after from minus) table.rows))

-- the table `projection_checkpoints`; the time of the update is never read back
abbrev pub CheckpointTable : Type 0
CheckpointTable = List (String × ℕ)

abbrev pub greatest : ℕ → ℕ → ℕ
greatest m n = if ltb m n then n else m

abbrev pub last_seq : String → CheckpointTable → Option ℕ
last_seq name [] = none
last_seq name ((n, seq) ∷ rows) = if str_eq n name then some seq else last_seq name rows

-- INSERT .. ON CONFLICT (projector_name) DO UPDATE SET last_seq = GREATEST(..)
abbrev pub advance : String → ℕ → CheckpointTable → CheckpointTable
advance name seq [] = (name, seq) ∷ []
advance name seq ((n, s) ∷ rows) =
    if str_eq n name then (n, greatest s seq) ∷ rows else (n, s) ∷ advance name seq rows

-- `ProjectionCheckpointStore::get` and `set`
unfoldable pub get : String → Exec CheckpointTable (Option ℕ)
get name = gets (last_seq name)

unfoldable pub set : String → ℕ → Exec CheckpointTable (Unit {0})
set name seq rows = (ok tt, advance name seq rows)
