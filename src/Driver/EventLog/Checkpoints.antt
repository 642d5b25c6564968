-- ===== src/Driver/EventLog/Checkpoints.antt =====
-- What a projector reads back of the checkpoints that it sets.
use Prim.Native.String.{String}
use text.Mathlib.Text.{◌==◌ as str_eq}
use text.Mathlib.TextPositions.{eq_refl}
use emumet.Prelude.{
  ℕ, ◌≤◌, ◌≡◌, refl, subst, Option, none, some, [], ◌∷◌, arith, Bool-cases, inl, inr,
}
use emumet.Kernel.Error.{ok}
use emumet.Driver.EventLog.{CheckpointTable, greatest, last_seq, advance, get, set}

-- where a checkpoint stands after it is set
abbrev pub moved : Option ℕ → ℕ → ℕ
moved none seq = seq
moved (some s) seq = greatest s seq

last_seq-advance :
    (name : String) (seq : ℕ) (rows : CheckpointTable)
    → last_seq name (advance name seq rows) ≡ some (moved (last_seq name rows) seq)
last_seq-advance name seq [] = rw (eq_refl name) refl
last_seq-advance name seq ((n, s) ∷ rows) = elim (Bool-cases (str_eq n name)) [
  | inl e ↦ rw (e, e) refl
  | inr e ↦ rw (e, e) (last_seq-advance name seq rows)
]

some-inv : (m n : ℕ) → some m ≡ some n → m ≡ n
some-inv m n e = ground arith

greatest-ge : (m n : ℕ) → m ≤ greatest m n
greatest-ge m n = ground arith

last_seq-monotone :
    (name other : String) (seq before : ℕ) (rows : CheckpointTable)
    → last_seq other rows ≡ some before
    → (after : ℕ) × (last_seq other (advance name seq rows) ≡ some after) × (before ≤ after)
last_seq-monotone name other seq before [] h = cc
last_seq-monotone name other seq before ((n, s) ∷ rows) h = elim (Bool-cases (str_eq n name)) [
  | inl same ↦ elim (Bool-cases (str_eq n other)) [
    | inl e ↦
        rw (same, e)
          (
            greatest s seq,
            refl,
            subst (λ b. b ≤ greatest s seq) (some-inv s before (rw e at h)) (greatest-ge s seq),
          )
    | inr e ↦ rw (same, e) (before, rw e at h, omega arith)
  ]
  | inr new ↦ elim (Bool-cases (str_eq n other)) [
    | inl e ↦ rw (new, e) (before, rw e at h, omega arith)
    | inr e ↦ rw (new, e) (last_seq-monotone name other seq before rows (rw e at h))
  ]
]

get-inv :
    (name : String) (rows : CheckpointTable) (seq : ℕ)
    → get name rows ≡ (ok (some seq), rows)
    → last_seq name rows ≡ some seq
unfolding get
get-inv name rows seq h = ground arith

module _ (name : String) (seq : ℕ) (rows : CheckpointTable) where
  -- After `set` the checkpoint reads as the greatest of the number and the one that was there.
  pub get-set :
      get name (set name seq rows).1
      ≡ (ok (some (moved (last_seq name rows) seq)), (set name seq rows).1)
  unfolding get set
  get-set = rw (last_seq-advance name seq rows) refl

  -- After a checkpoint is set, every checkpoint that could be read before, of the same projector or
  -- of another, can be read and is at least what it was.
  pub set_monotone :
      (other : String) (before : ℕ)
      → get other rows ≡ (ok (some before), rows)
      → (after : ℕ) × (get other (set name seq rows).1 ≡ (ok (some after), (set name seq rows).1))
        × (before ≤ after)
  unfolding get set
  set_monotone other before h =
      let (after, e, le) =
        last_seq-monotone name other seq before rows (get-inv other rows before h) in
      (after, rw e refl, le)
