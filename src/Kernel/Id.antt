-- ===== src/Kernel/Id.antt =====
-- kernel/src/id.rs and entity/common/created_at.rs: the creation time that an id carries. The id
-- layout's two constants are the ferroid crate's, and the calendar is the time crate's: they are
-- parameters, with the behaviour that their documentation promises as `IsLawful`.
use Prim.Native.Nat.{bit_and, digits, min, bit_and-bitwise}
use emumet.Prelude.{
  ℕ, zero, suc, ◌+◌, ◌-◌, ◌*◌, ◌/◌, ◌%◌, ◌^◌, ◌≤◌, ◌<◌, ◌≡◌, Option, true, arith, is_some,
  Option-cases, inl, inr,
}
use emumet.Kernel.Error.{Result, ok, internal, ok_or, ◌>>=◌}
use emumet.Kernel.Event.{OffsetDateTime}

pub record Externals : Type 0 where
  -- `EmumetSnowflake::TIMESTAMP_SHIFT` and `TIMESTAMP_MASK`
  pub timestamp_shift : ℕ
  pub timestamp_mask : ℕ
  -- `OffsetDateTime::from_unix_timestamp` and `replace_nanosecond`
  pub from_unix_timestamp : ℕ → Option OffsetDateTime
  pub replace_nanosecond : ℕ → OffsetDateTime → Option OffsetDateTime

pub record IsLawful (x : Externals) : Type 0 where
  -- 41 bits of timestamp
  pub mask : x.timestamp_mask ≡ 2 ^ 41 - 1
  -- seconds up to the end of the year 9999 are dates
  pub dates : (secs : ℕ) → secs ≤ 253402300799 → is_some (x.from_unix_timestamp secs) ≡ true
  -- a fraction below one second fits
  pub fractions :
      (nanos : ℕ) (t : OffsetDateTime)
      → nanos < 1000000000
      → is_some (x.replace_nanosecond nanos t) ≡ true

abbrev pub emumet_epoch_ms : ℕ
emumet_epoch_ms = 1767225600 * 1000

unfoldable pub extract_timestamp_ms : Externals → ℕ → ℕ
extract_timestamp_ms x raw =
    (bit_and (raw / 2 ^ x.timestamp_shift) x.timestamp_mask + emumet_epoch_ms) % 2 ^ 64

-- `CreatedAt::from_timestamp_ms`
unfoldable pub from_timestamp_ms : Externals → ℕ → Result OffsetDateTime
from_timestamp_ms x ms =
    let secs = ms / 1000 in
    let nanos = ms % 1000 * 1000000 % 2 ^ 32 in
    do
      datetime ← ok_or internal (x.from_unix_timestamp secs)
      ok_or internal (x.replace_nanosecond nanos datetime)

digits-le : (n a b : ℕ) → digits (λ y. 0) min n a b ≤ b
digits-le zero zero b = omega arith
digits-le zero (suc a) b = omega arith
digits-le (suc n) zero b = omega arith
digits-le (suc n) (suc a) b = omega (arith, digits-le n (suc a / 2) (b / 2))

bit_and-le : (a b : ℕ) → bit_and a b ≤ b
bit_and-le a b = rw bit_and-bitwise (digits-le a a b)

-- An id's timestamp lies between the epoch and 2 ^ 41 milliseconds later.
pub extract_timestamp_ms_bounds :
    (x : Externals) (raw : ℕ)
    → IsLawful x
    → (emumet_epoch_ms ≤ extract_timestamp_ms x raw)
      × (extract_timestamp_ms x raw < emumet_epoch_ms + 2 ^ 41)
unfolding extract_timestamp_ms
extract_timestamp_ms_bounds x raw h =
    let le = bit_and-le (raw / 2 ^ x.timestamp_shift) x.timestamp_mask in
    let m = h.mask in (omega arith, omega arith)

from_timestamp_ms_total :
    (x : Externals) (ms : ℕ)
    → IsLawful x
    → ms / 1000 ≤ 253402300799
    → (t : OffsetDateTime) × (from_timestamp_ms x ms ≡ ok t)
unfolding from_timestamp_ms
from_timestamp_ms_total x ms h le = elim (Option-cases (x.from_unix_timestamp (ms / 1000))) [
  | inl e ↦ absurd (ground (arith, h.dates (ms / 1000) le))
  | inr (d, e) ↦ elim (Option-cases (x.replace_nanosecond (ms % 1000 * 1000000 % 2 ^ 32) d)) [
    | inl f ↦ absurd (ground (arith, h.fractions (ms % 1000 * 1000000 % 2 ^ 32) d (omega arith)))
    | inr (t, f) ↦ (t, rw (e, f))
  ]
]

-- Under the documented behaviour of the crates, every id yields a creation time.
pub created_at_total :
    (x : Externals) (raw : ℕ)
    → IsLawful x
    → (t : OffsetDateTime) × (from_timestamp_ms x (extract_timestamp_ms x raw) ≡ ok t)
created_at_total x raw h =
    from_timestamp_ms_total x (extract_timestamp_ms x raw) h
      (omega (arith, extract_timestamp_ms_bounds x raw h))
