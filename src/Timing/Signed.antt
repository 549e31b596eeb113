-- ===== src/Timing/Signed.antt =====
-- `BeaconTiming::time_until_slot` of src/types/beacon.rs, whose result is signed.
use preconfirmation_gateway.Common.{
  ℕ, ◌+◌, ◌-◌, ◌*◌, ◌≤◌, ◌≡◌, arith, leb, if◌then◌else◌, wrapping_add, wrapping_sub, wrapping_mul,
  i64_max, u64_max,
}
use preconfirmation_gateway.Timing.{slot_duration_seconds}

-- `negsuc n` is -(n + 1).
pub data ℤ : Type 0 where
  pos : ℕ → ℤ
  negsuc : ℕ → ℤ

-- `as i64` of a `u64`.
unfoldable pub as_i64 : ℕ → ℤ
as_i64 n = if leb n i64_max then pos n else negsuc (u64_max - n)

-- The difference of two `i64` wraps around in a release build, as that of the bits does.
unfoldable pub time_until_slot : ℕ → ℕ → ℕ → ℤ
unfolding as_i64
time_until_slot now genesis_time target_slot =
    let slot_start_time =
      wrapping_add genesis_time (wrapping_mul target_slot slot_duration_seconds) in
    as_i64 (wrapping_sub slot_start_time now)

-- a - b, as an integer.
abbrev pub sub_ℕ : ℕ → ℕ → ℤ
sub_ℕ a b = if leb b a then pos (a - b) else negsuc (b - a - 1)

-- For a slot whose start, like the clock, fits an `i64`, the time is the start of the slot less the clock,
-- below zero once the slot has begun.
pub time_until_slot-eq-sub :
    (now genesis_time target_slot : ℕ)
    → genesis_time + target_slot * slot_duration_seconds ≤ i64_max
    → now ≤ i64_max
    → time_until_slot now genesis_time target_slot
      ≡ sub_ℕ (genesis_time + target_slot * slot_duration_seconds) now
unfolding time_until_slot
time_until_slot-eq-sub now genesis slot fits fits' = ground arith
