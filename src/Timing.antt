-- ===== src/Timing.antt =====
-- src/types/beacon.rs, `timing` and `BeaconTiming`: slots, epochs and the submission deadline. The
-- clock is an argument; the arithmetic wraps around as in a release build.
pub mod Bounds
pub mod Signed
use preconfirmation_gateway.Common.{
  ℕ, ◌-◌, ◌/◌, Bool, ltb, leb, if◌then◌else◌, wrapping_add, wrapping_sub, wrapping_mul,
}

abbrev pub slot_duration_seconds : ℕ
slot_duration_seconds = 12

abbrev pub slots_per_epoch : ℕ
slots_per_epoch = 32

abbrev pub constraints_submission_deadline : ℕ
constraints_submission_deadline = 8

unfoldable pub slot_to_epoch : ℕ → ℕ
slot_to_epoch slot = slot / slots_per_epoch

unfoldable pub epoch_to_first_slot : ℕ → ℕ
epoch_to_first_slot epoch = wrapping_mul epoch slots_per_epoch

unfoldable pub epoch_to_last_slot : ℕ → ℕ
epoch_to_last_slot epoch = wrapping_sub (wrapping_mul (wrapping_add epoch 1) slots_per_epoch) 1

unfoldable pub current_slot_estimate : ℕ → ℕ → ℕ
current_slot_estimate now genesis_time =
    if ltb now genesis_time then 0 else (now - genesis_time) / slot_duration_seconds

unfoldable pub constraint_deadline_for_slot : ℕ → ℕ → ℕ
constraint_deadline_for_slot genesis_time slot =
    wrapping_add (wrapping_add genesis_time (wrapping_mul slot slot_duration_seconds))
      constraints_submission_deadline

unfoldable pub is_within_constraint_window : ℕ → ℕ → ℕ → Bool
unfolding constraint_deadline_for_slot
is_within_constraint_window now genesis_time slot =
    leb now (constraint_deadline_for_slot genesis_time slot)
