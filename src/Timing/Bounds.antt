-- ===== src/Timing/Bounds.antt =====
-- Theorems on `BeaconTiming` of src/types/beacon.rs.
use preconfirmation_gateway.Common.{ℕ, ◌+◌, ◌*◌, ◌^◌, ◌≤◌, ◌<◌, ◌≡◌, ◌↔◌, arith, true}
use preconfirmation_gateway.Timing.{
  slot_to_epoch, epoch_to_first_slot, epoch_to_last_slot, current_slot_estimate,
  is_within_constraint_window,
}

-- A slot belongs to an epoch exactly when it lies between the epoch's first and last slot, for every
-- epoch whose successor's first slot is a `u64`.
pub slot_to_epoch_iff :
    (slot epoch : ℕ)
    → (epoch + 1) * 32 < 2 ^ 64
    → (slot_to_epoch slot ≡ epoch)
      ↔ ((epoch_to_first_slot epoch ≤ slot) × (slot ≤ epoch_to_last_slot epoch))
unfolding slot_to_epoch epoch_to_first_slot epoch_to_last_slot
slot_to_epoch_iff slot epoch h = (λ e. (omega arith, omega arith), λ w. omega arith)

-- From genesis on, the estimate is the slot whose twelve seconds contain the present moment.
pub current_slot_estimate_iff :
    (now genesis_time slot : ℕ)
    → genesis_time ≤ now
    → (current_slot_estimate now genesis_time ≡ slot)
      ↔ ((genesis_time + slot * 12 ≤ now) × (now < genesis_time + slot * 12 + 12))
unfolding current_slot_estimate
current_slot_estimate_iff now genesis slot h =
    (λ e. (ground arith, ground arith), λ w. ground arith)

-- While the sum is a `u64`, a slot can be submitted for exactly until eight seconds into it, and so in
-- every earlier slot too.
pub is_within_constraint_window_iff :
    (now genesis_time slot : ℕ)
    → genesis_time + slot * 12 + 8 < 2 ^ 64
    → (is_within_constraint_window now genesis_time slot ≡ true)
      ↔ (now ≤ genesis_time + slot * 12 + 8)
unfolding is_within_constraint_window
is_within_constraint_window_iff now genesis slot h = (λ e. ground arith, λ e. ground arith)
