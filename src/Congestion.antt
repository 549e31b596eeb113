-- ===== src/Congestion.antt =====
-- src/db/slot_congestion_ops.rs: the congestion of a slot, and the fee that follows from it. The
-- table of the slots is in `Congestion.Table`.
pub mod Clamp
pub mod Multiplier
pub mod Bounds
pub mod Additive
pub mod Monotone
pub mod Table
use preconfirmation_gateway.Common.{
  ℕ, ◌*◌, Option, none, not, ◌||◌, ◌==◌, if◌then◌else◌, saturating_add, saturating_mul,
}
use preconfirmation_gateway.Float.{F64, lit, fmax, clamp}

-- `SystemTime` is the number of seconds since the epoch.
pub record SlotCongestion {ℓ} (F : Type ℓ) : Type ℓ where
  pub id : Option ℕ
  pub slot : ℕ
  pub preconfirmed_gas : ℕ
  pub total_gas_limit : ℕ
  pub gas_used_ratio : F
  pub base_gas_price : ℕ
  pub calculated_fee_multiplier : F
  pub current_tx_price : ℕ
  pub slot_start_time : ℕ
  pub last_updated : Option ℕ
  pub created_at : Option ℕ

module _ {ℓ} {F : Type ℓ} ⦃f : F64 F⦄ where
  unfoldable pub new : ℕ → ℕ → ℕ → ℕ → SlotCongestion F
  new slot base_gas_price total_gas_limit slot_start_time = record {
    id = none;
    slot = slot;
    preconfirmed_gas = 0;
    total_gas_limit = total_gas_limit;
    gas_used_ratio = lit 0;
    base_gas_price = base_gas_price;
    calculated_fee_multiplier = lit 1;
    current_tx_price = base_gas_price;
    slot_start_time = slot_start_time;
    last_updated = none;
    created_at = none;
  }

  -- 1 / (1 - ratio^k), with 100 at a full slot and where the division overflows, kept in [1, 100].
  unfoldable pub fee_multiplier : F → F → F
  fee_multiplier gas_used_ratio scaling_factor =
      let raw =
        if f.le (lit 1) gas_used_ratio
        then lit 100
        else f.div (lit 1) (f.sub (lit 1) (f.powf gas_used_ratio scaling_factor)) in
      if f.is_finite raw then clamp (lit 1) (lit 100) raw else lit 100

  -- The price rounded up, with a hundred times the base where the product is not a number.
  unfoldable pub tx_price : ℕ → F → ℕ
  tx_price base_gas_price multiplier =
      let scaled_price = f.mul (f.of_u64 base_gas_price) multiplier in
      if not (f.is_finite scaled_price) || f.lt scaled_price (lit 0)
      then saturating_mul base_gas_price 100
      else f.to_u64 (f.ceil scaled_price)

  -- The early returns: no gas limit, or a ratio that is not finite.
  unfoldable pub at_max_multiplier : SlotCongestion F → SlotCongestion F
  at_max_multiplier c = record c {
    gas_used_ratio = lit 0;
    calculated_fee_multiplier = lit 100;
    current_tx_price = saturating_mul c.base_gas_price 100;
  }

  unfoldable pub gas_ratio : ℕ → ℕ → F
  gas_ratio preconfirmed_gas total_gas_limit =
      fmax (f.div (f.of_u64 preconfirmed_gas) (f.of_u64 total_gas_limit)) (lit 0)

  unfoldable pub with_ratio : SlotCongestion F → F → F → SlotCongestion F
  with_ratio c ratio scaling_factor =
      let multiplier = fee_multiplier ratio scaling_factor in
      record c {
        gas_used_ratio = ratio;
        calculated_fee_multiplier = multiplier;
        current_tx_price = tx_price c.base_gas_price multiplier;
      }

  -- What follows the addition: every derived field is set anew from the gas, its limit and the base.
  unfoldable pub recompute : SlotCongestion F → F → SlotCongestion F
  unfolding at_max_multiplier gas_ratio with_ratio
  recompute c scaling_factor =
      let ratio = gas_ratio c.preconfirmed_gas c.total_gas_limit in
      if c.total_gas_limit == 0
      then at_max_multiplier c
      else if not (f.is_finite ratio)
      then at_max_multiplier c
      else with_ratio c ratio scaling_factor

  unfoldable pub add_gas_usage : SlotCongestion F → ℕ → F → SlotCongestion F
  unfolding recompute
  add_gas_usage c additional_gas scaling_factor =
      recompute (record c { preconfirmed_gas = saturating_add c.preconfirmed_gas additional_gas })
        scaling_factor
