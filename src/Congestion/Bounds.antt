-- ===== src/Congestion/Bounds.antt =====
-- Theorems on the range of the fee after `add_gas_usage`, of src/db/slot_congestion_ops.rs.
use preconfirmation_gateway.Common.{ℕ, ◌*◌, ◌^◌, ◌≤◌, arith}
use preconfirmation_gateway.Float.{F64, IsIeee}
use preconfirmation_gateway.Congestion.{SlotCongestion, add_gas_usage, gas_ratio}
use preconfirmation_gateway.Congestion.Clamp.{
  InRange, hundred-InRange, fee_multiplier-InRange, le-tx_price, tx_price-le,
}

module _ {ℓ} {F : Type ℓ} ⦃f : F64 F⦄ (laws : IsIeee F) where
  -- After any addition of gas the multiplier is finite and lies in [1, 100]: with no gas limit, with
  -- a ratio that is not finite, with a full slot, and with whatever the power and the division give.
  pub add_gas_usage-InRange :
      (c : SlotCongestion F) (additional_gas : ℕ) (scaling_factor : F)
      → InRange (add_gas_usage c additional_gas scaling_factor).calculated_fee_multiplier
  unfolding add_gas_usage
  add_gas_usage-InRange c gas k = ground (
    arith,
    hundred-InRange laws,
    fee_multiplier-InRange laws
        (gas_ratio (add_gas_usage c gas k).preconfirmed_gas c.total_gas_limit) k,
  )

  -- Where a hundred times the base price is exact in an `f64` (at most 2^53 wei), the price of a
  -- transaction is at least the base price and at most a hundred times it, on every branch.
  pub add_gas_usage_price_bounds :
      (c : SlotCongestion F) (additional_gas : ℕ) (scaling_factor : F)
      → c.base_gas_price * 100 ≤ 2 ^ 53
      → (c.base_gas_price ≤ (add_gas_usage c additional_gas scaling_factor).current_tx_price)
        × ((add_gas_usage c additional_gas scaling_factor).current_tx_price
            ≤ c.base_gas_price * 100)
  unfolding add_gas_usage
  add_gas_usage_price_bounds c gas k h =
      let ratio : F = gas_ratio (add_gas_usage c gas k).preconfirmed_gas c.total_gas_limit in
      ground (
        arith,
        le-tx_price laws c.base_gas_price h _ (fee_multiplier-InRange laws ratio k),
        tx_price-le laws c.base_gas_price h _ (fee_multiplier-InRange laws ratio k),
      )
