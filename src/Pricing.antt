-- ===== src/Pricing.antt =====
-- src/services/fee_pricing.rs and the prices of src/api/reth.rs: what a commitment costs.
pub mod Fees
pub mod Stats
use preconfirmation_gateway.Common.{
  ℕ, ◌+◌, ◌*◌, Bool, ◌&&◌, Option, none, some, List, leb, ltb, ◌==◌, if◌then◌else◌, length, Result,
  ok, err, ◌>>=◌, ok_or, u64_max, wrapping_add, wrapping_mul, is_ok,
}
use preconfirmation_gateway.Types.{Bytes, InclusionPayload}
use preconfirmation_gateway.Error.{Error, unknown_commitment_type, fee_overflow}
use preconfirmation_gateway.Float.{F64, fmax, fmin}
use preconfirmation_gateway.Crates.{Crates}
use preconfirmation_gateway.Payload.{parse_inclusion_payload}
use preconfirmation_gateway.Congestion.{SlotCongestion, add_gas_usage}
use preconfirmation_gateway.Congestion.Table.{
  CongestionTable, get_or_create_slot_congestion, update_slot_congestion_gas_usage,
}
use preconfirmation_gateway.Timing.{current_slot_estimate}
use preconfirmation_gateway.Sql.{PgPool}

pub record FeeConfig {ℓ} (F : Type ℓ) : Type ℓ where
  pub default_gas_limit : ℕ
  pub scaling_factor : F
  pub min_fee_multiplier : F
  pub max_fee_multiplier : F

pub record FeePricingEngine {ℓ} (F : Type ℓ) : Type ℓ where
  pub fee_config : FeeConfig F
  pub genesis_time : ℕ

pub record FeeCalculation {ℓ} (F : Type ℓ) : Type ℓ where
  pub slot : ℕ
  pub base_gas_price : ℕ
  pub congestion_ratio : F
  pub fee_multiplier : F
  pub final_price : ℕ
  pub estimated_gas : ℕ
  pub total_cost : ℕ

-- What a call reads from outside: the statements that fail, the clock, the next id of the table, and
-- the gas price that the Reth node answers with, a 256-bit number.
pub record Oracle : Type 0 where
  pub pool : PgPool
  pub now : ℕ
  pub id : ℕ
  pub gas_price : Result Error ℕ

unfoldable pub gas_price_as_u64_clamped : ℕ → ℕ
gas_price_as_u64_clamped gas_price = if ltb u64_max gas_price then u64_max else gas_price

unfoldable pub gas_price_as_u64_checked : ℕ → Result Error ℕ
gas_price_as_u64_checked gas_price =
    if ltb u64_max gas_price then err fee_overflow else ok gas_price

unfoldable pub checked_mul : ℕ → ℕ → Option ℕ
checked_mul a b = if leb (a * b) u64_max then some (a * b) else none

abbrev pub gas_of_transaction : Bytes → ℕ
gas_of_transaction signed_tx =
    wrapping_add (wrapping_add 21000 (wrapping_mul (length signed_tx) 16)) 10000

abbrev pub gas_of_inclusion : Result Error InclusionPayload → ℕ
gas_of_inclusion (ok payload) = gas_of_transaction payload.signed_tx
gas_of_inclusion (err e) = 50000

unfoldable pub estimate_gas_for_commitment : ⦃x : Crates⦄ → ℕ → Bytes → Result Error ℕ
estimate_gas_for_commitment commitment_type payload =
    if commitment_type == 1
    then ok (gas_of_inclusion (parse_inclusion_payload payload))
    else if commitment_type == 2
    then ok 100000
    else err unknown_commitment_type

module _ {ℓ} {F : Type ℓ} ⦃f : F64 F⦄ where
  -- The projected price: rounded up, and at most `u64::MAX`.
  unfoldable pub bounded_price : ℕ → F → ℕ
  bounded_price base_gas_price multiplier =
      let scaled_price = f.ceil (f.mul (f.of_u64 base_gas_price) multiplier) in
      if f.is_finite scaled_price && f.le scaled_price (f.of_u64 u64_max)
      then f.to_u64 scaled_price
      else u64_max

  abbrev pub bounded_multiplier : FeeConfig F → F → F
  bounded_multiplier config multiplier =
      fmin (fmax multiplier config.min_fee_multiplier) config.max_fee_multiplier

  unfoldable pub calculate_projected_congestion :
      FeeConfig F → SlotCongestion F → ℕ → SlotCongestion F
  unfolding bounded_price
  calculate_projected_congestion config current additional_gas =
      let projected = add_gas_usage current additional_gas config.scaling_factor in
      let multiplier = bounded_multiplier config projected.calculated_fee_multiplier in
      record projected {
        calculated_fee_multiplier = multiplier;
        current_tx_price = bounded_price projected.base_gas_price multiplier;
      }

  -- The fee on a congestion that was fetched.
  unfoldable pub fee_on :
      FeeConfig F → ℕ → ℕ → ℕ → SlotCongestion F → Result Error (FeeCalculation F)
  unfolding calculate_projected_congestion
  fee_on config slot base_gas_price estimated_gas congestion =
      let projected = calculate_projected_congestion config congestion estimated_gas in
      do
        total_cost ← ok_or (checked_mul projected.current_tx_price estimated_gas) fee_overflow
        ok (record {
          slot = slot;
          base_gas_price = base_gas_price;
          congestion_ratio = projected.gas_used_ratio;
          fee_multiplier = projected.calculated_fee_multiplier;
          final_price = projected.current_tx_price;
          estimated_gas = estimated_gas;
          total_cost = total_cost;
        })

  -- The row of the slot is fetched, or created at the node's gas price.
  unfoldable pub fee_at :
      FeePricingEngine F
      → Oracle
      → ℕ
      → ℕ
      → ℕ
      → CongestionTable F
      → Result Error (FeeCalculation F) × CongestionTable F
  unfolding fee_on
  fee_at engine oracle slot gas_price estimated_gas table =
      let config = engine.fee_config in
      let fetched =
        get_or_create_slot_congestion oracle.pool oracle.now oracle.id slot gas_price
          config.default_gas_limit engine.genesis_time table in
      (fetched.0 >>= fee_on config slot gas_price estimated_gas, fetched.1)

  unfoldable pub calculate_fee_for_commitment :
      ⦃x : Crates⦄
      → FeePricingEngine F
      → Oracle
      → ℕ
      → Bytes
      → ℕ
      → CongestionTable F
      → Result Error (FeeCalculation F) × CongestionTable F
  unfolding fee_at
  calculate_fee_for_commitment engine oracle commitment_type payload slot table =
      elim oracle.gas_price [
        | err e ↦ (err e, table)
        | ok gas_price ↦ elim (estimate_gas_for_commitment commitment_type payload) [
          | err e ↦ (err e, table)
          | ok estimated_gas ↦
              fee_at engine oracle slot (gas_price_as_u64_clamped gas_price) estimated_gas table
        ]
      ]

  unfoldable pub apply_gas_usage_to_slot :
      FeePricingEngine F
      → Oracle
      → ℕ
      → ℕ
      → CongestionTable F
      → Result Error (SlotCongestion F) × CongestionTable F
  apply_gas_usage_to_slot engine oracle slot gas_used table =
      update_slot_congestion_gas_usage oracle.pool oracle.now slot gas_used
        engine.fee_config.scaling_factor table

  unfoldable pub is_slot_acceptable_for_fees : FeePricingEngine F → ℕ → ℕ → Bool
  is_slot_acceptable_for_fees engine now slot =
      let current_slot = current_slot_estimate now engine.genesis_time in
      leb current_slot slot && leb slot (wrapping_add current_slot 10)
