-- ===== src/Pricing/Stats.antt =====
-- `get_pricing_stats` of src/services/fee_pricing.rs.
use preconfirmation_gateway.Common.{ℕ, Option, some, none, Result, ok, err, ◌>>=◌}
use preconfirmation_gateway.Error.{Error}
use preconfirmation_gateway.Float.{F64}
use preconfirmation_gateway.Timing.{current_slot_estimate}
use preconfirmation_gateway.Sql.{PgPool}
use preconfirmation_gateway.Congestion.Table.{CongestionTable}
use preconfirmation_gateway.Congestion.Table.Stats.{Aggregates, get_congestion_stats}
use preconfirmation_gateway.Pricing.{FeePricingEngine, gas_price_as_u64_clamped}

pub record PricingStats {ℓ} (F : Type ℓ) : Type ℓ where
  pub current_slot : ℕ
  pub current_base_gas_price : Option ℕ
  pub average_congestion_ratio : F
  pub average_fee_multiplier : F
  pub total_slots_tracked : ℕ
  pub highest_congestion_slot : Option ℕ
  pub highest_congestion_ratio : F

-- The price is left out where the node gives none.
abbrev pub clamped_price : Result Error ℕ → Option ℕ
clamped_price (ok price) = some (gas_price_as_u64_clamped price)
clamped_price (err e) = none

module _ {ℓ} {F : Type ℓ} ⦃f : F64 F⦄ (aggregates : Aggregates F)
    (engine : FeePricingEngine F) where
  -- `now` and `later` are the moments of the two queries, and `clock` the one after them.
  unfoldable pub get_pricing_stats :
      PgPool
      → ℕ
      → ℕ
      → ℕ
      → Result Error ℕ
      → CongestionTable F
      → CongestionTable F
      → Result Error (PricingStats F)
  unfolding get_congestion_stats
  get_pricing_stats pool now later clock gas_price table table_later = do
    stats ← get_congestion_stats aggregates pool now later table table_later
    ok (record {
      current_slot = current_slot_estimate clock engine.genesis_time;
      current_base_gas_price = clamped_price gas_price;
      average_congestion_ratio = stats.current_average_congestion;
      average_fee_multiplier = stats.average_fee_multiplier;
      total_slots_tracked = stats.total_slots_tracked;
      highest_congestion_slot = stats.highest_congestion_slot;
      highest_congestion_ratio = stats.highest_congestion_ratio;
    })
