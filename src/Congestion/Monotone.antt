-- ===== src/Congestion/Monotone.antt =====
-- Theorems on the growth of the fee with the gas, of src/db/slot_congestion_ops.rs.
use preconfirmation_gateway.Common.{ℕ, ◌≤◌, ◌<◌, ◌≡◌, arith, u64_max}
use preconfirmation_gateway.Float.{F64, IsIeee, ◌≼◌, Finite, lit}
use preconfirmation_gateway.Congestion.{gas_ratio}
use preconfirmation_gateway.Congestion.Clamp.{lit-Finite, lit_mono}

module _ {ℓ} {F : Type ℓ} ⦃f : F64 F⦄ (laws : IsIeee F) where
  module _ (limit : ℕ) (some_gas : 0 < limit) (in_u64 : limit ≤ u64_max) where
    one-le-limit : lit 1 ≼ lit {F = F} limit
    one-le-limit = lit_mono laws 1 limit some_gas

    limit-Finite : Finite (lit {F = F} limit)
    limit-Finite = laws.of_u64_finite limit in_u64

    ratio-Finite : (g : ℕ) → g ≤ u64_max → Finite (f.div (f.of_u64 g) (f.of_u64 limit))
    ratio-Finite g h =
        laws.div_finite (f.of_u64 g) (f.of_u64 limit) (laws.of_u64_finite g h) one-le-limit

    ratio_nonneg : (g : ℕ) → g ≤ u64_max → lit 0 ≼ f.div (f.of_u64 g) (f.of_u64 limit)
    ratio_nonneg g h =
        laws.div_nonneg (f.of_u64 g) (f.of_u64 limit) (lit_mono laws 0 g (omega arith)) one-le-limit
          limit-Finite

    -- The ratio is the quotient: the cut at 0.0 and the test for NaN change nothing.
    pub gas_ratio-eq-div :
        (g : ℕ) → g ≤ u64_max → gas_ratio g limit ≡ f.div (f.of_u64 g) (f.of_u64 limit)
    unfolding gas_ratio
    gas_ratio-eq-div g h = ground (
      arith,
      laws.lt-eq-not-le (f.div (f.of_u64 g) (f.of_u64 limit)) (lit 0) (ratio-Finite g h)
          (lit-Finite laws 0 (omega arith)),
      ratio_nonneg g h,
      laws.le_refl (f.div (f.of_u64 g) (f.of_u64 limit)) (ratio-Finite g h),
      laws.le_refl (lit 0) (lit-Finite laws 0 (omega arith)),
    )

    gas_ratio_nonneg : (g : ℕ) → g ≤ u64_max → lit 0 ≼ gas_ratio {F = F} g limit
    gas_ratio_nonneg g h = rw (gas_ratio-eq-div g h) (ratio_nonneg g h)
