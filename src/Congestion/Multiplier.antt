-- ===== src/Congestion/Multiplier.antt =====
-- Theorems on the fee multiplier, of src/db/slot_congestion_ops.rs.
use preconfirmation_gateway.Common.{◌≡◌, arith}
use preconfirmation_gateway.Float.{F64, IsIeee, ◌≼◌, Finite, lit, clamp}
use preconfirmation_gateway.Congestion.{fee_multiplier}
use preconfirmation_gateway.Congestion.Clamp.{lit-Finite, lit_mono}

module _ {ℓ} {F : Type ℓ} ⦃f : F64 F⦄ (laws : IsIeee F) where
  pub finite1 : Finite (lit {F = F} 1)
  finite1 = lit-Finite laws 1 (omega arith)

  finite100 : Finite (lit {F = F} 100)
  finite100 = lit-Finite laws 100 (omega arith)

  hundred-clamp : clamp (lit 1) (lit 100) (lit {F = F} 100) ≡ lit 100
  hundred-clamp = ground (
    arith,
    laws.lt-eq-not-le (lit 100) (lit 1) finite100 finite1,
    laws.lt-eq-not-le (lit 100) (lit 100) finite100 finite100,
    laws.le_refl (lit 100) finite100,
    lit_mono laws 1 100 (omega arith),
  )

  -- A full slot has the largest multiplier.
  pub fee_multiplier-full : (s k : F) → lit 1 ≼ s → fee_multiplier s k ≡ lit 100
  unfolding fee_multiplier
  fee_multiplier-full s k h = rw (h, finite100) hundred-clamp
