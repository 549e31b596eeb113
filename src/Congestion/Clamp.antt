-- ===== src/Congestion/Clamp.antt =====
-- Theorems on the multiplier and the price of src/db/slot_congestion_ops.rs by themselves.
use preconfirmation_gateway.Common.{
  ℕ, ◌*◌, ◌^◌, ◌≤◌, ◌≡◌, arith, Bool-cases, inl, inr, ap, if◌then◌else◌,
}
use preconfirmation_gateway.Float.{F64, IsIeee, ◌≼◌, Finite, lit, clamp}
use preconfirmation_gateway.Congestion.{fee_multiplier, tx_price}

-- What the multiplier is kept to.
pub record InRange {ℓ} {F : Type ℓ} ⦃f : F64 F⦄ (m : F) : Type ℓ where
  pub above : lit 1 ≼ m
  pub below : m ≼ lit 100
  pub finite : Finite m

module _ {ℓ} {F : Type ℓ} ⦃f : F64 F⦄ (laws : IsIeee F) where
  pub lit-Finite : (n : ℕ) → n ≤ 1000000 → Finite (lit {F = F} n)
  lit-Finite n h = laws.of_u64_finite n (omega arith)

  pub lit_mono : (m n : ℕ) → m ≤ n → lit {F = F} m ≼ lit n
  lit_mono = laws.of_u64_mono

  unfoldable pub at_least : F → F
  at_least x = if f.lt x (lit 1) then lit 1 else x

  pub at_least_above : (x : F) → Finite x → (lit 1 ≼ at_least x) × Finite (at_least x)
  unfolding at_least
  at_least_above x h = ground (
    arith,
    laws.lt-eq-not-le x (lit 1) h (lit-Finite 1 (omega arith)),
    laws.le_refl (lit 1) (lit-Finite 1 (omega arith)),
    lit-Finite 1 (omega arith),
  )

  at_most-InRange :
      (y : F) → lit 1 ≼ y → Finite y → InRange (if f.lt (lit 100) y then lit 100 else y)
  at_most-InRange y h p = ground (
    arith,
    laws.lt-eq-not-le (lit 100) y (lit-Finite 100 (omega arith)) p,
    laws.le_refl (lit 100) (lit-Finite 100 (omega arith)),
    lit_mono 1 100 (omega arith),
    lit-Finite 100 (omega arith),
  )

  pub hundred-InRange : InRange (lit {F = F} 100)
  hundred-InRange = record {
    above = lit_mono 1 100 (omega arith);
    below = laws.le_refl (lit 100) (lit-Finite 100 (omega arith));
    finite = lit-Finite 100 (omega arith);
  }

  pub clamp-InRange : (x : F) → Finite x → InRange (clamp (lit 1) (lit 100) x)
  unfolding at_least
  clamp-InRange x h = let p = at_least_above x h in at_most-InRange (at_least x) p.0 p.1

  pub fee_multiplier-InRange : (r k : F) → InRange (fee_multiplier r k)
  unfolding fee_multiplier
  fee_multiplier-InRange r k =
      let raw = if f.le (lit 1) r then lit 100 else f.div (lit 1) (f.sub (lit 1) (f.powf r k)) in
      elim (Bool-cases (f.is_finite raw)) [
        | inl p ↦ rw p (clamp-InRange raw p)
        | inr p ↦ rw p hundred-InRange
      ]

  module _ (base : ℕ) (fits : base * 100 ≤ 2 ^ 53) where
    base-Finite : Finite (lit {F = F} base)
    base-Finite = laws.of_u64_finite base (omega arith)

    le-scaled : (m : F) → InRange m → lit base ≼ f.mul (lit base) m
    le-scaled m r =
        let up =
          laws.mul_mono (lit base) (lit 1) m (lit_mono 0 base (omega arith)) r.above base-Finite
            (lit-Finite 1 (omega arith)) r.finite in
        cc (laws.mul_one (lit base), up)

    scaled_mono :
        (m n : F) → m ≼ n → InRange m → InRange n → f.mul (lit base) m ≼ f.mul (lit base) n
    scaled_mono m n h p r =
        laws.mul_mono (lit base) m n (lit_mono 0 base (omega arith)) h base-Finite p.finite r.finite

    scaled-le : (m : F) → InRange m → f.mul (lit base) m ≼ lit (base * 100)
    scaled-le m r =
        cc (laws.mul-of_u64 base 100 fits, scaled_mono m (lit 100) r.below r hundred-InRange)

    scaled_nonneg : (m : F) → InRange m → lit 0 ≼ f.mul (lit base) m
    scaled_nonneg m r =
        laws.le_trans (lit 0) (lit base) (f.mul (lit base) m) (lit_mono 0 base (omega arith))
          (le-scaled m r)

    scaled-Finite : (m : F) → InRange m → Finite (f.mul (lit base) m)
    scaled-Finite m r =
        laws.finite_of_le (f.mul (lit base) m) (lit (base * 100)) (scaled_nonneg m r)
          (scaled-le m r) (laws.of_u64_finite (base * 100) (omega arith))

    -- Within these bounds the fallback is not taken.
    tx_price-eq-ceil :
        (m : F) → InRange m → tx_price base m ≡ f.to_u64 (f.ceil (f.mul (lit base) m))
    unfolding tx_price
    tx_price-eq-ceil m r = ground (
      arith,
      scaled-Finite m r,
      scaled_nonneg m r,
      laws.lt-eq-not-le (f.mul (lit base) m) (lit 0) (scaled-Finite m r)
          (laws.of_u64_finite 0 (omega arith)),
    )

    pub le-tx_price : (m : F) → InRange m → base ≤ tx_price base m
    le-tx_price m r =
        let up =
          laws.to_u64_mono _ _
            (laws.le_trans _ _ _ (le-scaled m r) (laws.le-ceil _ (scaled-Finite m r))) in
        omega (arith, tx_price-eq-ceil m r, laws.to_u64-of_u64 base (omega arith))

    pub tx_price-le : (m : F) → InRange m → tx_price base m ≤ base * 100
    tx_price-le m r =
        let down = laws.to_u64_mono _ _ (laws.ceil_mono _ _ (scaled-le m r)) in
        omega (
          arith,
          tx_price-eq-ceil m r,
          laws.to_u64-of_u64 (base * 100) fits,
          ap f.to_u64 (laws.ceil-of_u64 (base * 100)),
        )

    -- The price at the largest multiplier.
    pub tx_price-hundred : tx_price base (lit {F = F} 100) ≡ base * 100
    tx_price-hundred = cc (
      tx_price-eq-ceil (lit {F = F} 100) hundred-InRange,
      laws.mul-of_u64 base 100 fits,
      ap f.to_u64 (laws.ceil-of_u64 (base * 100)),
      laws.to_u64-of_u64 (base * 100) fits,
    )
