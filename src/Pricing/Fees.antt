-- ===== src/Pricing/Fees.antt =====
-- Theorems on the fees of src/services/fee_pricing.rs.
use preconfirmation_gateway.Common.{
  ℕ, ◌*◌, ◌≤◌, ◌≡◌, ◌∙◌, ◌⊎◌, refl, ap, sym, subst, arith, false, min, Bool-cases, Result-cases,
  inl, inr, some, ok, err, Result, ok_or, >>=-eq-ok, ok_or-eq-ok, ok-injective, u64_max,
}
use preconfirmation_gateway.Types.{Bytes, InclusionPayload}
use preconfirmation_gateway.Error.{Error, fee_overflow}
use preconfirmation_gateway.Float.{F64, IsIeee, ◌≼◌, Finite, fmin, fmax}
use preconfirmation_gateway.Crates.{Crates}
use preconfirmation_gateway.Payload.{parse_inclusion_payload}
use preconfirmation_gateway.Congestion.{SlotCongestion, add_gas_usage}
use preconfirmation_gateway.Congestion.Table.{CongestionTable, get_or_create_slot_congestion}
use preconfirmation_gateway.Pricing.{
  FeeConfig, FeePricingEngine, FeeCalculation, bounded_price, gas_of_inclusion, Oracle, checked_mul,
  gas_price_as_u64_clamped, estimate_gas_for_commitment, calculate_projected_congestion, fee_on,
  calculate_fee_for_commitment,
}

checked_mul-some : (a b n : ℕ) → checked_mul a b ≡ some n → (n ≡ a * b) × (a * b ≤ u64_max)
unfolding checked_mul
checked_mul-some a b n h = ground arith

clamped-eq-min : (gas_price : ℕ) → gas_price_as_u64_clamped gas_price ≡ min gas_price u64_max
unfolding gas_price_as_u64_clamped
clamped-eq-min gas_price = ground arith

module _ {ℓ} {F : Type ℓ} ⦃f : F64 F⦄ where
  -- A base price times a multiplier, rounded up.
  abbrev pub product_up : ℕ → F → F
  product_up base multiplier = f.ceil (f.mul (f.of_u64 base) multiplier)

  -- A price of a base and a multiplier: their product, rounded up, where that is finite and within a `u64`, and
  -- `u64::MAX` otherwise.
  abbrev pub IsScaled : ℕ → F → ℕ → Type 0
  IsScaled base multiplier price =
      (Finite (product_up base multiplier)
        × (product_up base multiplier ≼ f.of_u64 u64_max)
        × (price ≡ f.to_u64 (product_up base multiplier)))
      ⊎ (((f.is_finite (product_up base multiplier) ≡ false)
            ⊎ (f.le (product_up base multiplier) (f.of_u64 u64_max) ≡ false))
          × (price ≡ u64_max))

  -- The multiplier of a row within the limits of the configuration.
  abbrev pub limited : FeeConfig F → F → F
  limited config m = fmin (fmax m config.min_fee_multiplier) config.max_fee_multiplier

  -- The fee of so much gas at a slot, on this congestion, at the node's gas price.
  pub record IsQuote (config : FeeConfig F) (gas_price slot : ℕ) (congestion : SlotCongestion F)
      (fee : FeeCalculation F) : Type ℓ where
    pub slot_of : fee.slot ≡ slot
    pub node_price : fee.base_gas_price ≡ min gas_price u64_max
    pub ratio :
        fee.congestion_ratio
        ≡ (add_gas_usage congestion fee.estimated_gas config.scaling_factor).gas_used_ratio
    pub multiplier :
        fee.fee_multiplier
        ≡ limited config
            (add_gas_usage congestion fee.estimated_gas
              config.scaling_factor).calculated_fee_multiplier
    pub price : IsScaled congestion.base_gas_price fee.fee_multiplier fee.final_price
    pub cost : fee.total_cost ≡ fee.final_price * fee.estimated_gas
    pub no_overflow : fee.final_price * fee.estimated_gas ≤ u64_max

  bounded_price-IsScaled : (base : ℕ) (m : F) → IsScaled base m (bounded_price base m)
  unfolding bounded_price
  bounded_price-IsScaled base m = elim (Bool-cases (f.is_finite (product_up base m))) [
    | inr p ↦ inr (inl p, ground (arith, p))
    | inl p ↦ elim (Bool-cases (f.le (product_up base m) (f.of_u64 u64_max))) [
      | inl q ↦ inl (p, q, ground (arith, p, q))
      | inr q ↦ inr (inr q, ground (arith, q))
    ]
  ]

  add_gas_usage-base :
      (c : SlotCongestion F) (gas : ℕ) (k : F)
      → (add_gas_usage c gas k).base_gas_price ≡ c.base_gas_price
  unfolding add_gas_usage
  add_gas_usage-base c gas k = ground arith

  fee_on-IsQuote :
      (config : FeeConfig F) (gas_price slot gas : ℕ) (c : SlotCongestion F)
      (fee : FeeCalculation F)
      → fee_on config slot (gas_price_as_u64_clamped gas_price) gas c ≡ ok fee
      → IsQuote config gas_price slot c fee × (fee.estimated_gas ≡ gas)
  unfolding fee_on calculate_projected_congestion
  fee_on-IsQuote config gas_price slot gas c fee h =
      let projected = calculate_projected_congestion config c gas in
      let price = projected.current_tx_price in
      let (total, p, e) = >>=-eq-ok (ok_or (checked_mul price gas) fee_overflow) _ h in
      let (q, r) = checked_mul-some price gas total (ok_or-eq-ok _ fee_overflow p) in
      subst (λ fee'. IsQuote config gas_price slot c fee' × (fee'.estimated_gas ≡ gas))
        (ok-injective e)
        (
          record {
            slot_of = refl;
            node_price = clamped-eq-min gas_price;
            ratio = refl;
            multiplier = refl;
            price =
                subst (λ base. IsScaled base projected.calculated_fee_multiplier price)
                  (add_gas_usage-base c gas config.scaling_factor)
                  (bounded_price-IsScaled (add_gas_usage c gas config.scaling_factor).base_gas_price
                    projected.calculated_fee_multiplier);
            cost = q;
            no_overflow = r;
          },
          refl,
        )

  -- A fee that is returned is for its slot, and its base price is the node's gas price, cut to a `u64`. It was computed on
  -- the row of the slot, as fetched or created at that base price: its ratio is the row's with the estimated gas added, and
  -- its multiplier is the row's with that gas, within the limits of the configuration; its price is the base
  -- price of the row times that multiplier, rounded up, or `u64::MAX` where no `u64` holds that; and its cost is the
  -- product of price and gas, without overflow.
  pub calculate_fee-IsQuote :
      ⦃x : Crates⦄ (engine : FeePricingEngine F) (oracle : Oracle) (commitment_type : ℕ)
      (payload : Bytes) (slot : ℕ) (t : CongestionTable F) (fee : FeeCalculation F)
      → (calculate_fee_for_commitment engine oracle commitment_type payload slot t).0 ≡ ok fee
      → (gas_price : ℕ) × (congestion : SlotCongestion F) × (oracle.gas_price ≡ ok gas_price)
        × (estimate_gas_for_commitment commitment_type payload ≡ ok fee.estimated_gas)
        × ((get_or_create_slot_congestion oracle.pool oracle.now oracle.id slot
              (min gas_price u64_max)
              engine.fee_config.default_gas_limit
              engine.genesis_time
              t).0
            ≡ ok congestion)
        × IsQuote engine.fee_config gas_price slot congestion fee
  unfolding calculate_fee_for_commitment
  calculate_fee-IsQuote engine oracle commitment_type payload slot t fee h =
      elim (Result-cases oracle.gas_price) [
        | inr (e, p) ↦ (let h' = rw (calculate_fee_for_commitment, p) at h in cc)
        | inl (gas_price, p) ↦
            elim (Result-cases (estimate_gas_for_commitment commitment_type payload)) [
              | inr (e, q) ↦ (let h' = rw (calculate_fee_for_commitment, p, q) at h in cc)
              | inl (gas, q) ↦
                  (let base = gas_price_as_u64_clamped gas_price in
                    let fetched =
                      get_or_create_slot_congestion oracle.pool oracle.now oracle.id slot base
                        engine.fee_config.default_gas_limit engine.genesis_time t in
                    let h' = rw (calculate_fee_for_commitment, p, q) at h in
                    let (c, r, s) =
                      >>=-eq-ok fetched.0 (fee_on engine.fee_config slot base gas) h' in
                    let (is_fee, same) =
                      fee_on-IsQuote engine.fee_config gas_price slot gas c fee s in
                    (
                      gas_price,
                      c,
                      p,
                      q ∙ ap ok (sym same),
                      rw (clamped-eq-min gas_price) at r,
                      is_fee,
                    ))
            ]
      ]

  pub IsScaled-le :
      (laws : IsIeee F) (base : ℕ) (m : F) (price : ℕ) → IsScaled base m price → price ≤ u64_max
  IsScaled-le laws base m price (inl (p, q, e)) =
      let top = laws.to_u64-le (product_up base m) in omega (arith, e, top)
  IsScaled-le laws base m price (inr (why, e)) = omega (arith, e)

gas_of_inclusion-le : (r : Result Error InclusionPayload) → gas_of_inclusion r ≤ u64_max
gas_of_inclusion-le (ok p) = omega arith
gas_of_inclusion-le (err e) = omega arith

pub estimate_gas-le :
    ⦃x : Crates⦄ (commitment_type : ℕ) (payload : Bytes) (gas : ℕ)
    → estimate_gas_for_commitment commitment_type payload ≡ ok gas
    → gas ≤ u64_max
unfolding estimate_gas_for_commitment
estimate_gas-le commitment_type payload gas h =
    ground (arith, gas_of_inclusion-le (parse_inclusion_payload payload))
