-- ===== src/Rpc/Fees.antt =====
-- Theorems on `slots_handler` and `fee_handler` of src/rpc/handlers.rs.
use preconfirmation_gateway.Common.{
  ℕ, zero, suc, ◌+◌, ◌-◌, ◌*◌, ◌≤◌, ◌≡◌, ◌∙◌, min, refl, ap, subst, arith, true, length, All, ok,
  Result-cases, >>=-eq-ok, guard-eq-ok, map_err-eq-ok, inl, inr, ok-injective, guard, map_err, ◌==◌,
  u64_max, wrapping_add, wrapping_mul,
}
use preconfirmation_gateway.Types.{CommitmentRequest, SlotInfo, FeeInfo}
use preconfirmation_gateway.Error.{Error, invalid_params}
use preconfirmation_gateway.Float.{F64, IsIeee, clamp, lit}
use preconfirmation_gateway.Crates.{Crates}
use preconfirmation_gateway.Payload.{extract_slot}
use preconfirmation_gateway.Timing.{current_slot_estimate, slots_per_epoch}
use preconfirmation_gateway.Congestion.{SlotCongestion}
use preconfirmation_gateway.Congestion.Table.{CongestionTable, get_or_create_slot_congestion}
use preconfirmation_gateway.Pricing.{
  FeeConfig, FeePricingEngine, FeeCalculation, Oracle, calculate_fee_for_commitment,
  is_slot_acceptable_for_fees,
}
use preconfirmation_gateway.Pricing.{estimate_gas_for_commitment}
use preconfirmation_gateway.Pricing.Fees.{
  calculate_fee-IsQuote, IsQuote, IsScaled-le, estimate_gas-le,
}
use preconfirmation_gateway.Rpc.LittleEndian.{from_le_bytes, slice, from_le_bytes-le_bytes}
use preconfirmation_gateway.Rpc.{
  slot_info, offer_slots, slots_handler, le_bytes, congestion_ppm, fee_payload, fee_slot,
  fee_handler,
}

-- A slot of the catalogue lies in the window and is offered inclusion commitments on chain 560048.
abbrev pub IsOffer : ℕ → ℕ → SlotInfo → Type 0
IsOffer first last info = (first ≤ info.slot) × (info.slot ≤ last) × (info ≡ slot_info info.slot)

length-offer_slots : (start count : ℕ) → length (offer_slots start count) ≡ count
unfolding offer_slots
length-offer_slots start zero = refl
length-offer_slots start (suc count) = ap suc (length-offer_slots (suc start) count)

offer_slots-IsOffer :
    (first last start count : ℕ)
    → first ≤ start
    → start + count ≤ suc last
    → All (IsOffer first last) (offer_slots start count)
unfolding offer_slots
offer_slots-IsOffer first last start zero h k = tt
offer_slots-IsOffer first last start (suc count) h k = (
  (h, omega arith, refl),
  offer_slots-IsOffer first last (suc start) count (omega arith) (omega arith),
)

-- Where the arithmetic does not overflow, the catalogue has 32 slots for each epoch of the lookahead,
-- all of them after the current slot and within the lookahead of it, offering inclusion commitments.
pub slots_handler-IsOffer :
    (now genesis_time lookahead_epochs : ℕ)
    → current_slot_estimate now genesis_time + 1 + lookahead_epochs * 32 ≤ u64_max
    → (length (slots_handler now genesis_time lookahead_epochs) ≡ lookahead_epochs * 32)
      × All
          (IsOffer
            (current_slot_estimate now genesis_time + 1)
            (current_slot_estimate now genesis_time + lookahead_epochs * 32))
          (slots_handler now genesis_time lookahead_epochs)
unfolding slots_handler
slots_handler-IsOffer now genesis_time lookahead_epochs h =
    let current = current_slot_estimate now genesis_time in
    let start = wrapping_add current 1 in
    let count = wrapping_add start (wrapping_mul lookahead_epochs slots_per_epoch) - start in
    (
      length-offer_slots start count ∙ omega arith,
      offer_slots-IsOffer (current + 1) (current + lookahead_epochs * 32) start count (omega arith)
          (omega arith),
    )

module _ {ℓ} {F : Type ℓ} ⦃f : F64 F⦄ where
  -- What the answer of `fee` says, read as little-endian numbers, the ratio cut to [0, 1].
  pub record Reads (info : FeeInfo) (total price gas : ℕ) (ratio : F) : Type 0 where
    pub size : length info.payload ≡ 32
    pub total_at_0 : from_le_bytes (slice 0 8 info.payload) ≡ total
    pub price_at_8 : from_le_bytes (slice 8 8 info.payload) ≡ price
    pub gas_at_16 : from_le_bytes (slice 16 8 info.payload) ≡ gas
    pub ppm_at_24 :
        from_le_bytes (slice 24 8 info.payload)
        ≡ f.to_u64 (f.mul (clamp (lit 0) (lit 1) ratio) (lit 1000000))

  -- The payload of a fee reads back as the four numbers that were written, each a `u64`.
  fee_payload-reads :
      (fee : FeeCalculation F)
      → fee.total_cost ≤ u64_max
      → fee.final_price ≤ u64_max
      → fee.estimated_gas ≤ u64_max
      → congestion_ppm fee.congestion_ratio ≤ u64_max
      → (length (fee_payload fee) ≡ 32)
        × (from_le_bytes (slice 0 8 (fee_payload fee)) ≡ fee.total_cost)
        × (from_le_bytes (slice 8 8 (fee_payload fee)) ≡ fee.final_price)
        × (from_le_bytes (slice 16 8 (fee_payload fee)) ≡ fee.estimated_gas)
        × (from_le_bytes (slice 24 8 (fee_payload fee)) ≡ congestion_ppm fee.congestion_ratio)
  unfolding fee_payload le_bytes
  fee_payload-reads fee a b c d = (
    refl,
    from_le_bytes-le_bytes 8 fee.total_cost (omega arith),
    from_le_bytes-le_bytes 8 fee.final_price (omega arith),
    from_le_bytes-le_bytes 8 fee.estimated_gas (omega arith),
    from_le_bytes-le_bytes 8 (congestion_ppm fee.congestion_ratio) (omega arith),
  )

  congestion_ppm-le : (laws : IsIeee F) (ratio : F) → congestion_ppm ratio ≤ u64_max
  unfolding congestion_ppm
  congestion_ppm-le laws ratio = laws.to_u64-le _

  fee_payload-Reads :
      (laws : IsIeee F) (config : FeeConfig F) (gas_price slot : ℕ) (c : SlotCongestion F)
      (fee : FeeCalculation F) (commitment_type : ℕ)
      → IsQuote config gas_price slot c fee
      → fee.estimated_gas ≤ u64_max
      → Reads
          (record { payload = fee_payload fee; commitment_type = commitment_type })
          (fee.final_price * fee.estimated_gas)
          fee.final_price
          fee.estimated_gas
          fee.congestion_ratio
  unfolding congestion_ppm
  fee_payload-Reads laws config gas_price slot c fee commitment_type is_fee gas_le =
      let price_le =
        IsScaled-le laws c.base_gas_price fee.fee_multiplier fee.final_price is_fee.price in
      let (size, total, price, gas, ppm) =
        fee_payload-reads fee (rw is_fee.cost is_fee.no_overflow) price_le gas_le
          (congestion_ppm-le laws fee.congestion_ratio) in
      record {
        size = size;
        total_at_0 = total ∙ is_fee.cost;
        price_at_8 = price;
        gas_at_16 = gas;
        ppm_at_24 = ppm;
      }

  fee_slot-ok :
      ⦃x : Crates⦄ (engine : FeePricingEngine F) (now : ℕ) (request : CommitmentRequest) (slot : ℕ)
      → fee_slot engine now request ≡ ok slot
      → (extract_slot request.commitment_type request.payload ≡ ok slot)
        × (is_slot_acceptable_for_fees engine now slot ≡ true)
  unfolding fee_slot
  fee_slot-ok engine now request slot h =
      let extracted = extract_slot request.commitment_type request.payload in
      let (u, p, h1) = >>=-eq-ok (guard (request.commitment_type == 1) invalid_params) _ h in
      let (s, q, h2) = >>=-eq-ok (map_err (λ (e : Error). invalid_params) extracted) _ h1 in
      let fits = is_slot_acceptable_for_fees engine now s in
      let (v, r, h3) = >>=-eq-ok (guard fits invalid_params) _ h2 in
      let same = ok-injective h3 in
      (
        map_err-eq-ok (λ (e : Error). invalid_params) extracted q ∙ ap ok same,
        rw same at (guard-eq-ok fits invalid_params r),
      )

  -- With the laws of floating-point arithmetic, a fee is answered only for a slot of the payload that is in the window. Its 32 bytes read back as the total
  -- cost, the price, the gas and the congestion of a fee for that slot: the gas is the estimate for the request,
  -- the base price of the row of the slot times the multiplier after that gas, within the limits of the
  -- configuration, gives the price, rounded up or `u64::MAX`, and the cost is their exact product; the ratio of the
  -- row after that gas stands in millionths.
  pub fee_handler-Reads :
      ⦃x : Crates⦄ (laws : IsIeee F) (engine : FeePricingEngine F) (oracle : Oracle)
      (request : CommitmentRequest) (t : CongestionTable F) (info : FeeInfo)
      → (fee_handler engine oracle request t).0 ≡ ok info
      → (slot gas_price : ℕ) × (congestion : SlotCongestion F) × (fee : FeeCalculation F)
        × (extract_slot request.commitment_type request.payload ≡ ok slot)
        × (is_slot_acceptable_for_fees engine oracle.now slot ≡ true)
        × (oracle.gas_price ≡ ok gas_price)
        × (estimate_gas_for_commitment request.commitment_type request.payload
            ≡ ok fee.estimated_gas)
        × ((get_or_create_slot_congestion oracle.pool oracle.now oracle.id slot
              (min gas_price u64_max)
              engine.fee_config.default_gas_limit
              engine.genesis_time
              t).0
            ≡ ok congestion)
        × IsQuote engine.fee_config gas_price slot congestion fee
        × Reads info
            (fee.final_price * fee.estimated_gas)
            fee.final_price
            fee.estimated_gas
            fee.congestion_ratio
  unfolding fee_handler
  fee_handler-Reads laws engine oracle request t info h =
      elim (Result-cases (fee_slot engine oracle.now request)) [
        | inr (code, p) ↦ (let h' = rw (fee_handler, p) at h in cc)
        | inl (slot, p) ↦
            (let (accepted_slot, fits) = fee_slot-ok engine oracle.now request slot p in
              let result =
                calculate_fee_for_commitment engine oracle request.commitment_type request.payload
                  slot t in
              elim (Result-cases result.0) [
                | inr (e, q) ↦ (let h' = rw (fee_handler, p, q) at h in cc)
                | inl (fee, q) ↦
                    (let (gas_price, c, r, estimate, found, is_fee) =
                        calculate_fee-IsQuote engine oracle request.commitment_type request.payload
                          slot t fee q in
                      let same = ok-injective (rw (fee_handler, p, q) at h) in
                      let gas_le =
                        estimate_gas-le request.commitment_type request.payload fee.estimated_gas
                          estimate in
                      (
                        slot,
                        gas_price,
                        c,
                        fee,
                        accepted_slot,
                        fits,
                        r,
                        estimate,
                        found,
                        is_fee,
                        subst
                            (λ i.
                              Reads i (fee.final_price * fee.estimated_gas) fee.final_price
                                fee.estimated_gas fee.congestion_ratio)
                            same
                            (fee_payload-Reads laws engine.fee_config gas_price slot c fee
                              request.commitment_type is_fee gas_le),
                      ))
              ])
      ]
