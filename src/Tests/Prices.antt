-- ===== src/Tests/Prices.antt =====
-- Congestion, prices and fees at concrete numbers, in thousandths.
use preconfirmation_gateway.Common.{
  ℕ, ◌+◌, ◌*◌, ◌≤◌, ◌≡◌, refl, arith, true, none, some, [], ◌∷◌, ◌++◌, ok, find, any, min, u64_max,
}
use preconfirmation_gateway.Types.{FeeInfo}
use preconfirmation_gateway.Float.{Fixed, fixed_f64, Fixed-IsIeee}
use preconfirmation_gateway.Crates.Sample.{sample}
use preconfirmation_gateway.Payload.{
  extract_slot, parse_inclusion_payload, parse_inclusion_payload_rlp,
}
use preconfirmation_gateway.Timing.{current_slot_estimate}
use preconfirmation_gateway.Tests.Data.{all_up, engine, world_at, request}
use preconfirmation_gateway.Congestion.{
  SlotCongestion, new, add_gas_usage, gas_ratio, fee_multiplier, tx_price,
}
use preconfirmation_gateway.Congestion.Clamp.{InRange}
use preconfirmation_gateway.Congestion.Bounds.{add_gas_usage_price_bounds}
use preconfirmation_gateway.Congestion.Table.{
  has_slot, get_or_create_slot_congestion, start_time, slot_start_timestamp, insert_or_fetch,
  update_slot_congestion_gas_usage,
}
use preconfirmation_gateway.Congestion.Table.Rows
use preconfirmation_gateway.Congestion.Table.Updates.{prices, run_updates, run_updates-total}
use preconfirmation_gateway.Congestion.Table.Quotes.{update-get_or_create}
use preconfirmation_gateway.Pricing.{
  FeeCalculation, calculate_fee_for_commitment, estimate_gas_for_commitment, fee_at, fee_on,
  gas_price_as_u64_clamped, bounded_price, calculate_projected_congestion, checked_mul,
  is_slot_acceptable_for_fees,
}
use preconfirmation_gateway.Pricing.Fees.{calculate_fee-IsQuote, IsQuote}
use preconfirmation_gateway.Rpc.{fee_slot, fee_handler, fee_payload, le_bytes, congestion_ppm}
use preconfirmation_gateway.Rpc.Fees.{fee_handler-Reads, Reads}

-- A slot with a third of its gas taken, at 7 wei.
abbrev busy : SlotCongestion Fixed
busy = record {
  id = some 1;
  slot = 5;
  preconfirmed_gas = 10000000;
  total_gas_limit = 30000000;
  gas_used_ratio = some 333;
  base_gas_price = 7;
  calculated_fee_multiplier = some 1125;
  current_tx_price = 8;
  slot_start_time = 1060;
  last_updated = none;
  created_at = none;
}

abbrev square : Fixed
square = some 2000

found : find (has_slot 5) (busy ∷ []) ≡ some busy
unfolding find
found = refl

in_range : current_slot_estimate 1050 1000 + 1 + 2 * 32 ≤ u64_max
unfolding current_slot_estimate
in_range = omega arith

run_updates-total_example :
    (row : SlotCongestion Fixed) × (find
        (has_slot 5)
        (run_updates all_up 5 square ((1, 5000000) ∷ (2, 31000) ∷ []) (busy ∷ []))
      ≡ some row)
    × (prices row ≡ prices (add_gas_usage busy (min 5031000 u64_max) square))
run_updates-total_example =
    run_updates-total all_up 5 square (1, 5000000) ((2, 31000) ∷ []) busy (busy ∷ [])
      (refl, refl, refl, refl) found

created :
    (get_or_create_slot_congestion all_up 1050 1 5 7 30000000 1000 []).0
    ≡ ok (record (new {F = Fixed} 5 7 30000000 1060) { id = some 1 })
unfolding get_or_create_slot_congestion start_time slot_start_timestamp insert_or_fetch any new
created = refl

update-get_or_create_example :
    (row : SlotCongestion Fixed) × ((update_slot_congestion_gas_usage all_up 1052 5 31032 square
        (get_or_create_slot_congestion {F = Fixed} all_up 1050 1 5 7 30000000 1000 []).1).0
      ≡ ok row)
    × (prices row
        ≡ prices (
            add_gas_usage
              (record (new {F = Fixed} 5 7 30000000 1060) { id = some 1 })
              31032
              square))
update-get_or_create_example =
    update-get_or_create all_up all_up 1050 1 5 7 30000000 1000 31032 1052 square
      (record (new {F = Fixed} 5 7 30000000 1060) { id = some 1 }) [] created
      (refl, refl, refl, refl)

busy-InRange : InRange busy.calculated_fee_multiplier
busy-InRange = record { above = refl; below = refl; finite = refl }

busy-IsTable : Rows.IsTable (busy ∷ [])
unfolding any
busy-IsTable = (refl, refl, busy-InRange, tt)

add_gas_usage_price_bounds_example :
    (7 ≤ (add_gas_usage busy 5000000 square).current_tx_price)
    × ((add_gas_usage busy 5000000 square).current_tx_price ≤ 700)
add_gas_usage_price_bounds_example =
    add_gas_usage_price_bounds Fixed-IsIeee busy 5000000 square (omega arith)

-- 31032 gas: two bytes of a transaction.
abbrev quoted : FeeCalculation Fixed
quoted = record {
  slot = 5;
  base_gas_price = 7;
  congestion_ratio = some 1;
  fee_multiplier = some 1000;
  final_price = 7;
  estimated_gas = 31032;
  total_cost = 217224;
}

quote :
    (calculate_fee_for_commitment engine (world_at (ok 7)).oracle 1 request.payload 5 []).0
    ≡ ok quoted
unfolding calculate_fee_for_commitment estimate_gas_for_commitment parse_inclusion_payload
    parse_inclusion_payload_rlp fee_at gas_price_as_u64_clamped get_or_create_slot_congestion
    slot_start_timestamp start_time insert_or_fetch any new fee_on calculate_projected_congestion
    bounded_price add_gas_usage gas_ratio fee_multiplier tx_price checked_mul
quote = refl

calculate_fee-IsQuote_example :
    (gas_price : ℕ) × (congestion : SlotCongestion Fixed) × ((world_at (ok 7)).oracle.gas_price
      ≡ ok gas_price)
    × (estimate_gas_for_commitment 1 request.payload ≡ ok 31032)
    × ((get_or_create_slot_congestion all_up 1050 1 5 (min gas_price u64_max) 30000000 1000 []).0
        ≡ ok congestion)
    × IsQuote engine.fee_config gas_price 5 congestion quoted
calculate_fee-IsQuote_example =
    calculate_fee-IsQuote engine (world_at (ok 7)).oracle 1 request.payload 5 [] quoted quote

abbrev fee_answer : FeeInfo
fee_answer = record {
  payload =
      (0x88 ∷ 0x50 ∷ 0x03 ∷ 0 ∷ 0 ∷ 0 ∷ 0 ∷ 0 ∷ [])
      ++ (7 ∷ 0 ∷ 0 ∷ 0 ∷ 0 ∷ 0 ∷ 0 ∷ 0 ∷ [])
      ++ (0x38 ∷ 0x79 ∷ 0 ∷ 0 ∷ 0 ∷ 0 ∷ 0 ∷ 0 ∷ [])
      ++ (0xe8 ∷ 3 ∷ 0 ∷ 0 ∷ 0 ∷ 0 ∷ 0 ∷ 0 ∷ []);
  commitment_type = 1;
}

fee_answered : (fee_handler engine (world_at (ok 7)).oracle request []).0 ≡ ok fee_answer
unfolding fee_handler fee_slot extract_slot parse_inclusion_payload parse_inclusion_payload_rlp
    is_slot_acceptable_for_fees current_slot_estimate calculate_fee_for_commitment
    estimate_gas_for_commitment fee_at gas_price_as_u64_clamped get_or_create_slot_congestion
    slot_start_timestamp start_time insert_or_fetch any new fee_on calculate_projected_congestion
    bounded_price add_gas_usage gas_ratio fee_multiplier tx_price checked_mul fee_payload le_bytes
    congestion_ppm
fee_answered = refl

fee_handler-Reads_example :
    (slot gas_price : ℕ) × (congestion : SlotCongestion Fixed) × (fee : FeeCalculation Fixed)
    × (extract_slot 1 request.payload ≡ ok slot)
    × (is_slot_acceptable_for_fees engine 1050 slot ≡ true)
    × ((world_at (ok 7)).oracle.gas_price ≡ ok gas_price)
    × (estimate_gas_for_commitment 1 request.payload ≡ ok fee.estimated_gas)
    × ((get_or_create_slot_congestion all_up 1050 1 slot (min gas_price u64_max) 30000000 1000 []).0
        ≡ ok congestion)
    × IsQuote engine.fee_config gas_price slot congestion fee
    × Reads fee_answer
        (fee.final_price * fee.estimated_gas)
        fee.final_price
        fee.estimated_gas
        fee.congestion_ratio
fee_handler-Reads_example =
    fee_handler-Reads Fixed-IsIeee engine (world_at (ok 7)).oracle request [] fee_answer
      fee_answered
