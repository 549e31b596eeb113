-- ===== src/Tests/Requests.antt =====
-- A request for slot 5 that is answered, with a whitelist, a delegation, and a beacon node that has the
-- proposer on duty.
use preconfirmation_gateway.Common.{
  ℕ, ◌≡◌, ◌≢◌, refl, true, none, some, List, [], ◌∷◌, Result, ok, any, select, find, bytes_eq,
}
use preconfirmation_gateway.Types.{is_valid_for_slot}
use preconfirmation_gateway.Error.{Error}
use preconfirmation_gateway.Float.{Fixed, fixed_f64}
use preconfirmation_gateway.Crates.Sample.{sample}
use preconfirmation_gateway.Crypto.{
  normalize_address, generate_request_hash, sign_commitment, abi_encode_commitment,
  abi_encode_commitment_request, parse_hex_bytes, parse_ethereum_address, strip_prefix, to_lower,
  recoverable_bytes,
}
use preconfirmation_gateway.Bls.{
  new_manager, parse_application_gateway_domain, verify_delegation_signature,
  abi_encode_delegation_message, parse_committer,
}
use preconfirmation_gateway.Payload.{
  extract_slot, parse_inclusion_payload, parse_inclusion_payload_rlp,
}
use preconfirmation_gateway.Sql.{is_hex_digit, all_hex, matches_hex}
use preconfirmation_gateway.Commitments.{
  CommitmentRow, commitment_exists, save_commitment, to_row, row_checks, has_hash,
}
use preconfirmation_gateway.Delegations.{get_delegations_for_slot, to_delegations, to_delegation}
use preconfirmation_gateway.Beacon.{
  parse_digits, parse_u64, parse_slot, url_of, make_request, request_any, find_duty,
  get_proposer_duties, get_proposer_for_slot, parse_pubkey,
}
use preconfirmation_gateway.Congestion.{
  SlotCongestion, new, add_gas_usage, fee_multiplier, tx_price, gas_ratio,
}
use preconfirmation_gateway.Congestion.Table.{
  get_or_create_slot_congestion, start_time, slot_start_timestamp, insert_or_fetch,
}
use preconfirmation_gateway.Pricing.{
  FeeCalculation, gas_price_as_u64_clamped, checked_mul, estimate_gas_for_commitment, bounded_price,
  calculate_projected_congestion, fee_on, fee_at, calculate_fee_for_commitment,
}
use preconfirmation_gateway.Rpc.{
  Tables, validate_slasher_address, find_signing_key_for_committer, validate_and_extract_slot,
  verify_proposer, verify_delegation_authority, sign_request, track_gas, save_request,
  commitment_request_handler, commitment_result_handler,
}
use preconfirmation_gateway.Tests.Data.{
  slasher, all_up, engine, context, world_at, stored, tables, request, answer,
}
use preconfirmation_gateway.Rpc.Requests.{IsSigned, commitment_request-authorised}
use preconfirmation_gateway.Rpc.Replies.{commitment_request-result, commitment_request-once}

pub signed :
    (price : Result Error ℕ) → sign_request context (world_at price) request tables ≡ ok (5, answer)
unfolding sign_request validate_slasher_address validate_and_extract_slot
    find_signing_key_for_committer any find normalize_address strip_prefix bytes_eq to_lower
    generate_request_hash abi_encode_commitment_request parse_hex_bytes extract_slot
    parse_inclusion_payload parse_inclusion_payload_rlp commitment_exists
    verify_delegation_authority verify_proposer get_delegations_for_slot select to_delegations
    to_delegation is_valid_for_slot new_manager parse_application_gateway_domain
    verify_delegation_signature abi_encode_delegation_message parse_committer get_proposer_for_slot
    get_proposer_duties request_any make_request url_of find_duty parse_slot parse_u64 parse_digits
    parse_pubkey sign_commitment abi_encode_commitment recoverable_bytes parse_ethereum_address
signed price = refl

pub inserted :
    (price : Result Error ℕ)
    → (save_commitment (world_at price).oracle.pool 1 answer []).0 ≡ ok (some 1)
unfolding save_commitment row_checks matches_hex all_hex is_hex_digit strip_prefix to_row any
inserted price = refl

fee_of_seven :
    (r : List (SlotCongestion Fixed))
    → r ≡ []
    → ((cost : FeeCalculation Fixed) × ((calculate_fee_for_commitment engine
            (world_at (ok 7)).oracle
            1
            request.payload
            5
            r).0
          ≡ ok cost))
unfolding calculate_fee_for_commitment estimate_gas_for_commitment parse_inclusion_payload
    parse_inclusion_payload_rlp fee_at gas_price_as_u64_clamped get_or_create_slot_congestion
    slot_start_timestamp start_time insert_or_fetch any new fee_on calculate_projected_congestion
    bounded_price add_gas_usage gas_ratio fee_multiplier tx_price checked_mul
fee_of_seven r p = rw p (_, refl)

answered : (commitment_request_handler context (world_at (ok 7)) request tables).0 ≡ ok answer
unfolding commitment_request_handler save_request track_gas
answered =
    rw
      (
        commitment_request_handler,
        signed (ok 7),
        save_request,
        inserted (ok 7),
        track_gas,
        (fee_of_seven [] refl).1,
      )
      refl

commitment_request-authorised_example :
    (slot : ℕ) × IsSigned context (world_at (ok 7)) request tables slot answer
    × ((id : ℕ) × ((save_commitment all_up 1 answer []).0 ≡ ok (some id)))
commitment_request-authorised_example =
    commitment_request-authorised context (world_at (ok 7)) request tables answer answered

commitment_request-result_example :
    commitment_result_handler all_up answer.commitment.request_hash
      (commitment_request_handler context (world_at (ok 7)) request tables).1.commitments
    ≡ ok answer
commitment_request-result_example =
    commitment_request-result context (world_at (ok 7)) request tables answer all_up (λ t. refl)
      (λ t. refl) refl answered

-- The row of an answer that is there already.
abbrev taken_row : CommitmentRow
taken_row = record {
  id = 4;
  request_hash = answer.commitment.request_hash;
  commitment_type = 1;
  payload = [];
  slasher = slasher;
  signature = answer.signature;
  slot_number = none;
  constraint_processed = true;
}

abbrev taken_tables : Tables Fixed
taken_tables = record { commitments = taken_row ∷ []; delegations = stored ∷ []; congestion = [] }

hashed : generate_request_hash request ≡ ok answer.commitment.request_hash
unfolding generate_request_hash parse_hex_bytes strip_prefix parse_ethereum_address
hashed = refl

is_taken : any (has_hash answer.commitment.request_hash) taken_tables.commitments ≡ true
unfolding any bytes_eq
is_taken = refl

commitment_request-once_example :
    (commitment_request_handler context (world_at (ok 7)) request taken_tables).0 ≢ ok answer
commitment_request-once_example =
    commitment_request-once context (world_at (ok 7)) request taken_tables
      answer.commitment.request_hash answer hashed is_taken
