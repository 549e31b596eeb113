-- ===== src/Rpc.antt =====
-- src/rpc/handlers.rs: the handlers of the JSON-RPC methods, from the parsed parameters on.
pub mod Authority
pub mod Requests
pub mod LittleEndian
pub mod Fees
pub mod Replies
use preconfirmation_gateway.Common.{
  ℕ, zero, suc, ◌+◌, ◌-◌, ◌/◌, ◌%◌, Bool, not, ◌&&◌, Option, none, some, List, [], ◌∷◌, ◌++◌, ◌==◌,
  any, find, if◌then◌else◌, bytes_eq, Result, ok, err, ◌>>=◌, ◌>>◌, ok_or, guard, map_err,
  wrapping_add, wrapping_mul,
}
use preconfirmation_gateway.Types.{
  Bytes, Text, CommitmentRequest, Commitment, SignedCommitment, Offering, SlotInfo, FeeInfo,
  SignedDelegation, ValidatorDuty, is_valid_for_slot,
}
use preconfirmation_gateway.Error.{
  Error, ErrorCode, invalid_params, invalid_request, internal_error, invalid_address, no_delegation,
  committer_mismatch, invalid_delegation_signature,
}
use preconfirmation_gateway.Float.{F64, lit, clamp}
use preconfirmation_gateway.Crates.{Crates}
use preconfirmation_gateway.Crypto.{normalize_address, generate_request_hash, sign_commitment}
use preconfirmation_gateway.Bls.{new_manager, verify_delegation_signature}
use preconfirmation_gateway.Payload.{extract_slot}
use preconfirmation_gateway.Timing.{current_slot_estimate, slots_per_epoch}
use preconfirmation_gateway.Sql.{PgPool}
use preconfirmation_gateway.Commitments.{
  CommitmentTable, commitment_exists, save_commitment, get_commitment_by_hash,
}
use preconfirmation_gateway.Delegations.{DelegationTable, get_delegations_for_slot}
use preconfirmation_gateway.Congestion.Table.{CongestionTable}
use preconfirmation_gateway.Beacon.{
  Network, BeaconApiConfig, BeaconJson, get_proposer_for_slot, parse_pubkey,
}
use preconfirmation_gateway.Pricing.{
  FeePricingEngine, FeeCalculation, Oracle, calculate_fee_for_commitment, apply_gas_usage_to_slot,
  is_slot_acceptable_for_fees,
}

pub record RpcContext {ℓ} (F : Type ℓ) : Type ℓ where
  pub slasher_whitelist : List Text
  pub domain_application_gateway : Text
  pub lookahead_epochs : ℕ
  pub committer_address : Text
  pub ecdsa_private_key : Bytes
  pub beacon : BeaconApiConfig
  pub beacon_json : BeaconJson
  pub fee_engine : FeePricingEngine F

pub record Tables {ℓ} (F : Type ℓ) : Type ℓ where
  pub commitments : CommitmentTable
  pub delegations : DelegationTable
  pub congestion : CongestionTable F

-- What a call meets: the answers from outside, the id of the next commitment, and what other tasks do to the
-- tables between its own statements. A request that is refused before it saves
-- returns the tables that it began with.
pub record World {ℓ} (F : Type ℓ) : Type ℓ where
  pub oracle : Oracle
  pub net : Network
  pub commitment_id : ℕ
  pub before_delegations : Tables F → Tables F
  pub before_save : Tables F → Tables F
  pub before_fee : Tables F → Tables F
  pub before_update : Tables F → Tables F

abbrev pub same_address : Text → Text → Bool
same_address a b = bytes_eq (normalize_address a) (normalize_address b)

unfoldable pub validate_slasher_address : List Text → Text → Result Error (Unit {0})
validate_slasher_address whitelist slasher_address =
    guard (any (λ whitelisted. same_address whitelisted slasher_address) whitelist) invalid_address

unfoldable pub find_signing_key_for_committer {ℓ} :
    {F : Type ℓ} → RpcContext F → Text → Result Error Bytes
find_signing_key_for_committer context committer_address = do
  guard (same_address committer_address context.committer_address) committer_mismatch
  ok context.ecdsa_private_key

abbrev pub is_for : ℕ → Text → SignedDelegation → Bool
is_for slot committer_address delegation =
    same_address delegation.message.committer committer_address && is_valid_for_slot delegation slot

module _ {ℓ} {F : Type ℓ} ⦃f : F64 F⦄ ⦃x : Crates⦄ (context : RpcContext F) (world : World F) where
  unfoldable pub validate_and_extract_slot : ℕ → Bytes → Result Error ℕ
  validate_and_extract_slot commitment_type payload = extract_slot commitment_type payload

  -- The proposer of the delegation is the one that the beacon chain has scheduled.
  unfoldable pub verify_proposer : ℕ → SignedDelegation → Result Error (Unit {0})
  verify_proposer slot delegation = do
    scheduled ← get_proposer_for_slot context.beacon_json world.net context.beacon slot
    proposer_duty ← ok_or scheduled no_delegation
    scheduled_proposer ← parse_pubkey proposer_duty
    guard (bytes_eq scheduled_proposer delegation.message.proposer) committer_mismatch

  unfoldable pub verify_delegation_authority : ℕ → Text → DelegationTable → Result Error Text
  unfolding verify_proposer
  verify_delegation_authority slot committer_address table = do
    delegations ← get_delegations_for_slot world.oracle.pool slot table
    delegation ← ok_or (find (is_for slot committer_address) delegations) no_delegation
    bls_manager ← new_manager context.domain_application_gateway
    valid ← verify_delegation_signature delegation
    guard valid invalid_delegation_signature
    verify_proposer slot delegation
    ok delegation.message.committer

  abbrev pub internal : Error → ErrorCode
  internal e = internal_error

  abbrev pub refused : Error → ErrorCode
  refused e = invalid_request

  abbrev pub malformed : Error → ErrorCode
  malformed e = invalid_params

  abbrev pub commitment_for : CommitmentRequest → Text → Commitment
  commitment_for request request_hash = record {
    commitment_type = request.commitment_type;
    payload = request.payload;
    request_hash = request_hash;
    slasher = request.slasher;
  }

  -- Up to the signature: reads only.
  unfoldable pub sign_request :
      CommitmentRequest → Tables F → Result ErrorCode (ℕ × SignedCommitment)
  sign_request request tables = do
    guard (request.commitment_type == 1) invalid_params
    map_err refused (validate_slasher_address context.slasher_whitelist request.slasher)
    slot ← map_err malformed (validate_and_extract_slot request.commitment_type request.payload)
    request_hash ← map_err internal (generate_request_hash request)
    exists ← map_err internal (commitment_exists world.oracle.pool request_hash tables.commitments)
    guard (not exists) invalid_request
    committer_address ← map_err refused (
        verify_delegation_authority slot request.slasher
          (world.before_delegations tables).delegations)
    signing_key ← map_err refused (find_signing_key_for_committer context committer_address)
    let commitment = commitment_for request request_hash
    signature ← map_err internal (sign_commitment commitment signing_key)
    ok (slot, record { commitment = commitment; signature = signature })

  -- A fee that cannot be computed fails the request; a congestion that cannot be updated does not.
  unfoldable pub track_gas :
      ℕ → SignedCommitment → Tables F → Result ErrorCode SignedCommitment × Tables F
  track_gas slot sc tables =
      let fee =
        calculate_fee_for_commitment context.fee_engine world.oracle sc.commitment.commitment_type
          sc.commitment.payload slot tables.congestion in
      let after_fee = record tables { congestion = fee.1 } in
      elim fee.0 [
        | err e ↦ (err internal_error, after_fee)
        | ok calculation ↦
            (let current = world.before_update after_fee in
              let updated =
                apply_gas_usage_to_slot context.fee_engine world.oracle slot
                  calculation.estimated_gas current.congestion in
              (ok sc, record current { congestion = updated.1 }))
      ]

  -- The save, whose ON CONFLICT detects a duplicate that slipped through.
  unfoldable pub save_request :
      ℕ → SignedCommitment → Tables F → Result ErrorCode SignedCommitment × Tables F
  unfolding track_gas
  save_request slot sc tables =
      let saved = save_commitment world.oracle.pool world.commitment_id sc tables.commitments in
      let after_save = record tables { commitments = saved.1 } in
      elim saved.0 [
        | err e ↦ (err internal_error, after_save)
        | ok none ↦ (err invalid_request, after_save)
        | ok (some id) ↦ track_gas slot sc (world.before_fee after_save)
      ]

  unfoldable pub commitment_request_handler :
      CommitmentRequest → Tables F → Result ErrorCode SignedCommitment × Tables F
  unfolding sign_request save_request
  commitment_request_handler request tables = elim (sign_request request tables) [
    | err code ↦ (err code, tables)
    | ok (slot, sc) ↦ save_request slot sc (world.before_save (world.before_delegations tables))
  ]

abbrev pub found_or : Result Error (Option SignedCommitment) → Result ErrorCode SignedCommitment
found_or (ok (some sc)) = ok sc
found_or (ok none) = err invalid_request
found_or (err e) = err internal_error

unfoldable pub commitment_result_handler :
    PgPool → Text → CommitmentTable → Result ErrorCode SignedCommitment
commitment_result_handler pool request_hash table =
    found_or (get_commitment_by_hash pool request_hash table)

abbrev pub slot_info : ℕ → SlotInfo
slot_info slot = record {
  slot = slot;
  offerings = record { chain_id = 560048; commitment_types = 1 ∷ [] } ∷ [];
}

-- `for slot in start..` for so many slots.
unfoldable pub offer_slots : ℕ → ℕ → List SlotInfo
offer_slots start zero = []
offer_slots start (suc count) = slot_info start ∷ offer_slots (suc start) count

unfoldable pub slots_handler : ℕ → ℕ → ℕ → List SlotInfo
unfolding offer_slots
slots_handler now genesis_time lookahead_epochs =
    let start_slot = wrapping_add (current_slot_estimate now genesis_time) 1 in
    let end_slot = wrapping_add start_slot (wrapping_mul lookahead_epochs slots_per_epoch) in
    offer_slots start_slot (end_slot - start_slot)

-- `to_le_bytes`
unfoldable pub le_bytes : ℕ → ℕ → Bytes
le_bytes zero n = []
le_bytes (suc k) n = n % 256 ∷ le_bytes k (n / 256)

module _ {ℓ} {F : Type ℓ} ⦃f : F64 F⦄ where
  -- The ratio in parts per million.
  unfoldable pub congestion_ppm : F → ℕ
  congestion_ppm ratio = f.to_u64 (f.mul (clamp (lit 0) (lit 1) ratio) (lit 1000000))

  unfoldable pub fee_payload : FeeCalculation F → Bytes
  unfolding le_bytes congestion_ppm
  fee_payload calculation =
      le_bytes 8 calculation.total_cost
      ++ le_bytes 8 calculation.final_price
      ++ le_bytes 8 calculation.estimated_gas
      ++ le_bytes 8 (congestion_ppm calculation.congestion_ratio)

  abbrev pub fee_info : ℕ → Result Error (FeeCalculation F) → Result ErrorCode FeeInfo
  fee_info commitment_type (ok calculation) =
      ok (record { payload = fee_payload calculation; commitment_type = commitment_type })
  fee_info commitment_type (err e) = err internal_error

  -- The checks, and the slot of the payload.
  unfoldable pub fee_slot :
      ⦃x : Crates⦄ → FeePricingEngine F → ℕ → CommitmentRequest → Result ErrorCode ℕ
  fee_slot engine now request = do
    guard (request.commitment_type == 1) invalid_params
    slot ← map_err (λ _. invalid_params) (extract_slot request.commitment_type request.payload)
    guard (is_slot_acceptable_for_fees engine now slot) invalid_params
    ok slot

  unfoldable pub fee_handler :
      ⦃x : Crates⦄
      → FeePricingEngine F
      → Oracle
      → CommitmentRequest
      → CongestionTable F
      → Result ErrorCode FeeInfo × CongestionTable F
  unfolding fee_slot fee_payload
  fee_handler engine oracle request table = elim (fee_slot engine oracle.now request) [
    | err code ↦ (err code, table)
    | ok slot ↦
        (let fee =
            calculate_fee_for_commitment engine oracle request.commitment_type request.payload slot
              table in
          (fee_info request.commitment_type fee.0, fee.1))
  ]
