-- ===== src/Gateway/Calls.antt =====
-- What a call of `commitment_request_handler` of src/rpc/handlers.rs comes to while other tasks run.
pub mod Outcomes
use preconfirmation_gateway.Common.{
  ℕ, ◌≡◌, ◌⊎◌, ◌∙◌, refl, sym, ap, subst, arith, false, none, some, [], All, ok, err, inl, inr,
  Result-cases, Option-cases,
}
use preconfirmation_gateway.Types.{Bytes, CommitmentRequest, SignedCommitment}
use preconfirmation_gateway.Error.{Error, ErrorCode, internal_error, invalid_request}
use preconfirmation_gateway.Float.{F64}
use preconfirmation_gateway.Crates.{Crates}
use preconfirmation_gateway.Bls.{BlsManager}
use preconfirmation_gateway.Sql.{PgPool, commitment_by_hash}
use preconfirmation_gateway.Commitments.{CommitmentTable, save_commitment, insert_row}
use preconfirmation_gateway.Commitments.Store.{get-save_commitment}
use preconfirmation_gateway.Pricing.{
  FeeCalculation, calculate_fee_for_commitment, apply_gas_usage_to_slot,
}
use preconfirmation_gateway.Submission.{SubmissionConfig}
use preconfirmation_gateway.Rpc.{
  RpcContext, Tables, World, sign_request, save_request, track_gas, commitment_request_handler,
  commitment_result_handler,
}
use preconfirmation_gateway.Rpc.Requests.{IsSigned, sign_request-ok}
use preconfirmation_gateway.Gateway.{Reach-trans}
use preconfirmation_gateway.Gateway.Authentic.{IsAuthenticRow, Reach-AllAuthentic}
use preconfirmation_gateway.Gateway.Ledger.Lives.{Reach-get_commitment}
use preconfirmation_gateway.Gateway.Tasks.{AreRuns, track_gas-Run, commitment_request-Run}

module _ {ℓ} {F : Type ℓ} ⦃f : F64 F⦄ ⦃x : Crates⦄ (context : RpcContext F) (world : World F)
    (request : CommitmentRequest) (tables : Tables F) where
  -- The tables that the call leaves, and those in which it saves.
  abbrev pub after : Tables F
  after = (commitment_request_handler context world request tables).1

  abbrev pub at_save : Tables F
  at_save = world.before_save (world.before_delegations tables)

  -- The tables in which it computes the fee of a commitment.
  abbrev pub at_fee : SignedCommitment → Tables F
  at_fee sc = world.before_fee (record at_save {
    commitments = (save_commitment world.oracle.pool world.commitment_id sc at_save.commitments).1;
  })

  -- An error is returned, and no commitment was added.
  pub record Refused : Type ℓ where
    pub code : ErrorCode
    pub refused : (commitment_request_handler context world request tables).0 ≡ err code
    pub unchanged :
        (after.commitments ≡ tables.commitments) ⊎ (after.commitments ≡ at_save.commitments)

  -- The commitment passed every check of a request for the slot, and is read under its hash from now on.
  pub record IsStored (later : PgPool) (slot : ℕ) (sc : SignedCommitment) : Type ℓ where
    pub signed : IsSigned context world request tables slot sc
    pub fetched :
        commitment_result_handler later sc.commitment.request_hash after.commitments ≡ ok sc

  -- A stored commitment is returned, and the gas of its fee was charged to its slot.
  pub record Answered (later : PgPool) : Type ℓ where
    pub slot : ℕ
    pub sc : SignedCommitment
    pub stored : IsStored later slot sc
    pub answered : (commitment_request_handler context world request tables).0 ≡ ok sc
    pub fee : FeeCalculation F
    pub fee_of :
        (calculate_fee_for_commitment context.fee_engine world.oracle sc.commitment.commitment_type
          sc.commitment.payload slot
          (at_fee sc).congestion).0
        ≡ ok fee
    pub charged :
        after.congestion
        ≡ (apply_gas_usage_to_slot context.fee_engine world.oracle slot fee.estimated_gas
            (world.before_update (record (at_fee sc) {
              congestion =
                  (calculate_fee_for_commitment context.fee_engine world.oracle
                    sc.commitment.commitment_type sc.commitment.payload slot
                    (at_fee sc).congestion).1;
            })).congestion).1

  -- An internal error is returned for a stored commitment, since there is no fee for it.
  pub record Unpaid (later : PgPool) : Type ℓ where
    pub slot : ℕ
    pub sc : SignedCommitment
    pub stored : IsStored later slot sc
    pub refused : (commitment_request_handler context world request tables).0 ≡ err internal_error
    pub reason : Error
    pub no_fee :
        (calculate_fee_for_commitment context.fee_engine world.oracle sc.commitment.commitment_type
          sc.commitment.payload slot
          (at_fee sc).congestion).0
        ≡ err reason

  module _ (manager : BlsManager) (config : SubmissionConfig) (our_bls_pubkey : Bytes) where
    -- A call of `commitment_request`, whatever its answer, adds no commitment that is not the gateway's own: if
    -- what the other tasks do between its statements are runs of the gateway, and every stored commitment
    -- is of type 1, to a slasher on the whitelist, for a slot with a signed delegation to the gateway's address, which is
    -- the slasher's too, under the hash of its own content and a signature of the gateway's key, then this holds after
    -- the call.
    pub commitment_request-IsAuthentic :
        AreRuns context manager config our_bls_pubkey world.before_delegations
        → AreRuns context manager config our_bls_pubkey world.before_save
        → AreRuns context manager config our_bls_pubkey world.before_fee
        → AreRuns context manager config our_bls_pubkey world.before_update
        → All (IsAuthenticRow context) tables.commitments
        → All (IsAuthenticRow context) after.commitments
    commitment_request-IsAuthentic others others' others'' others''' rows =
        (Reach-AllAuthentic context manager config our_bls_pubkey
          (commitment_request-Run context manager config our_bls_pubkey world [] [] request tables
            others others' others'' others''')
          (record { in_flight = tt; stored = rows })).stored
