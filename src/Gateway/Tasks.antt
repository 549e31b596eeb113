-- ===== src/Gateway/Tasks.antt =====
-- The calls of the handlers of src/rpc/handlers.rs, as sequences of steps of the gateway.
pub mod Services
pub mod Rounds
use preconfirmation_gateway.Common.{
  ℕ, zero, suc, ◌≡◌, ◌∙◌, refl, sym, ap, subst, arith, Bool, true, false, not, List, [], ◌∷◌, ◌++◌,
  map, Option, none, some, bytes_eq, is_empty, if◌then◌else◌, Result, ok, err, Result-cases,
  Option-cases, Bool-cases, inl, inr, length, ◌==◌,
}
use preconfirmation_gateway.Types.{
  Bytes, Text, CommitmentRequest, SignedCommitment, SignedDelegation, Constraint,
}
use preconfirmation_gateway.Error.{Error}
use preconfirmation_gateway.Float.{F64}
use preconfirmation_gateway.Crates.{Crates}
use preconfirmation_gateway.Bls.{BlsManager}
use preconfirmation_gateway.Sql.{PgPool, deactivate_by_id, active_delegations}
use preconfirmation_gateway.Commitments.{CommitmentTable, save_commitment}
use preconfirmation_gateway.Delegations.{DelegationTable, deactivate_expired_delegations}
use preconfirmation_gateway.Congestion.Table.{CongestionTable}
use preconfirmation_gateway.Pricing.{calculate_fee_for_commitment, FeeCalculation, Oracle}
use preconfirmation_gateway.Submission.{
  SubmissionConfig, Replies, create_constraints_from_commitments, submit_for, submit_and_mark,
  process_delegation_constraints, process_each,
}
use preconfirmation_gateway.Polling.{
  Statuses, poll_delegations_for_slot, poll_slots, deactivate_ineligible, is_ineligible,
  cleanup_expired_delegations, active_rows,
}
use preconfirmation_gateway.Rpc.{
  RpcContext, Tables, World, sign_request, save_request, track_gas, commitment_request_handler,
  fee_handler, fee_slot,
}
use preconfirmation_gateway.Gateway.{
  Gateway, Step, sign, save, quote, charge, poll, expire, deactivate, submit, mark, restart, Reach,
  here, next, Reach-trans,
}

module _ {ℓ} {F : Type ℓ} ⦃f : F64 F⦄ ⦃x : Crates⦄ (context : RpcContext F) (manager : BlsManager)
    (config : SubmissionConfig) (our_bls_pubkey : Bytes) where
  abbrev pub Run : Gateway F → Gateway F → Type ℓ
  Run = Reach context manager config our_bls_pubkey

  abbrev pub at : Tables F → List SignedCommitment → List (List Text) → Gateway F
  at tables signed accepted = record { tables = tables; signed = signed; accepted = accepted }

  -- What the other tasks do at such a moment is a run, and it leaves to a task what it holds.
  abbrev pub AreRuns : (Tables F → Tables F) → Type ℓ
  AreRuns others =
      (tables : Tables F) (signed : List SignedCommitment) (accepted : List (List Text))
      → Run (at tables signed accepted) (at (others tables) signed accepted)

  module _ (world : World F) (signed : List SignedCommitment) (accepted : List (List Text)) where
    pub track_gas-Run :
        (slot : ℕ) (sc : SignedCommitment) (tables : Tables F)
        → AreRuns world.before_update
        → Run
            (at tables signed accepted)
            (at (track_gas context world slot sc tables).1 signed accepted)
    unfolding track_gas
    track_gas-Run slot sc tables others =
        let fee =
          calculate_fee_for_commitment context.fee_engine world.oracle sc.commitment.commitment_type
            sc.commitment.payload slot tables.congestion in
        let after_fee : Tables F = record tables { congestion = fee.1 } in
        let quoted =
          next here (quote world.oracle sc.commitment.commitment_type sc.commitment.payload slot) in
        elim (Result-cases fee.0) [
          | inr (e, p) ↦ rw (track_gas, p) quoted
          | inl (calculation, p) ↦
              rw (track_gas, p)
                (next
                  (Reach-trans context manager config our_bls_pubkey quoted
                    (others after_fee signed accepted))
                  (charge world.oracle slot calculation.estimated_gas))
        ]

    save_request-Run :
        (slot : ℕ) (sc : SignedCommitment) (tables : Tables F)
        → AreRuns world.before_fee
        → AreRuns world.before_update
        → Run
            (at tables (sc ∷ signed) accepted)
            (at (save_request context world slot sc tables).1 signed accepted)
    unfolding save_request
    save_request-Run slot sc tables others others' =
        let after = save_commitment world.oracle.pool world.commitment_id sc tables.commitments in
        let after_save : Tables F = record tables { commitments = after.1 } in
        let saved : Run (at tables (sc ∷ signed) accepted) (at after_save signed accepted) =
          next here (save world.oracle.pool world.commitment_id [] signed sc refl) in
        elim (Result-cases after.0) [
          | inr (e, p) ↦ rw (save_request, p) saved
          | inl (o, p) ↦ elim (Option-cases o) [
            | inl q ↦ rw (save_request, p, q) saved
            | inr (id, q) ↦
                rw (save_request, p, q)
                  (Reach-trans context manager config our_bls_pubkey
                    (Reach-trans context manager config our_bls_pubkey saved
                      (others after_save signed accepted))
                    (track_gas-Run slot sc (world.before_fee after_save) others'))
          ]
        ]

    -- A call of `commitment_request`, with whatever answer, is a run of the gateway, if what the other
    -- tasks do between its statements is: the theorems on runs hold for it.
    pub commitment_request-Run :
        (request : CommitmentRequest) (tables : Tables F)
        → AreRuns world.before_delegations
        → AreRuns world.before_save
        → AreRuns world.before_fee
        → AreRuns world.before_update
        → Run
            (at tables signed accepted)
            (at (commitment_request_handler context world request tables).1 signed accepted)
    unfolding commitment_request_handler
    commitment_request-Run request tables others others' others'' others''' =
        elim (Result-cases (sign_request context world request tables)) [
          | inr (e, p) ↦ rw (commitment_request_handler, p) here
          | inl ((slot, sc), p) ↦
              (let read = world.before_delegations tables in
                let signing =
                  next (others tables signed accepted) (sign world request tables slot sc refl p) in
                rw (commitment_request_handler, p)
                  (Reach-trans context manager config our_bls_pubkey
                    (Reach-trans context manager config our_bls_pubkey signing
                      (others' read (sc ∷ signed) accepted))
                    (save_request-Run slot sc (world.before_save read) others'' others''')))
        ]
