-- ===== src/Gateway/Tasks/Rounds.antt =====
-- A round of src/services/constraint_submission.rs as a run of the gateway.
use preconfirmation_gateway.Common.{
  ℕ, zero, suc, ◌-◌, refl, List, [], ◌∷◌, wrapping_add, bytes_eq, is_empty, Result-cases,
  Bool-cases, inl, inr,
}
use preconfirmation_gateway.Types.{Bytes, Text, SignedCommitment, SignedDelegation}
use preconfirmation_gateway.Float.{F64}
use preconfirmation_gateway.Crates.{Crates}
use preconfirmation_gateway.Bls.{BlsManager}
use preconfirmation_gateway.Timing.{current_slot_estimate, is_within_constraint_window}
use preconfirmation_gateway.Sql.{PgPool}
use preconfirmation_gateway.Commitments.{CommitmentTable}
use preconfirmation_gateway.Delegations.{get_delegations_for_slot}
use preconfirmation_gateway.Submission.{
  SubmissionConfig, Replies, create_constraints_from_commitments, submit_for, submit_and_mark,
  process_delegation_constraints, process_each, process_constraints_for_slot, process_slots,
  process_pending_constraints,
}
use preconfirmation_gateway.Rpc.{RpcContext, Tables}
use preconfirmation_gateway.Gateway.{submit, mark, here, next}
use preconfirmation_gateway.Gateway.Tasks.Services

module _ {ℓ} {F : Type ℓ} ⦃f : F64 F⦄ ⦃x : Crates⦄ (context : RpcContext F) (manager : BlsManager)
    (config : SubmissionConfig) (our_bls_pubkey : Bytes) (signed : List SignedCommitment)
    (accepted : List (List Text)) (replies : Replies) where
  abbrev IsRun : Tables F → Tables F → Type ℓ
  IsRun = Services.Runs context manager config our_bls_pubkey signed accepted

  followed_by : {t t' t'' : Tables F} → IsRun t t' → IsRun t' t'' → IsRun t t''
  followed_by r s = Services.Runs-trans context manager config our_bls_pubkey signed accepted r s

  abbrev with_commitments : Tables F → CommitmentTable → Tables F
  with_commitments tables t = record tables { commitments = t }

  -- The commitments of a delegation are converted, sent, and marked once they are accepted.
  process_delegation-Run :
      (pool : PgPool) (delegation : SignedDelegation) (slot : ℕ) (tables : Tables F)
      → IsRun tables (
          with_commitments tables
            (process_delegation_constraints manager config replies pool delegation slot
              tables.commitments).1)
  unfolding process_delegation_constraints submit_and_mark
  process_delegation-Run pool delegation slot tables =
      let committer = delegation.message.committer in
      elim (Result-cases
        (create_constraints_from_commitments pool slot committer tables.commitments)) [
          | inr (e, p) ↦ rw (process_delegation_constraints, p) here
          | inl ((constraints, hashes), p) ↦ elim (Bool-cases (is_empty constraints)) [
            | inl nothing ↦ rw (process_delegation_constraints, p, nothing) here
            | inr something ↦
                elim (Result-cases
                  (submit_for manager config replies delegation slot constraints)) [
                    | inr (e, q) ↦ rw (process_delegation_constraints, p, something, q) here
                    | inl (status, q) ↦ elim (Bool-cases (is_empty hashes)) [
                      | inl none_left ↦
                          rw (process_delegation_constraints, p, something, q, none_left) here
                      | inr some_left ↦
                          rw (process_delegation_constraints, p, something, q, some_left)
                            (next
                              (next here
                                (submit replies pool delegation slot status constraints hashes p q))
                              (mark pool [] accepted hashes refl))
                    ]
                  ]
          ]
        ]

  process_each-Run :
      (pools : ℕ → PgPool) (n : ℕ) (ds : List SignedDelegation) (slot : ℕ) (tables : Tables F)
      → IsRun tables (
          with_commitments tables
            (process_each manager config replies pools n ds slot tables.commitments))
  unfolding process_each
  process_each-Run pools n [] slot tables = here
  process_each-Run pools n (d ∷ ds) slot tables =
      elim (Bool-cases (bytes_eq d.message.delegate config.bls_public_key)) [
        | inr other ↦ rw (process_each, other) (process_each-Run pools (suc n) ds slot tables)
        | inl own ↦
            (let processed =
                process_delegation_constraints manager config replies (pools n) d slot
                  tables.commitments in
              rw (process_each, own)
                (followed_by (process_delegation-Run (pools n) d slot tables)
                  (process_each-Run pools (suc n) ds slot (with_commitments tables processed.1))))
      ]

  process_slot-Run :
      (pool : PgPool) (pools : ℕ → PgPool) (slot : ℕ) (tables : Tables F)
      → IsRun tables (
          with_commitments tables
            (process_constraints_for_slot manager config replies pool pools slot tables.delegations
              tables.commitments).1)
  unfolding process_constraints_for_slot
  process_slot-Run pool pools slot tables =
      elim (Result-cases (get_delegations_for_slot pool slot tables.delegations)) [
        | inr (e, p) ↦ rw (process_constraints_for_slot, p) here
        | inl (found, p) ↦
            rw (process_constraints_for_slot, p) (process_each-Run pools 0 found slot tables)
      ]

  process_slots-Run :
      (clock : ℕ → ℕ) (pool : ℕ → PgPool) (pools : ℕ → ℕ → PgPool) (count slot : ℕ)
      (tables : Tables F)
      → IsRun tables (
          with_commitments tables (
            process_slots manager config replies clock pool pools count slot tables.delegations
              tables.commitments))
  unfolding process_slots
  process_slots-Run clock pool pools zero slot tables = here
  process_slots-Run clock pool pools (suc count) slot tables =
      elim (Bool-cases (is_within_constraint_window (clock slot) config.genesis_time slot)) [
        | inr outside ↦
            rw (process_slots, outside) (process_slots-Run clock pool pools count (suc slot) tables)
        | inl inside ↦
            (let processed =
                process_constraints_for_slot manager config replies (pool slot) (pools slot) slot
                  tables.delegations tables.commitments in
              rw (process_slots, inside)
                (followed_by (process_slot-Run (pool slot) (pools slot) slot tables) (
                  process_slots-Run clock pool pools count (suc slot)
                    (with_commitments tables processed.1))))
      ]

  -- A round of the submission service over its slots is a run of the gateway, whatever the relay
  -- answers and whichever statements fail, while the other tasks wait.
  pub process_pending-Run :
      (now : ℕ) (clock : ℕ → ℕ) (pool : ℕ → PgPool) (pools : ℕ → ℕ → PgPool) (tables : Tables F)
      → IsRun tables (
          with_commitments tables (
            process_pending_constraints manager config replies now clock pool pools
              tables.delegations tables.commitments))
  unfolding process_pending_constraints
  process_pending-Run now clock pool pools tables =
      let current = current_slot_estimate now config.genesis_time in
      process_slots-Run clock pool pools (suc (wrapping_add current 3) - current) current tables
