-- ===== src/Submission.antt =====
-- src/services/constraint_submission.rs: stored commitments become constraints that are signed and
-- sent to the relay. `Replies` is what the relay answers to the attempts for a message.
pub mod Processing
pub mod Outcomes
pub mod Settled
pub mod Settling
pub mod Kept
pub mod Rounds
use preconfirmation_gateway.Common.{
  ℕ, zero, suc, ◌-◌, Bool, not, ◌&&◌, Option, none, some, List, [], ◌∷◌, leb, ◌==◌, if◌then◌else◌,
  is_empty, find, bytes_eq, Result, ok, err, ◌>>=◌, ◌>>◌, ok_or, guard, wrapping_add,
}
use preconfirmation_gateway.Types.{
  Bytes, Text, SignedCommitment, SignedDelegation, Constraint, ConstraintsMessage,
  SignedConstraints, from_inclusion_commitment,
}
use preconfirmation_gateway.Error.{
  Error, committer_mismatch, no_delegation, deadline_elapsed, timed_out,
}
use preconfirmation_gateway.Crates.{Crates}
use preconfirmation_gateway.Bls.{BlsManager, sign_constraints_message, parse_authorized_builders}
use preconfirmation_gateway.Timing.{
  current_slot_estimate, is_within_constraint_window, constraint_deadline_for_slot,
}
use preconfirmation_gateway.Sql.{PgPool}
use preconfirmation_gateway.Commitments.{
  CommitmentTable, get_unprocessed_commitments_for_slot, mark_commitments_as_processed,
}
use preconfirmation_gateway.Delegations.{DelegationTable, get_delegations_for_slot}
use preconfirmation_gateway.Relay.{Reply, submit_constraints}

pub record SubmissionConfig : Type 0 where
  pub genesis_time : ℕ
  pub committer_address : Text
  pub bls_public_key : Bytes
  pub bls_private_key : Bytes
  pub authorized_builders : List Text
  pub max_retries : ℕ

abbrev pub Replies : Type 0
Replies = SignedConstraints → ℕ → Reply

-- The two methods of the service that other parts may call.
unfoldable pub is_within_submission_window : SubmissionConfig → ℕ → ℕ → Bool
is_within_submission_window config now slot =
    is_within_constraint_window now config.genesis_time slot

-- Seconds from the Unix epoch.
unfoldable pub get_submission_deadline : SubmissionConfig → ℕ → ℕ
get_submission_deadline config slot = constraint_deadline_for_slot config.genesis_time slot

-- The committer is compared as it is written, and only inclusion commitments are converted.
abbrev pub is_converted : Text → SignedCommitment → Bool
is_converted committer sc =
    bytes_eq sc.commitment.slasher committer && sc.commitment.commitment_type == 1

-- The loop over the commitments: the constraints, and the request hashes of the commitments they
-- stand for.
unfoldable pub to_constraints : Text → List SignedCommitment → List Constraint × List Text
to_constraints committer [] = ([], [])
to_constraints committer (sc ∷ commitments) =
    let rest = to_constraints committer commitments in
    if is_converted committer sc
    then (
      from_inclusion_commitment sc.commitment.payload ∷ rest.0,
      sc.commitment.request_hash ∷ rest.1,
    )
    else rest

unfoldable pub create_constraints_from_commitments :
    PgPool → ℕ → Text → CommitmentTable → Result Error (List Constraint × List Text)
unfolding to_constraints
create_constraints_from_commitments pool slot committer_address table = do
  commitments ← get_unprocessed_commitments_for_slot pool slot table
  ok (to_constraints committer_address commitments)

-- `map(|_| ())`
abbrev pub to_unit : Result Error ℕ → Result Error (Unit {0})
to_unit (ok n) = ok tt
to_unit (err e) = err e

module _ ⦃x : Crates⦄ (manager : BlsManager) (config : SubmissionConfig) (replies : Replies) where
  unfoldable pub sign_message : ConstraintsMessage → SignedConstraints
  sign_message message = record {
    message = message;
    signature = sign_constraints_message manager message config.bls_private_key;
  }

  unfoldable pub message_for :
      SignedDelegation → ℕ → List Constraint → List Bytes → ConstraintsMessage
  message_for delegation slot constraints receivers = record {
    proposer = delegation.message.proposer;
    delegate = delegation.message.delegate;
    slot = slot;
    constraints = constraints;
    receivers = receivers;
  }

  -- Signed, and submitted with the retries of the client.
  unfoldable pub submit_for : SignedDelegation → ℕ → List Constraint → Result Error ℕ
  unfolding sign_message message_for
  submit_for delegation slot constraints = do
    receivers ← parse_authorized_builders config.authorized_builders
    let signed = sign_message (message_for delegation slot constraints receivers)
    (submit_constraints (replies signed) config.max_retries).0

  -- The commitments are marked only after the relay has accepted the constraints.
  unfoldable pub submit_and_mark :
      PgPool
      → SignedDelegation
      → ℕ
      → List Constraint × List Text
      → CommitmentTable
      → Result Error (Unit {0}) × CommitmentTable
  unfolding submit_for
  submit_and_mark pool delegation slot (constraints, processed_hashes) table =
      if is_empty constraints
      then (ok tt, table)
      else elim (submit_for delegation slot constraints) [
        | err e ↦ (err e, table)
        | ok status ↦
            (let marked = mark_commitments_as_processed pool processed_hashes table in
              if is_empty processed_hashes then (ok tt, table) else (to_unit marked.0, marked.1))
      ]

  unfoldable pub process_delegation_constraints :
      PgPool → SignedDelegation → ℕ → CommitmentTable → Result Error (Unit {0}) × CommitmentTable
  unfolding submit_and_mark
  process_delegation_constraints pool delegation slot table =
      elim (create_constraints_from_commitments pool slot delegation.message.committer table) [
        | err e ↦ (err e, table)
        | ok created ↦ submit_and_mark pool delegation slot created table
      ]

  -- The loop over the delegations of a slot: those to other gateways are skipped, and an error is
  -- logged and passed over. `pools` has the statements that fail for each of them.
  unfoldable pub process_each :
      (ℕ → PgPool) → ℕ → List SignedDelegation → ℕ → CommitmentTable → CommitmentTable
  process_each pools n [] slot table = table
  process_each pools n (delegation ∷ delegations) slot table =
      let rest = process_each pools (suc n) delegations slot in
      if bytes_eq delegation.message.delegate config.bls_public_key
      then rest (process_delegation_constraints (pools n) delegation slot table).1
      else rest table

  unfoldable pub process_constraints_for_slot :
      PgPool
      → (ℕ → PgPool)
      → ℕ
      → DelegationTable
      → CommitmentTable
      → Result Error (Unit {0}) × CommitmentTable
  unfolding process_each
  process_constraints_for_slot pool pools slot delegations table =
      elim (get_delegations_for_slot pool slot delegations) [
        | err e ↦ (err e, table)
        | ok found ↦ (ok tt, process_each pools 0 found slot table)
      ]

  -- The loop over the slots; one that is outside its window when its turn comes is skipped, and an error
  -- is passed over.
  unfoldable pub process_slots :
      (ℕ → ℕ)
      → (ℕ → PgPool)
      → (ℕ → ℕ → PgPool)
      → ℕ
      → ℕ
      → DelegationTable
      → CommitmentTable
      → CommitmentTable
  unfolding process_constraints_for_slot
  process_slots clock pool pools zero slot delegations table = table
  process_slots clock pool pools (suc count) slot delegations table =
      let rest = process_slots clock pool pools count (suc slot) delegations in
      if is_within_constraint_window (clock slot) config.genesis_time slot
      then rest (process_constraints_for_slot (pool slot) (pools slot) slot delegations table).1
      else rest table

  -- From the current slot to the third after it.
  unfoldable pub process_pending_constraints :
      ℕ
      → (ℕ → ℕ)
      → (ℕ → PgPool)
      → (ℕ → ℕ → PgPool)
      → DelegationTable
      → CommitmentTable
      → CommitmentTable
  unfolding process_slots
  process_pending_constraints now clock pool pools delegations table =
      let current_slot = current_slot_estimate now config.genesis_time in
      process_slots clock pool pools (suc (wrapping_add current_slot 3) - current_slot) current_slot
        delegations table

  -- The delegation that `submit_constraint` looks for.
  abbrev pub is_ours : Text → SignedDelegation → Bool
  is_ours committer_address d =
      bytes_eq d.message.delegate config.bls_public_key
      && bytes_eq d.message.committer committer_address

  -- What is left until the deadline, in seconds.
  unfoldable pub remaining_time : ℕ → ℕ → Result Error ℕ
  remaining_time now slot =
      let deadline = constraint_deadline_for_slot config.genesis_time slot in
      if leb deadline now then err deadline_elapsed else ok (deadline - now)

  -- `is_late` says whether the submission outlives the time that is left.
  unfoldable pub submit_constraint :
      PgPool → ℕ → (ℕ → Bool) → ℕ → Bytes → Text → DelegationTable → Result Error ℕ
  unfolding sign_message message_for remaining_time
  submit_constraint pool now is_late slot payload committer_address table = do
    guard (bytes_eq committer_address config.committer_address) committer_mismatch
    delegations ← get_delegations_for_slot pool slot table
    delegation ← ok_or (find (is_ours committer_address) delegations) no_delegation
    receivers ← parse_authorized_builders config.authorized_builders
    let constraints = from_inclusion_commitment payload ∷ []
    let signed = sign_message (message_for delegation slot constraints receivers)
    remaining ← remaining_time now slot
    guard (not (is_late remaining)) timed_out
    (submit_constraints (replies signed) config.max_retries).0
