-- ===== src/Tests/Submission.antt =====
-- A round of the submission, and a relay that answers at the third attempt.
use preconfirmation_gateway.Common.{
  ℕ, zero, suc, ◌<◌, ◌≡◌, ◌⊎◌, inr, refl, arith, true, false, some, [], ◌∷◌, select, bytes_eq, ok,
  All,
}
use preconfirmation_gateway.Types.{from_inclusion_commitment, SignedConstraints}
use preconfirmation_gateway.Crates.Sample.{sample, repeat}
use preconfirmation_gateway.Bls.{BlsManager, parse_authorized_builders}
use preconfirmation_gateway.Commitments.{
  CommitmentTable, CommitmentRow, to_signed, get_unprocessed_commitments_for_slot,
}
use preconfirmation_gateway.Relay.{Reply, answered, failed, judge, submit_constraints}
use preconfirmation_gateway.Relay.Retries.{is_retried, is_transient, submit_constraints-reaches}
use preconfirmation_gateway.Submission.{
  SubmissionConfig, Replies, create_constraints_from_commitments, process_delegation_constraints,
  process_pending_constraints,
}
use preconfirmation_gateway.Submission.Processing.{create_constraints-owed}
use preconfirmation_gateway.Submission.Settled.{AllProcessed}
use preconfirmation_gateway.Submission.Settling.{IsUp, IsReached}
use preconfirmation_gateway.Submission.Rounds.{process_pending-settles}
use preconfirmation_gateway.Timing.{
  is_within_constraint_window, constraint_deadline_for_slot, current_slot_estimate,
}
use preconfirmation_gateway.Delegations.{get_delegations_for_slot}
use preconfirmation_gateway.Submission.Outcomes.{IsSent, process_delegation-IsSent}
use preconfirmation_gateway.Tests.Data.{stored, slasher, all_up, answer, delegation}

-- No connection, a rate limit, and then success.
abbrev slow_relay : ℕ → Reply
slow_relay zero = failed
slow_relay (suc zero) = failed
slow_relay (suc (suc zero)) = answered 429
slow_relay (suc (suc (suc n))) = answered 202

two_retried : (k : ℕ) → k < 2 → is_retried (judge (suc k) (slow_relay (suc k))) ≡ true
unfolding judge
two_retried zero h = refl
two_retried (suc zero) h = refl
two_retried (suc (suc k)) h = absurd (omega arith)

transient : (k : ℕ) → k < 2 → is_transient (slow_relay (suc k)) ≡ true
transient zero h = refl
transient (suc zero) h = refl
transient (suc (suc k)) h = absurd (omega arith)

submit_constraints-reaches_example : (submit_constraints slow_relay 5).0 ≡ ok 202
submit_constraints-reaches_example =
    submit_constraints-reaches slow_relay 5 2 202 (omega arith) transient refl (inr refl)

abbrev pub row : CommitmentRow
row = record {
  id = 1;
  request_hash = answer.commitment.request_hash;
  commitment_type = 1;
  payload = answer.commitment.payload;
  slasher = slasher;
  signature = answer.signature;
  slot_number = some 5;
  constraint_processed = false;
}

pub created :
    create_constraints_from_commitments all_up 5 slasher (row ∷ [])
    ≡ ok (
      from_inclusion_commitment answer.commitment.payload ∷ [],
      answer.commitment.request_hash ∷ [],
    )
unfolding create_constraints_from_commitments get_unprocessed_commitments_for_slot select to_signed
    bytes_eq
created = refl

-- A row of another slasher, one that waits, and one that is processed.
abbrev mixed : CommitmentTable
mixed = record row { slasher = repeat 42 7 } ∷ row ∷ record row { constraint_processed = true } ∷ []

create_constraints-owed_example :
    create_constraints_from_commitments all_up 5 slasher mixed
    ≡ ok (
      from_inclusion_commitment answer.commitment.payload ∷ [],
      answer.commitment.request_hash ∷ [],
    )
unfolding select bytes_eq from_inclusion_commitment
create_constraints-owed_example = create_constraints-owed all_up 5 slasher mixed refl (omega arith)

abbrev pub manager : BlsManager
manager = record { application_gateway_domain = repeat 4 1 }

abbrev pub config : SubmissionConfig
config = record {
  genesis_time = 1000;
  committer_address = slasher;
  bls_public_key = repeat 48 2;
  bls_private_key = repeat 32 3;
  authorized_builders = [];
  max_retries = 5;
}

abbrev pub replies : Replies
replies message = slow_relay

process_delegation-IsSent_example :
    ((process_delegation_constraints manager config replies all_up delegation 5 (row ∷ [])).1
      ≡ row ∷ [])
    ⊎ IsSent manager config replies all_up delegation 5
        (row ∷ [])
        (process_delegation_constraints manager config replies all_up delegation 5 (row ∷ [])).1
process_delegation-IsSent_example =
    process_delegation-IsSent manager config replies all_up delegation 5 (row ∷ [])

abbrev slow_reached : (m : SignedConstraints) → IsReached (replies m) config.max_retries
slow_reached m = record {
  failures = 2;
  status = 202;
  in_limit = omega arith;
  retried = two_retried;
  reply = refl;
  is_good = refl;
}

abbrev no_failures : (k : ℕ) → IsUp all_up
no_failures k = (refl, refl)

in_window : is_within_constraint_window 1062 config.genesis_time 5 ≡ true
unfolding is_within_constraint_window constraint_deadline_for_slot
in_window = refl

first_slot : current_slot_estimate 1062 config.genesis_time ≡ 5
unfolding current_slot_estimate
first_slot = refl

delegations_found : get_delegations_for_slot all_up 5 (stored ∷ []) ≡ ok (delegation ∷ [])
unfolding get_delegations_for_slot select
delegations_found = refl

no_builders : parse_authorized_builders config.authorized_builders ≡ ok []
unfolding parse_authorized_builders
no_builders = refl

process_pending-settles_example :
    All
      (λ d.
        bytes_eq d.message.delegate config.bls_public_key ≡ true
        → AllProcessed 5 d.message.committer (
            process_pending_constraints manager config replies 1062
              (λ n. 1062)
              (λ n. all_up)
              (λ n k. all_up)
              (stored ∷ [])
              (row ∷ [])))
      (delegation ∷ [])
process_pending-settles_example =
    process_pending-settles manager config replies 1062 (λ n. 1062) (λ n. all_up) (λ n k. all_up) 5
      (stored ∷ []) (row ∷ []) (delegation ∷ []) [] (omega (arith, first_slot))
      (omega (arith, first_slot)) (omega arith) in_window delegations_found no_failures no_builders
      slow_reached
