-- ===== src/Submission/Kept.antt =====
-- What a round over the slots leaves settled, of src/services/constraint_submission.rs.
use preconfirmation_gateway.Common.{
  ℕ, zero, suc, ◌≡◌, ◌≤◌, refl, sym, subst, true, false, Bool-cases, Result-cases, inl, inr, List,
  [], ◌∷◌, i64_max,
}
use preconfirmation_gateway.Types.{Text, SignedDelegation}
use preconfirmation_gateway.Crates.{Crates}
use preconfirmation_gateway.Bls.{BlsManager}
use preconfirmation_gateway.Timing.{is_within_constraint_window}
use preconfirmation_gateway.Sql.{PgPool, unprocessed_commitments}
use preconfirmation_gateway.Commitments.{CommitmentTable}
use preconfirmation_gateway.Delegations.{DelegationTable, get_delegations_for_slot}
use preconfirmation_gateway.Submission.{
  SubmissionConfig, Replies, process_constraints_for_slot, process_slots,
}
use preconfirmation_gateway.Submission.Settled.{IsSettled}
use preconfirmation_gateway.Submission.Settling.{AllSettled, process_each-keeps}

module _ ⦃x : Crates⦄ (manager : BlsManager) (config : SubmissionConfig) (replies : Replies) where
  process_slot-keeps :
      (pool : PgPool) (pools : ℕ → PgPool) (later : PgPool) (sent_slot slot : ℕ) (committer : Text)
      (delegations : DelegationTable) (t : CommitmentTable)
      → slot ≤ i64_max
      → later unprocessed_commitments ≡ false
      → IsSettled later slot committer t
      → IsSettled later slot committer
          (process_constraints_for_slot manager config replies pool pools sent_slot delegations t).1
  unfolding process_constraints_for_slot
  process_slot-keeps pool pools later sent_slot slot committer delegations t fits up h =
      elim (Result-cases (get_delegations_for_slot pool sent_slot delegations)) [
        | inl (found, p) ↦
            rw (process_constraints_for_slot, p)
              (process_each-keeps manager config replies pools 0 found later sent_slot slot
                committer t fits up h)
        | inr (e, p) ↦ rw (process_constraints_for_slot, p) h
      ]

  pub process_slots-cons :
      (clock : ℕ → ℕ) (pool : ℕ → PgPool) (pools : ℕ → ℕ → PgPool) (count slot : ℕ)
      (delegations : DelegationTable) (t : CommitmentTable)
      → (is_within_constraint_window (clock slot) config.genesis_time slot ≡ true
          → process_slots manager config replies clock pool pools (suc count) slot delegations t
            ≡ process_slots manager config replies clock pool pools count
                (suc slot)
                delegations
                (process_constraints_for_slot manager config replies
                  (pool slot)
                  (pools slot)
                  slot
                  delegations
                  t).1)
        × (is_within_constraint_window (clock slot) config.genesis_time slot ≡ false
            → process_slots manager config replies clock pool pools (suc count) slot delegations t
              ≡ process_slots manager config replies clock pool pools count
                  (suc slot)
                  delegations
                  t)
  unfolding process_slots
  process_slots-cons clock pool pools count slot delegations t =
      ((λ h. rw (process_slots, h) refl), (λ h. rw (process_slots, h) refl))

  process_slots-keeps :
      (clock : ℕ → ℕ) (pool : ℕ → PgPool) (pools : ℕ → ℕ → PgPool) (count from : ℕ) (later : PgPool)
      (slot : ℕ) (committer : Text) (delegations : DelegationTable) (t : CommitmentTable)
      → slot ≤ i64_max
      → later unprocessed_commitments ≡ false
      → IsSettled later slot committer t
      → IsSettled later slot committer
          (process_slots manager config replies clock pool pools count from delegations t)
  unfolding process_slots
  process_slots-keeps clock pool pools zero from later slot committer delegations t fits up h = h
  process_slots-keeps clock pool pools (suc count) from later slot committer delegations t fits up
        h =
      let step = process_slots-cons clock pool pools count from delegations t in
      let after =
        (process_constraints_for_slot manager config replies (pool from) (pools from) from
          delegations t).1 in
      elim (Bool-cases (is_within_constraint_window (clock from) config.genesis_time from)) [
        | inl inside ↦ subst (IsSettled later slot committer) (sym (step.0 inside)) (
            process_slots-keeps clock pool pools count (suc from) later slot committer delegations
              after fits up
              (process_slot-keeps (pool from) (pools from) later from slot committer delegations t
                fits up h))
        | inr outside ↦ subst (IsSettled later slot committer) (sym (step.1 outside)) (
            process_slots-keeps clock pool pools count (suc from) later slot committer delegations t
              fits up h)
      ]

  pub AllSettled-slots :
      (clock : ℕ → ℕ) (pool : ℕ → PgPool) (pools : ℕ → ℕ → PgPool) (count from : ℕ) (later : PgPool)
      (slot : ℕ) (ds : List SignedDelegation) (delegations : DelegationTable) (t : CommitmentTable)
      → slot ≤ i64_max
      → later unprocessed_commitments ≡ false
      → AllSettled manager config replies later slot ds t
      → AllSettled manager config replies later slot ds
          (process_slots manager config replies clock pool pools count from delegations t)
  AllSettled-slots clock pool pools count from later slot [] delegations t fits up h = tt
  AllSettled-slots clock pool pools count from later slot (d ∷ ds) delegations t fits up h = (
    (λ ours.
        process_slots-keeps clock pool pools count from later slot d.message.committer delegations t
          fits up (h.0 ours)),
    AllSettled-slots clock pool pools count from later slot ds delegations t fits up h.1,
  )
