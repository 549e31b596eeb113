-- ===== src/Submission/Rounds.antt =====
-- Theorems on a round over the slots, of src/services/constraint_submission.rs.
use preconfirmation_gateway.Common.{
  ℕ, zero, suc, ◌+◌, ◌-◌, ◌==◌, ==_iff, ◌≡◌, ◌≤◌, ◌<◌, refl, sym, subst, arith, true, false,
  Bool-cases, inl, inr, List, [], ◌∷◌, bytes_eq, All, ok, i64_max, wrapping_add,
}
use preconfirmation_gateway.Types.{Bytes, SignedDelegation, SignedConstraints}
use preconfirmation_gateway.Crates.{Crates}
use preconfirmation_gateway.Bls.{BlsManager, parse_authorized_builders}
use preconfirmation_gateway.Timing.{current_slot_estimate, is_within_constraint_window}
use preconfirmation_gateway.Sql.{PgPool, unprocessed_commitments}
use preconfirmation_gateway.Commitments.{CommitmentTable}
use preconfirmation_gateway.Delegations.{DelegationTable, get_delegations_for_slot}
use preconfirmation_gateway.Submission.{
  SubmissionConfig, Replies, process_each, process_constraints_for_slot, process_slots,
  process_pending_constraints,
}
use preconfirmation_gateway.Submission.Settled.{AllProcessed, IsSettled-AllProcessed}
use preconfirmation_gateway.Submission.Settling.{IsUp, IsReached, AllSettled, process_each-settles}
use preconfirmation_gateway.Submission.Kept.{process_slots-cons, AllSettled-slots}

module _ ⦃x : Crates⦄ (manager : BlsManager) (config : SubmissionConfig) (replies : Replies) where
  process_slot-settles :
      (pool later : PgPool) (pools : ℕ → PgPool) (slot : ℕ) (delegations : DelegationTable)
      (t : CommitmentTable) (found : List SignedDelegation) (receivers : List Bytes)
      → slot ≤ i64_max
      → get_delegations_for_slot pool slot delegations ≡ ok found
      → ((k : ℕ) → IsUp (pools k))
      → later unprocessed_commitments ≡ false
      → parse_authorized_builders config.authorized_builders ≡ ok receivers
      → ((m : SignedConstraints) → IsReached (replies m) config.max_retries)
      → AllSettled manager config replies later slot found
          (process_constraints_for_slot manager config replies pool pools slot delegations t).1
  unfolding process_constraints_for_slot
  process_slot-settles pool later pools slot delegations t found receivers fits p up up' parsed
        reached =
      let after : (process_constraints_for_slot manager config replies pool pools slot delegations
            t).1
          ≡ process_each manager config replies pools 0 found slot t =
        rw (process_constraints_for_slot, p) refl in
      subst (AllSettled manager config replies later slot found) (sym after) (
        process_each-settles manager config replies pools 0 found later slot receivers t fits up up'
          parsed reached)

  process_slots-settles :
      (clock : ℕ → ℕ) (pool : ℕ → PgPool) (pools : ℕ → ℕ → PgPool) (count from : ℕ) (later : PgPool)
      (slot : ℕ) (delegations : DelegationTable) (t : CommitmentTable)
      (found : List SignedDelegation) (receivers : List Bytes)
      → from ≤ slot
      → slot < from + count
      → slot ≤ i64_max
      → is_within_constraint_window (clock slot) config.genesis_time slot ≡ true
      → get_delegations_for_slot (pool slot) slot delegations ≡ ok found
      → ((k : ℕ) → IsUp (pools slot k))
      → later unprocessed_commitments ≡ false
      → parse_authorized_builders config.authorized_builders ≡ ok receivers
      → ((m : SignedConstraints) → IsReached (replies m) config.max_retries)
      → AllSettled manager config replies later slot found
          (process_slots manager config replies clock pool pools count from delegations t)
  process_slots-settles clock pool pools zero from later slot delegations t found receivers a b fits
        inside p up up' parsed reached =
      absurd (omega arith)
  process_slots-settles clock pool pools (suc count) from later slot delegations t found receivers a
        b fits inside p up up' parsed reached =
      let step =
        process_slots-cons manager config replies clock pool pools count from delegations t in
      let rest = λ (u : CommitmentTable) (l : suc from ≤ slot).
        process_slots-settles clock pool pools count (suc from) later slot delegations u found
          receivers l (omega arith) fits inside p up up' parsed reached in
      let after =
        (process_constraints_for_slot manager config replies (pool from) (pools from) from
          delegations t).1 in
      elim (Bool-cases (from == slot)) [
        | inl here ↦
            (let same : from ≡ slot = (==_iff from slot).0 here in
              let now =
                subst
                  (λ s.
                    AllSettled manager config replies later slot found
                      (process_constraints_for_slot manager config replies (pool s) (pools s) s
                        delegations t).1)
                  (sym same)
                  (process_slot-settles (pool slot) later (pools slot) slot delegations t found
                    receivers fits p up up' parsed reached) in
              subst (AllSettled manager config replies later slot found)
                (sym (
                  step.0 (
                    subst (λ s. is_within_constraint_window (clock s) config.genesis_time s ≡ true)
                      (sym same) inside)))
                (AllSettled-slots manager config replies clock pool pools count (suc from) later
                  slot found delegations after fits up' now))
        | inr there ↦
            (let l : suc from ≤ slot = ground (arith, there, a) in
              elim (Bool-cases
                (is_within_constraint_window (clock from) config.genesis_time from)) [
                  | inl i ↦
                      subst (AllSettled manager config replies later slot found) (sym (step.0 i))
                        (rest after l)
                  | inr o ↦
                      subst (AllSettled manager config replies later slot found) (sym (step.1 o))
                        (rest t l)
                ])
      ]

  processed :
      (later : PgPool) (slot : ℕ) (ds : List SignedDelegation) (t : CommitmentTable)
      → slot ≤ i64_max
      → later unprocessed_commitments ≡ false
      → AllSettled manager config replies later slot ds t
      → All
          (λ d.
            bytes_eq d.message.delegate config.bls_public_key ≡ true
            → AllProcessed slot d.message.committer t)
          ds
  processed later slot [] t fits up h = tt
  processed later slot (d ∷ ds) t fits up h = (
    (λ ours. IsSettled-AllProcessed later slot d.message.committer t fits up (h.0 ours)),
    processed later slot ds t fits up h.1,
  )

  -- A round of the submission settles each slot of the lookahead that is in its window when its turn comes: if
  -- the database answers the statements for that slot, the configured builder keys are well formed, and the
  -- relay accepts each message within the limit of attempts, after failures that are retried, then every
  -- commitment of type 1 for the slot is marked as processed whose slasher is written as the committer of a
  -- stored delegation for the slot to the gateway's key, whatever happens to the other slots.
  pub process_pending-settles :
      (now : ℕ) (clock : ℕ → ℕ) (pool : ℕ → PgPool) (pools : ℕ → ℕ → PgPool) (slot : ℕ)
      (delegations : DelegationTable) (t : CommitmentTable) (found : List SignedDelegation)
      (receivers : List Bytes)
      → current_slot_estimate now config.genesis_time ≤ slot
      → slot ≤ current_slot_estimate now config.genesis_time + 3
      → slot ≤ i64_max
      → is_within_constraint_window (clock slot) config.genesis_time slot ≡ true
      → get_delegations_for_slot (pool slot) slot delegations ≡ ok found
      → ((k : ℕ) → IsUp (pools slot k))
      → parse_authorized_builders config.authorized_builders ≡ ok receivers
      → ((m : SignedConstraints) → IsReached (replies m) config.max_retries)
      → All
          (λ d.
            bytes_eq d.message.delegate config.bls_public_key ≡ true
            → AllProcessed slot d.message.committer (
                process_pending_constraints manager config replies now clock pool pools delegations
                  t))
          found
  unfolding process_pending_constraints
  process_pending-settles now clock pool pools slot delegations t found receivers a b fits inside p
        up parsed reached =
      let current = current_slot_estimate now config.genesis_time in
      let count = suc (wrapping_add current 3) - current in
      processed (λ q. false) slot found
        (process_slots manager config replies clock pool pools count current delegations t) fits
        refl
        (process_slots-settles clock pool pools count current (λ q. false) slot delegations t found
          receivers a (omega arith) fits inside p up refl parsed reached)
