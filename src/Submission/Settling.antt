-- ===== src/Submission/Settling.antt =====
-- Theorems on a round for a slot, of src/services/constraint_submission.rs.
use preconfirmation_gateway.Common.{
  ℕ, suc, ◌≡◌, ◌≤◌, ◌<◌, refl, sym, subst, true, false, Bool-cases, inl, inr, List, [], ◌∷◌, max,
  is_empty, bytes_eq, All, ok, i64_max,
}
use preconfirmation_gateway.Types.{Bytes, Text, SignedDelegation, Constraint, SignedConstraints}
use preconfirmation_gateway.Crates.{Crates}
use preconfirmation_gateway.Bls.{BlsManager, parse_authorized_builders}
use preconfirmation_gateway.Sql.{PgPool, mark_processed, unprocessed_commitments}
use preconfirmation_gateway.Commitments.{CommitmentTable}
use preconfirmation_gateway.Relay.{Reply, answered, judge, is_accepted}
use preconfirmation_gateway.Relay.Retries.{is_retried, reaches}
use preconfirmation_gateway.Submission.{
  SubmissionConfig, Replies, sign_message, message_for, submit_for, submit_and_mark,
  process_delegation_constraints, process_each,
}
use preconfirmation_gateway.Submission.Processing.{create_constraints-mark}
use preconfirmation_gateway.Submission.Outcomes.{mark-nil, process_delegation-IsSent}
use preconfirmation_gateway.Submission.Settled.{
  IsSettled, IsSettled-mark, IsSettled-empty, create_constraints-ok,
}

-- The database answers a round for a delegation.
abbrev pub IsUp : PgPool → Type 0
IsUp pool = (pool unprocessed_commitments ≡ false) × (pool mark_processed ≡ false)

-- An attempt within the limit is accepted, and those before it are of the kinds that are retried.
pub record IsReached (replies : ℕ → Reply) (max_retries : ℕ) : Type 0 where
  pub failures : ℕ
  pub status : ℕ
  pub in_limit : failures < max 1 max_retries
  pub retried : (k : ℕ) → k < failures → is_retried (judge (suc k) (replies (suc k))) ≡ true
  pub reply : replies (suc failures) ≡ answered status
  pub is_good : is_accepted status ≡ true

module _ ⦃x : Crates⦄ (manager : BlsManager) (config : SubmissionConfig) (replies : Replies) where
  submit_for-ok :
      (d : SignedDelegation) (slot : ℕ) (cs : List Constraint) (receivers : List Bytes)
      → parse_authorized_builders config.authorized_builders ≡ ok receivers
      → ((m : SignedConstraints) → IsReached (replies m) config.max_retries)
      → (status : ℕ) × (submit_for manager config replies d slot cs ≡ ok status)
  unfolding submit_for
  submit_for-ok d slot cs receivers parsed reached =
      let r = reached (
        sign_message manager config replies
          (message_for manager config replies d slot cs receivers)) in
      (
        r.status,
        rw parsed (
            reaches (replies _) config.max_retries r.failures r.status r.in_limit r.retried r.reply
              r.is_good),
      )

  process_delegation-settles :
      (pool later : PgPool) (d : SignedDelegation) (slot : ℕ) (receivers : List Bytes)
      (t : CommitmentTable)
      → slot ≤ i64_max
      → IsUp pool
      → later unprocessed_commitments ≡ false
      → parse_authorized_builders config.authorized_builders ≡ ok receivers
      → ((m : SignedConstraints) → IsReached (replies m) config.max_retries)
      → IsSettled later slot d.message.committer
          (process_delegation_constraints manager config replies pool d slot t).1
  unfolding process_delegation_constraints submit_and_mark
  process_delegation-settles pool later d slot receivers t fits up up' parsed reached =
      let (cs, hashes, p) = create_constraints-ok pool slot d.message.committer t fits up.0 in
      elim (Bool-cases (is_empty cs)) [
        | inl none_left ↦
            rw (process_delegation_constraints, p, submit_and_mark, none_left)
              (IsSettled-empty pool later slot d.message.committer t cs hashes up' p none_left)
        | inr some_left ↦
            (let (status, q) = submit_for-ok d slot cs receivers parsed reached in
              let sent =
                create_constraints-mark pool pool later slot d.message.committer t cs hashes fits
                  up.1 up' p in
              rw (process_delegation_constraints, p, submit_and_mark, some_left, q)
                (elim (Bool-cases (is_empty hashes)) [
                  | inl nothing ↦ rw nothing (
                      subst (IsSettled later slot d.message.committer)
                        (mark-nil manager config replies pool hashes t nothing) sent)
                  | inr something ↦ rw something sent
                ]))
      ]

  process_delegation-keeps :
      (pool later : PgPool) (d : SignedDelegation) (sent_slot slot : ℕ) (committer : Text)
      (t : CommitmentTable)
      → slot ≤ i64_max
      → later unprocessed_commitments ≡ false
      → IsSettled later slot committer t
      → IsSettled later slot committer
          (process_delegation_constraints manager config replies pool d sent_slot t).1
  process_delegation-keeps pool later d sent_slot slot committer t fits up h =
      elim (process_delegation-IsSent manager config replies pool d sent_slot t) [
        | inl same ↦ subst (IsSettled later slot committer) (sym same) h
        | inr sent ↦
            subst (IsSettled later slot committer) (sym sent.marked)
              (IsSettled-mark pool later slot committer sent.hashes t fits up h)
      ]

  process_each-cons :
      (pools : ℕ → PgPool) (n : ℕ) (d : SignedDelegation) (ds : List SignedDelegation) (slot : ℕ)
      (t : CommitmentTable)
      → (bytes_eq d.message.delegate config.bls_public_key ≡ true
          → process_each manager config replies pools n (d ∷ ds) slot t
            ≡ process_each manager config replies pools
                (suc n)
                ds
                slot
                (process_delegation_constraints manager config replies (pools n) d slot t).1)
        × (bytes_eq d.message.delegate config.bls_public_key ≡ false
            → process_each manager config replies pools n (d ∷ ds) slot t
              ≡ process_each manager config replies pools (suc n) ds slot t)
  unfolding process_each
  process_each-cons pools n d ds slot t =
      ((λ h. rw (process_each, h) refl), (λ h. rw (process_each, h) refl))

  -- What is settled for a slot stays so, whatever is sent for it or another.
  pub process_each-keeps :
      (pools : ℕ → PgPool) (n : ℕ) (ds : List SignedDelegation) (later : PgPool)
      (sent_slot slot : ℕ) (committer : Text) (t : CommitmentTable)
      → slot ≤ i64_max
      → later unprocessed_commitments ≡ false
      → IsSettled later slot committer t
      → IsSettled later slot committer (process_each manager config replies pools n ds sent_slot t)
  unfolding process_each
  process_each-keeps pools n [] later sent_slot slot committer t fits up h = h
  process_each-keeps pools n (d ∷ ds) later sent_slot slot committer t fits up h =
      let step = process_each-cons pools n d ds sent_slot t in
      let after =
        (process_delegation_constraints manager config replies (pools n) d sent_slot t).1 in
      elim (Bool-cases (bytes_eq d.message.delegate config.bls_public_key)) [
        | inl ours ↦ subst (IsSettled later slot committer) (sym (step.0 ours)) (
            process_each-keeps pools (suc n) ds later sent_slot slot committer after fits up
              (process_delegation-keeps (pools n) later d sent_slot slot committer t fits up h))
        | inr other ↦
            subst (IsSettled later slot committer) (sym (step.1 other))
              (process_each-keeps pools (suc n) ds later sent_slot slot committer t fits up h)
      ]

  -- The delegations to the gateway's key are settled.
  abbrev pub AllSettled : PgPool → ℕ → List SignedDelegation → CommitmentTable → Type 0
  AllSettled later slot ds u =
      All
        (λ d.
          bytes_eq d.message.delegate config.bls_public_key ≡ true
          → IsSettled later slot d.message.committer u)
        ds

  pub process_each-settles :
      (pools : ℕ → PgPool) (n : ℕ) (ds : List SignedDelegation) (later : PgPool) (slot : ℕ)
      (receivers : List Bytes) (t : CommitmentTable)
      → slot ≤ i64_max
      → ((k : ℕ) → IsUp (pools k))
      → later unprocessed_commitments ≡ false
      → parse_authorized_builders config.authorized_builders ≡ ok receivers
      → ((m : SignedConstraints) → IsReached (replies m) config.max_retries)
      → AllSettled later slot ds (process_each manager config replies pools n ds slot t)
  process_each-settles pools n [] later slot receivers t fits up up' parsed reached = tt
  process_each-settles pools n (d ∷ ds) later slot receivers t fits up up' parsed reached =
      let rest = λ (u : CommitmentTable).
        process_each-settles pools (suc n) ds later slot receivers u fits up up' parsed reached in
      let step = process_each-cons pools n d ds slot t in
      let after = (process_delegation_constraints manager config replies (pools n) d slot t).1 in
      elim (Bool-cases (bytes_eq d.message.delegate config.bls_public_key)) [
        | inl ours ↦ subst (AllSettled later slot (d ∷ ds)) (sym (step.0 ours)) (
          (λ h.
              process_each-keeps pools (suc n) ds later slot slot d.message.committer after fits up'
                (process_delegation-settles (pools n) later d slot receivers t fits (up n) up'
                  parsed reached)),
          rest after,
        )
        | inr other ↦
            subst (AllSettled later slot (d ∷ ds)) (sym (step.1 other)) ((λ h. absurd cc), rest t)
      ]
