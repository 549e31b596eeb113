-- ===== src/Submission/Outcomes.antt =====
-- Theorems on a round for a delegation, of src/services/constraint_submission.rs.
use preconfirmation_gateway.Common.{
  ℕ, ◌≡◌, ◌⊎◌, refl, sym, true, Bool-cases, Result-cases, inl, inr, List, is_empty, ok, >>=-eq-ok,
}
use preconfirmation_gateway.Types.{Bytes, Text, SignedDelegation, Constraint}
use preconfirmation_gateway.Crates.{Crates}
use preconfirmation_gateway.Bls.{BlsManager, parse_authorized_builders}
use preconfirmation_gateway.Sql.{PgPool}
use preconfirmation_gateway.Commitments.{CommitmentTable, mark_commitments_as_processed}
use preconfirmation_gateway.Relay.{submit_constraints}
use preconfirmation_gateway.Submission.{
  SubmissionConfig, Replies, create_constraints_from_commitments, sign_message, message_for,
  submit_for, submit_and_mark, process_delegation_constraints,
}

module _ ⦃x : Crates⦄ (manager : BlsManager) (config : SubmissionConfig) (replies : Replies) where
  -- The relay has accepted these constraints of the slot, signed for the authorised builders, and the
  -- commitments behind them are marked.
  pub record IsSent (pool : PgPool) (d : SignedDelegation) (slot : ℕ)
      (before after : CommitmentTable) : Type 0 where
    pub constraints : List Constraint
    pub hashes : List Text
    pub created :
        create_constraints_from_commitments pool slot d.message.committer before
        ≡ ok (constraints, hashes)
    pub receivers : List Bytes
    pub builders : parse_authorized_builders config.authorized_builders ≡ ok receivers
    pub status : ℕ
    pub accepted :
        (submit_constraints
          (replies (
            sign_message manager config replies
              (message_for manager config replies d slot constraints receivers)))
          config.max_retries).0
        ≡ ok status
    pub marked : after ≡ (mark_commitments_as_processed pool hashes before).1

  submit_for-ok :
      (d : SignedDelegation) (slot status : ℕ) (cs : List Constraint)
      → submit_for manager config replies d slot cs ≡ ok status
      → (receivers : List Bytes) × (parse_authorized_builders config.authorized_builders
          ≡ ok receivers)
        × ((submit_constraints
              (replies (
                sign_message manager config replies
                  (message_for manager config replies d slot cs receivers)))
              config.max_retries).0
            ≡ ok status)
  unfolding submit_for
  submit_for-ok d slot status cs h =
      let (receivers, p, q) =
        >>=-eq-ok (parse_authorized_builders config.authorized_builders) _ h in
      (receivers, p, q)

  pub mark-nil :
      (pool : PgPool) (hashes : List Text) (t : CommitmentTable)
      → is_empty hashes ≡ true
      → (mark_commitments_as_processed pool hashes t).1 ≡ t
  unfolding mark_commitments_as_processed
  mark-nil pool hashes t h = rw (mark_commitments_as_processed, h) refl

  -- A round for a delegation changes the commitments only by marking, and only those that the relay has
  -- accepted as constraints before, in a message for the slot to the authorised builders. So a
  -- submission that fails leaves all of them to be tried again.
  pub process_delegation-IsSent :
      (pool : PgPool) (d : SignedDelegation) (slot : ℕ) (t : CommitmentTable)
      → ((process_delegation_constraints manager config replies pool d slot t).1 ≡ t)
        ⊎ IsSent pool d slot t
            (process_delegation_constraints manager config replies pool d slot t).1
  unfolding process_delegation_constraints submit_and_mark
  process_delegation-IsSent pool d slot t =
      elim (Result-cases (create_constraints_from_commitments pool slot d.message.committer t)) [
        | inr (e, p) ↦ inl (rw (process_delegation_constraints, p) refl)
        | inl ((cs, hashes), p) ↦ elim (Bool-cases (is_empty cs)) [
          | inl none_left ↦
              inl (rw (process_delegation_constraints, p, submit_and_mark, none_left) refl)
          | inr some_left ↦ elim (Result-cases (submit_for manager config replies d slot cs)) [
            | inr (e, q) ↦
                inl (rw (process_delegation_constraints, p, submit_and_mark, some_left, q) refl)
            | inl (status, q) ↦
                (let (receivers, r, s) = submit_for-ok d slot status cs q in
                  inr (record {
                    constraints = cs;
                    hashes = hashes;
                    created = p;
                    receivers = receivers;
                    builders = r;
                    status = status;
                    accepted = s;
                    marked =
                        rw (process_delegation_constraints, p, submit_and_mark, some_left, q)
                          (elim (Bool-cases (is_empty hashes)) [
                            | inl nothing ↦ rw nothing (sym (mark-nil pool hashes t nothing))
                            | inr something ↦ rw something refl
                          ]);
                  }))
          ]
        ]
      ]
