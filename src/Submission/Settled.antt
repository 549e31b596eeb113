-- ===== src/Submission/Settled.antt =====
-- Theorems on commitments of which nothing is left to be sent, of src/services/constraint_submission.rs.
use preconfirmation_gateway.Common.{
  ℕ, ◌≡◌, ◌≤◌, true, All, bytes_eq, ◌∷◌, sym, ap, subst, arith, false, Bool-cases, inl, inr, List,
  [], select, is_empty, map, ok, >>=-eq-ok, ok-injective, i64_max,
}
use preconfirmation_gateway.Types.{Text, Constraint}
use preconfirmation_gateway.Error.{Error}
use preconfirmation_gateway.Sql.{PgPool, mark_processed, unprocessed_commitments}
use preconfirmation_gateway.Commitments.{
  CommitmentRow, CommitmentTable, to_signed, slot_is, is_pending,
  get_unprocessed_commitments_for_slot, mark_commitments_as_processed,
}
use preconfirmation_gateway.Commitments.Processing.{unprocessed-mark, is_unmarked}
use preconfirmation_gateway.Submission.{to_constraints, create_constraints_from_commitments}
use preconfirmation_gateway.Submission.Processing.{
  to_constraints-empty, to_constraints-select_none, get_unprocessed-again,
}

-- Nothing of the slot that the committer owes is left to be sent, for a database that answers.
abbrev pub IsSettled : PgPool → ℕ → Text → CommitmentTable → Type 0
IsSettled later slot committer table =
    create_constraints_from_commitments later slot committer table ≡ ok ([], [])

mark-failed :
    (pool : PgPool) (hashes : List Text) (t : CommitmentTable)
    → pool mark_processed ≡ true
    → (mark_commitments_as_processed pool hashes t).1 ≡ t
unfolding mark_commitments_as_processed
mark-failed pool hashes t down = ground (arith, down)

pub IsSettled-mark :
    (pool later : PgPool) (slot : ℕ) (committer : Text) (hashes : List Text) (t : CommitmentTable)
    → slot ≤ i64_max
    → later unprocessed_commitments ≡ false
    → IsSettled later slot committer t
    → IsSettled later slot committer (mark_commitments_as_processed pool hashes t).1
unfolding create_constraints_from_commitments
IsSettled-mark pool later slot committer hashes t fits up h =
    let (waiting, p, q) = >>=-eq-ok (get_unprocessed_commitments_for_slot later slot t) _ h in
    elim (Bool-cases (pool mark_processed)) [
      | inl down ↦ subst (IsSettled later slot committer) (sym (mark-failed pool hashes t down)) h
      | inr works ↦ rw (unprocessed-mark pool later hashes slot t works up fits waiting p) (
          ap ok
            (to_constraints-select_none committer (is_unmarked hashes) waiting (ok-injective q)))
    ]

pub IsSettled-empty :
    (pool later : PgPool) (slot : ℕ) (committer : Text) (t : CommitmentTable) (cs : List Constraint)
    (hashes : List Text)
    → later unprocessed_commitments ≡ false
    → create_constraints_from_commitments pool slot committer t ≡ ok (cs, hashes)
    → is_empty cs ≡ true
    → IsSettled later slot committer t
unfolding create_constraints_from_commitments
IsSettled-empty pool later slot committer t cs hashes up h none_left =
    let (waiting, p, q) = >>=-eq-ok (get_unprocessed_commitments_for_slot pool slot t) _ h in
    let empty = subst (λ c. is_empty c ≡ true) (sym (ap (λ r. r.0) (ok-injective q))) none_left in
    rw (get_unprocessed-again pool later slot t waiting up p)
      (ap ok (to_constraints-empty committer waiting empty))

pub create_constraints-ok :
    (pool : PgPool) (slot : ℕ) (committer : Text) (t : CommitmentTable)
    → slot ≤ i64_max
    → pool unprocessed_commitments ≡ false
    → (cs : List Constraint) × (hashes : List Text) × (create_constraints_from_commitments pool slot
          committer t
        ≡ ok (cs, hashes))
unfolding create_constraints_from_commitments get_unprocessed_commitments_for_slot
create_constraints-ok pool slot committer t fits up =
    let r = to_constraints committer (map to_signed (select (is_pending slot) t)) in
    (r.0, r.1, ground (arith, fits, up))

-- Every commitment of type 1 for the slot whose slasher is written as the committer is marked.
abbrev pub AllProcessed : ℕ → Text → CommitmentTable → Type 0
AllProcessed slot committer table =
    All
      (λ row.
        slot_is slot row.slot_number ≡ true
        → row.commitment_type ≡ 1
        → bytes_eq row.slasher committer ≡ true
        → row.constraint_processed ≡ true)
      table

rest-none :
    (slot : ℕ) (committer : Text) (row : CommitmentRow) (t : CommitmentTable)
    → to_constraints committer (map to_signed (select (is_pending slot) (row ∷ t))) ≡ ([], [])
    → to_constraints committer (map to_signed (select (is_pending slot) t)) ≡ ([], [])
unfolding to_constraints select to_signed
rest-none slot committer row t h = ground (arith, h)

first-processed :
    (slot : ℕ) (committer : Text) (row : CommitmentRow) (t : CommitmentTable)
    → to_constraints committer (map to_signed (select (is_pending slot) (row ∷ t))) ≡ ([], [])
    → slot_is slot row.slot_number ≡ true
    → row.commitment_type ≡ 1
    → bytes_eq row.slasher committer ≡ true
    → row.constraint_processed ≡ true
unfolding to_constraints select to_signed
first-processed slot committer row t h a b c = ground (arith, h)

none-AllProcessed :
    (slot : ℕ) (committer : Text) (t : CommitmentTable)
    → to_constraints committer (map to_signed (select (is_pending slot) t)) ≡ ([], [])
    → AllProcessed slot committer t
none-AllProcessed slot committer [] h = tt
none-AllProcessed slot committer (row ∷ t) h = (
  first-processed slot committer row t h,
  none-AllProcessed slot committer t (rest-none slot committer row t h),
)

pub IsSettled-AllProcessed :
    (later : PgPool) (slot : ℕ) (committer : Text) (t : CommitmentTable)
    → slot ≤ i64_max
    → later unprocessed_commitments ≡ false
    → IsSettled later slot committer t
    → AllProcessed slot committer t
unfolding create_constraints_from_commitments get_unprocessed_commitments_for_slot
IsSettled-AllProcessed later slot committer t fits up h =
    none-AllProcessed slot committer t (ok-injective {E = Error} (ground (arith, h, fits, up)))
