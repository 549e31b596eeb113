-- ===== src/Submission/Processing.antt =====
-- Theorems on `create_constraints_from_commitments` of src/services/constraint_submission.rs.
use preconfirmation_gateway.Common.{
  ℕ, ◌≡◌, ◌≤◌, ◌==◌, not, ◌&&◌, Option, none, some, refl, ap, sym, subst, arith, true, false,
  Bool-cases, inl, inr, List, [], ◌∷◌, map, any, select, bytes_eq, bytes_eq_refl, All, ok,
  >>=-eq-ok, ok-injective, i64_max, Bool, is_empty,
}
use preconfirmation_gateway.Types.{Text, SignedCommitment, Constraint, from_inclusion_commitment}
use preconfirmation_gateway.Sql.{PgPool, mark_processed, unprocessed_commitments}
use preconfirmation_gateway.Commitments.{
  CommitmentRow, CommitmentTable, to_signed, is_pending, get_unprocessed_commitments_for_slot,
  mark_commitments_as_processed,
}
use preconfirmation_gateway.Commitments.Processing.{unprocessed-mark, is_unmarked}
use preconfirmation_gateway.Submission.{
  is_converted, to_constraints, create_constraints_from_commitments,
}

-- A row of the table that a conversion for a slot and a committer is to find.
abbrev pub for_slot : ℕ → Option ℕ → Bool
for_slot slot none = false
for_slot slot (some n) = n == slot

abbrev pub is_owed : ℕ → Text → CommitmentRow → Bool
is_owed slot committer row =
    for_slot slot row.slot_number
    && not row.constraint_processed
    && bytes_eq row.slasher committer
    && row.commitment_type == 1

abbrev pub owed : ℕ → Text → CommitmentTable → List Constraint × List Text
owed slot committer t = (
  map (λ row. record { constraint_type = 1; payload = row.payload })
      (select (is_owed slot committer) t),
  map (λ row. row.request_hash) (select (is_owed slot committer) t),
)

to_constraints-owed :
    (slot : ℕ) (committer : Text) (t : CommitmentTable)
    → to_constraints committer (map to_signed (select (is_pending slot) t)) ≡ owed slot committer t
unfolding to_constraints select to_signed from_inclusion_commitment
to_constraints-owed slot committer [] = refl
to_constraints-owed slot committer (row ∷ t) = ground (arith, to_constraints-owed slot committer t)

-- With the database up, a conversion finds the rows of the slot that are not processed, are of type 1, and
-- whose slasher is written exactly as the committer of the delegation; it makes of each, in their order, one
-- constraint of type 1 with its payload, beside its request hash. No other row is converted.
pub create_constraints-owed :
    (pool : PgPool) (slot : ℕ) (committer : Text) (t : CommitmentTable)
    → pool unprocessed_commitments ≡ false
    → slot ≤ i64_max
    → create_constraints_from_commitments pool slot committer t ≡ ok (owed slot committer t)
unfolding create_constraints_from_commitments get_unprocessed_commitments_for_slot
create_constraints-owed pool slot committer t up fits =
    ground (arith, up, fits, to_constraints-owed slot committer t)

pub to_constraints-empty :
    (committer : Text) (cs : List SignedCommitment)
    → is_empty (to_constraints committer cs).0 ≡ true
    → to_constraints committer cs ≡ ([], [])
unfolding to_constraints
to_constraints-empty committer [] h = refl
to_constraints-empty committer (sc ∷ cs) h = ground (arith, to_constraints-empty committer cs)

pub to_constraints-select_none :
    (committer : Text) (p : SignedCommitment → Bool) (cs : List SignedCommitment)
    → to_constraints committer cs ≡ ([], [])
    → to_constraints committer (select p cs) ≡ ([], [])
unfolding to_constraints select
to_constraints-select_none committer p [] h = refl
to_constraints-select_none committer p (sc ∷ cs) h =
    ground (arith, h, to_constraints-select_none committer p cs)

-- Every commitment that would be converted has its hash in the list.
abbrev Covers : Text → List Text → List SignedCommitment → Type 0
Covers committer hashes cs =
    All
      (λ sc.
        is_converted committer sc ≡ true → any (bytes_eq sc.commitment.request_hash) hashes ≡ true)
      cs

Covers-cons :
    (committer hash : Text) (hashes : List Text) (cs : List SignedCommitment)
    → Covers committer hashes cs
    → Covers committer (hash ∷ hashes) cs
unfolding any
Covers-cons committer hash hashes [] h = tt
Covers-cons committer hash hashes (sc ∷ cs) h =
    ((λ p. ground (arith, h.0 p)), Covers-cons committer hash hashes cs h.1)

hashes-cons :
    (committer : Text) (sc : SignedCommitment) (cs : List SignedCommitment)
    → (is_converted committer sc ≡ true
        → (to_constraints committer (sc ∷ cs)).1
          ≡ sc.commitment.request_hash ∷ (to_constraints committer cs).1)
      × (is_converted committer sc ≡ false
          → (to_constraints committer (sc ∷ cs)).1 ≡ (to_constraints committer cs).1)
unfolding to_constraints
hashes-cons committer sc cs =
    ((λ h. rw (to_constraints, h) refl), (λ h. rw (to_constraints, h) refl))

any-first : (hash : Text) (hashes : List Text) → any (bytes_eq hash) (hash ∷ hashes) ≡ true
unfolding any
any-first hash hashes = ground (arith, bytes_eq_refl hash)

to_constraints-Covers :
    (committer : Text) (cs : List SignedCommitment)
    → Covers committer (to_constraints committer cs).1 cs
to_constraints-Covers committer [] = tt
to_constraints-Covers committer (sc ∷ cs) =
    let hashes = (to_constraints committer cs).1 in
    let rest = to_constraints-Covers committer cs in
    elim (Bool-cases (is_converted committer sc)) [
      | inl hit ↦
          subst (λ hs. Covers committer hs (sc ∷ cs)) (sym ((hashes-cons committer sc cs).0 hit))
            (
              (λ p. any-first sc.commitment.request_hash hashes),
              Covers-cons committer sc.commitment.request_hash hashes cs rest,
            )
      | inr miss ↦
          subst (λ hs. Covers committer hs (sc ∷ cs)) (sym ((hashes-cons committer sc cs).1 miss))
            ((λ p. absurd cc), rest)
    ]

Covers-none :
    (committer : Text) (hashes : List Text) (cs : List SignedCommitment)
    → Covers committer hashes cs
    → to_constraints committer (select (is_unmarked hashes) cs) ≡ ([], [])
unfolding to_constraints select
Covers-none committer hashes [] h = refl
Covers-none committer hashes (sc ∷ cs) h = ground (arith, h.0, Covers-none committer hashes cs h.1)

pub get_unprocessed-again :
    (pool later : PgPool) (slot : ℕ) (t : CommitmentTable) (waiting : List SignedCommitment)
    → later unprocessed_commitments ≡ false
    → get_unprocessed_commitments_for_slot pool slot t ≡ ok waiting
    → get_unprocessed_commitments_for_slot later slot t ≡ ok waiting
unfolding get_unprocessed_commitments_for_slot
get_unprocessed-again pool later slot t waiting up h = ground (arith, up, h)

-- Once the hashes that a conversion returned are marked as processed, a later conversion for the slot
-- and the committer finds nothing: no commitment becomes a constraint twice.
pub create_constraints-mark :
    (pool marking later : PgPool) (slot : ℕ) (committer : Text) (t : CommitmentTable)
    (constraints : List Constraint) (hashes : List Text)
    → slot ≤ i64_max
    → marking mark_processed ≡ false
    → later unprocessed_commitments ≡ false
    → create_constraints_from_commitments pool slot committer t ≡ ok (constraints, hashes)
    → create_constraints_from_commitments later slot committer
        (mark_commitments_as_processed marking hashes t).1
      ≡ ok ([], [])
unfolding create_constraints_from_commitments
create_constraints-mark pool marking later slot committer t constraints hashes fits up up' h =
    let (waiting, p, q) = >>=-eq-ok (get_unprocessed_commitments_for_slot pool slot t) _ h in
    let again = get_unprocessed-again pool later slot t waiting up' p in
    let hashes_are : (to_constraints committer waiting).1 ≡ hashes =
      ap (λ r. r.1) (ok-injective q) in
    let covers =
      subst (λ hs. Covers committer hs waiting) hashes_are
        (to_constraints-Covers committer waiting) in
    rw (unprocessed-mark marking later hashes slot t up up' fits waiting again)
      (ap ok (Covers-none committer hashes waiting covers))
