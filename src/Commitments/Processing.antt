-- ===== src/Commitments/Processing.antt =====
-- Theorems on the commitments that wait, of src/db/operations.rs.
use preconfirmation_gateway.Common.{
  ℕ, ◌≡◌, refl, sym, arith, Bool, false, not, List, [], ◌∷◌, map, any, select, find, bytes_eq, ok,
  i64_max, ◌≤◌,
}
use preconfirmation_gateway.Types.{Text, SignedCommitment}
use preconfirmation_gateway.Sql.{PgPool, unprocessed_commitments, mark_processed}
use preconfirmation_gateway.Commitments.{
  CommitmentTable, has_hash, to_signed, signed_of, get_commitment_by_hash,
  get_unprocessed_commitments_for_slot, mark_commitments_as_processed, mark_row, is_pending,
}

abbrev pub is_unmarked : List Text → SignedCommitment → Bool
is_unmarked hashes sc = not (any (bytes_eq sc.commitment.request_hash) hashes)

select-mark :
    (hs : List Text) (slot : ℕ) (t : CommitmentTable)
    → map to_signed (select (is_pending slot) (map (mark_row hs) t))
      ≡ select (is_unmarked hs) (map to_signed (select (is_pending slot) t))
unfolding select mark_row to_signed
select-mark hs slot [] = refl
select-mark hs slot (r ∷ t) = ground (arith, select-mark hs slot t)

find-mark :
    (hs : List Text) (h : Text) (t : CommitmentTable)
    → signed_of (find (has_hash h) (map (mark_row hs) t)) ≡ signed_of (find (has_hash h) t)
unfolding find mark_row to_signed
find-mark hs h [] = refl
find-mark hs h (r ∷ t) = ground (arith, find-mark hs h t)

mark-nil : (t : CommitmentTable) → map (mark_row []) t ≡ t
unfolding mark_row any
mark-nil [] = refl
mark-nil (r ∷ t) = ground (arith, mark-nil t)

-- Marking with no hash is skipped, which is marking nothing.
marked :
    (pool : PgPool) (hs : List Text) (t : CommitmentTable)
    → pool mark_processed ≡ false
    → (mark_commitments_as_processed pool hs t).1 ≡ map (mark_row hs) t
unfolding mark_commitments_as_processed
marked pool [] t up = sym (mark-nil t)
marked pool (h ∷ hs) t up = ground arith

-- After a successful marking, the commitments that wait for a slot are those that waited before, in the
-- same order, without the marked ones: nothing else is lost, and no marked one is handed out again.
pub unprocessed-mark :
    (pool later : PgPool) (hashes : List Text) (slot : ℕ) (t : CommitmentTable)
    → pool mark_processed ≡ false
    → later unprocessed_commitments ≡ false
    → slot ≤ i64_max
    → (waiting : List SignedCommitment)
    → get_unprocessed_commitments_for_slot later slot t ≡ ok waiting
    → get_unprocessed_commitments_for_slot later slot
        (mark_commitments_as_processed pool hashes t).1
      ≡ ok (select (is_unmarked hashes) waiting)
unfolding get_unprocessed_commitments_for_slot
unprocessed-mark pool later hashes slot t up up' fits waiting h =
    ground (arith, marked pool hashes t up, select-mark hashes slot t)

-- Marking changes no commitment that a client can read.
pub get-mark :
    (pool later : PgPool) (hashes : List Text) (hash : Text) (t : CommitmentTable)
    → get_commitment_by_hash later hash (mark_commitments_as_processed pool hashes t).1
      ≡ get_commitment_by_hash later hash t
unfolding get_commitment_by_hash mark_commitments_as_processed
get-mark pool later hashes hash t = ground (arith, find-mark hashes hash t)
