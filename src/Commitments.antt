-- ===== src/Commitments.antt =====
-- src/db/operations.rs over the table of migrations 001, 002 and 009: the signed commitments. Rows
-- stand in the order of `created_at`. A row's id is drawn outside the model.
pub mod Stats
pub mod Store
pub mod Processing
use preconfirmation_gateway.Common.{
  ℕ, ◌≤◌, ◌<◌, ◌≡◌, ◌+◌, Bool, true, false, not, ◌&&◌, Option, none, some, List, [], ◌∷◌, ◌++◌, map,
  leb, ltb, ◌==◌, if◌then◌else◌, is_empty, any, select, find, length, bytes_eq, i64_max, Result, ok,
  err,
}
use preconfirmation_gateway.Types.{Bytes, Text, Commitment, SignedCommitment}
use preconfirmation_gateway.Error.{
  Error, exceeds_i64, database_failure, check_violation, unique_violation,
}
use preconfirmation_gateway.Crates.{Crates}
use preconfirmation_gateway.Payload.{extract_slot}
use preconfirmation_gateway.Sql.{
  Query, insert_commitment, commitment_by_hash, commitment_existence, unprocessed_commitments,
  mark_processed, PgPool, sql_eq, matches_hex,
}

pub record CommitmentRow : Type 0 where
  pub id : ℕ
  pub request_hash : Text
  pub commitment_type : ℕ
  pub payload : Bytes
  pub slasher : Text
  pub signature : Text
  pub slot_number : Option ℕ
  pub constraint_processed : Bool

abbrev pub CommitmentTable : Type 0
CommitmentTable = List CommitmentRow

abbrev pub has_hash : Text → CommitmentRow → Bool
has_hash hash row = bytes_eq row.request_hash hash

abbrev pub has_id : ℕ → CommitmentRow → Bool
has_id id row = row.id == id

-- The CHECK constraints of the table. The slot is non-negative by its type.
unfoldable pub row_checks : CommitmentRow → Bool
row_checks row =
    matches_hex 64 row.request_hash
    && matches_hex 40 row.slasher
    && matches_hex 130 row.signature
    && ltb 0 row.commitment_type

-- INSERT … ON CONFLICT (request_hash) DO NOTHING RETURNING id
unfoldable pub insert_row :
    PgPool → CommitmentRow → CommitmentTable → Result Error (Option ℕ) × CommitmentTable
insert_row pool row table =
    if pool insert_commitment
    then (err database_failure, table)
    else if not (row_checks row)
    then (err check_violation, table)
    else if any (has_hash row.request_hash) table
    then (ok none, table)
    else if any (has_id row.id) table
    then (err unique_violation, table)
    else (ok (some row.id), table ++ row ∷ [])

unfoldable pub to_signed : CommitmentRow → SignedCommitment
to_signed row = record {
  commitment = record {
    commitment_type = row.commitment_type;
    payload = row.payload;
    request_hash = row.request_hash;
    slasher = row.slasher;
  };
  signature = row.signature;
}

abbrev pub signed_of : Option CommitmentRow → Option SignedCommitment
signed_of (some row) = some (to_signed row)
signed_of none = none

abbrev pub in_i64 : Result Error ℕ → Option ℕ
in_i64 (ok slot) = if leb slot i64_max then some slot else none
in_i64 (err e) = none

module _ ⦃x : Crates⦄ where
  -- The slot of the payload, NULL where there is none or where it is no `i64`.
  unfoldable pub slot_number_of : Commitment → Option ℕ
  slot_number_of c = in_i64 (extract_slot c.commitment_type c.payload)

  unfoldable pub to_row : ℕ → SignedCommitment → CommitmentRow
  unfolding slot_number_of
  to_row id sc = record {
    id = id;
    request_hash = sc.commitment.request_hash;
    commitment_type = sc.commitment.commitment_type;
    payload = sc.commitment.payload;
    slasher = sc.commitment.slasher;
    signature = sc.signature;
    slot_number = slot_number_of sc.commitment;
    constraint_processed = false;
  }

  unfoldable pub save_commitment :
      PgPool → ℕ → SignedCommitment → CommitmentTable → Result Error (Option ℕ) × CommitmentTable
  unfolding insert_row
  save_commitment pool id sc table =
      if leb sc.commitment.commitment_type i64_max
      then insert_row pool (to_row id sc) table
      else (err exceeds_i64, table)

unfoldable pub get_commitment_by_hash :
    PgPool → Text → CommitmentTable → Result Error (Option SignedCommitment)
get_commitment_by_hash pool hash table =
    if pool commitment_by_hash
    then err database_failure
    else ok (signed_of (find (has_hash hash) table))

unfoldable pub commitment_exists : PgPool → Text → CommitmentTable → Result Error Bool
commitment_exists pool hash table =
    if pool commitment_existence then err database_failure else ok (any (has_hash hash) table)

abbrev pub slot_is : ℕ → Option ℕ → Bool
slot_is slot none = false
slot_is slot (some n) = n == slot

abbrev pub is_pending : ℕ → CommitmentRow → Bool
is_pending slot row = slot_is slot row.slot_number && not row.constraint_processed

unfoldable pub get_unprocessed_commitments_for_slot :
    PgPool → ℕ → CommitmentTable → Result Error (List SignedCommitment)
get_unprocessed_commitments_for_slot pool slot table =
    if leb slot i64_max
    then (if pool unprocessed_commitments
        then err database_failure
        else ok (map to_signed (select (is_pending slot) table)))
    else err exceeds_i64

-- `request_hash = ANY($1)`
abbrev pub one_of : List Text → CommitmentRow → Bool
one_of hashes row = any (bytes_eq row.request_hash) hashes

unfoldable pub mark_row : List Text → CommitmentRow → CommitmentRow
mark_row hashes row = if one_of hashes row then record row { constraint_processed = true } else row

unfoldable pub mark_commitments_as_processed :
    PgPool → List Text → CommitmentTable → Result Error ℕ × CommitmentTable
mark_commitments_as_processed pool hashes table =
    if is_empty hashes
    then (ok 0, table)
    else if pool mark_processed
    then (err database_failure, table)
    else (ok (length (select (one_of hashes) table)), map (mark_row hashes) table)
