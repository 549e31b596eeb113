-- ===== src/Delegations.antt =====
-- src/db/delegation_ops.rs over the table of migration 003: the delegations to the gateway. A query
-- without ORDER BY returns its rows in the order of the table.
pub mod Rows
pub mod Saving
pub mod Expiry
pub mod Listing
pub mod Stats
use preconfirmation_gateway.Common.{
  ℕ, ◌≤◌, ◌<◌, ◌+◌, Bool, true, false, not, ◌&&◌, ◌||◌, Option, none, some, List, [], ◌∷◌, ◌++◌,
  map, leb, ltb, ◌==◌, if◌then◌else◌, any, select, find, length, bytes_eq, i64_max, Result, ok, err,
  ◌>>=◌, ◌>>◌, guard,
}
use preconfirmation_gateway.Types.{Bytes, Text, DelegationMessage, SignedDelegation}
use preconfirmation_gateway.Error.{
  Error, database_failure, check_violation, unique_violation, invalid_delegation_signature,
  wrong_length,
}
use preconfirmation_gateway.Crates.{Crates}
use preconfirmation_gateway.Crypto.{to_lower}
use preconfirmation_gateway.Bls.{verify_delegation_signature}
use preconfirmation_gateway.Sql.{
  Query, insert_delegation, delegations_for_slot, delegation_by_proposer, delegations_by_delegate,
  delegation_existence, deactivate_expired, begin_batch, insert_in_batch, commit_batch, PgPool,
  deactivate_by_id, sql_eq, sql_lt, matches_hex,
}

pub record DelegationRow : Type 0 where
  pub id : ℕ
  pub proposer_pubkey : Bytes
  pub delegate_pubkey : Bytes
  pub committer_address : Text
  pub slot_number : ℕ
  pub signature : Bytes
  pub is_active : Bool

abbrev pub DelegationTable : Type 0
DelegationTable = List DelegationRow

-- The CHECK constraints. A slot from 2^63 on is a negative `i64`, which `chk_slot_positive` refuses.
unfoldable pub row_checks : DelegationRow → Bool
row_checks row =
    length row.proposer_pubkey == 48
    && length row.delegate_pubkey == 48
    && length row.signature == 96
    && matches_hex 40 row.committer_address
    && leb row.slot_number i64_max

-- `unique_delegation_per_slot`
abbrev pub same_key : DelegationRow → DelegationRow → Bool
same_key a b = bytes_eq a.proposer_pubkey b.proposer_pubkey && a.slot_number == b.slot_number

abbrev pub has_id : ℕ → DelegationRow → Bool
has_id id row = row.id == id

unfoldable pub to_row : ℕ → SignedDelegation → DelegationRow
to_row id d = record {
  id = id;
  proposer_pubkey = d.message.proposer;
  delegate_pubkey = d.message.delegate;
  committer_address = d.message.committer;
  slot_number = d.message.slot;
  signature = d.signature;
  is_active = true;
}

-- The row back, with the lengths of its byte strings checked.
unfoldable pub to_delegation : DelegationRow → Result Error SignedDelegation
to_delegation row = do
  guard (length row.proposer_pubkey == 48) wrong_length
  guard (length row.delegate_pubkey == 48) wrong_length
  guard (length row.signature == 96) wrong_length
  ok (record {
    message = record {
      proposer = row.proposer_pubkey;
      delegate = row.delegate_pubkey;
      committer = row.committer_address;
      slot = row.slot_number;
    };
    signature = row.signature;
  })

-- The loop over the rows: the first row that is malformed ends it.
unfoldable pub to_delegations : List DelegationRow → Result Error (List SignedDelegation)
unfolding to_delegation
to_delegations [] = ok []
to_delegations (row ∷ rows) = do
  delegation ← to_delegation row
  delegations ← to_delegations rows
  ok (delegation ∷ delegations)

module _ ⦃x : Crates⦄ where
  -- A plain INSERT: a row with the same proposer and slot is an error here.
  unfoldable pub save_delegation :
      PgPool → ℕ → SignedDelegation → DelegationTable → Result Error ℕ × DelegationTable
  save_delegation pool id d table = elim (verify_delegation_signature d) [
    | err e ↦ (err e, table)
    | ok valid ↦
        if not valid
        then (err invalid_delegation_signature, table)
        else if pool insert_delegation
        then (err database_failure, table)
        else if not (row_checks (to_row id d))
        then (err check_violation, table)
        else if any (same_key (to_row id d)) table || any (has_id id) table
        then (err unique_violation, table)
        else (ok id, table ++ to_row id d ∷ [])
  ]

  unfoldable pub verify_all : List SignedDelegation → Result Error (Unit {0})
  verify_all [] = ok tt
  verify_all (d ∷ ds) = do
    valid ← verify_delegation_signature d
    guard valid invalid_delegation_signature
    verify_all ds

  -- INSERT … ON CONFLICT (proposer_pubkey, slot_number) DO NOTHING, for each in turn; the ids are drawn
  -- from `ids`.
  unfoldable pub insert_each :
      PgPool
      → (ℕ → ℕ)
      → List SignedDelegation
      → DelegationTable
      → Result Error (List ℕ × DelegationTable)
  insert_each pool ids [] table = ok ([], table)
  insert_each pool ids (d ∷ ds) table =
      let row = to_row (ids 0) d in
      let rest = λ (t : DelegationTable). insert_each pool (λ n. ids (n + 1)) ds t in
      if pool insert_in_batch
      then err database_failure
      else if not (row_checks row)
      then err check_violation
      else if any (same_key row) table
      then rest table
      else if any (has_id row.id) table
      then err unique_violation
      else (do saved ← rest (table ++ row ∷ []); ok (row.id ∷ saved.0, saved.1))

  -- One transaction: the table changes only if every insert and the commit succeed.
  abbrev pub in_transaction :
      PgPool
      → DelegationTable
      → Result Error (List ℕ × DelegationTable)
      → Result Error (List ℕ) × DelegationTable
  in_transaction pool table (err e) = (err e, table)
  in_transaction pool table (ok (saved, table')) =
      if pool commit_batch then (err database_failure, table) else (ok saved, table')

  unfoldable pub save_delegations_batch :
      PgPool
      → (ℕ → ℕ)
      → List SignedDelegation
      → DelegationTable
      → Result Error (List ℕ) × DelegationTable
  unfolding verify_all
  save_delegations_batch pool ids ds table = elim (verify_all ds) [
    | err e ↦ (err e, table)
    | ok _ ↦
        if pool begin_batch
        then (err database_failure, table)
        else in_transaction pool table (insert_each pool ids ds table)
  ]

abbrev pub active_at : ℕ → DelegationRow → Bool
active_at slot row = sql_eq row.slot_number slot && row.is_active

unfoldable pub get_delegations_for_slot :
    PgPool → ℕ → DelegationTable → Result Error (List SignedDelegation)
unfolding to_delegations
get_delegations_for_slot pool slot table =
    if pool delegations_for_slot
    then err database_failure
    else to_delegations (select (active_at slot) table)

abbrev pub by_proposer : Bytes → ℕ → DelegationRow → Bool
by_proposer proposer slot row = bytes_eq row.proposer_pubkey proposer && active_at slot row

unfoldable pub get_delegation_by_proposer_slot :
    PgPool → Bytes → ℕ → DelegationTable → Result Error (Option SignedDelegation)
unfolding to_delegation
get_delegation_by_proposer_slot pool proposer slot table =
    if pool delegation_by_proposer
    then err database_failure
    else elim (find (by_proposer proposer slot) table) [
      | none ↦ ok none
      | some row ↦ (do d ← to_delegation row; ok (some d))
    ]

abbrev pub for_committer : ℕ → Text → DelegationRow → Bool
for_committer slot committer row =
    bytes_eq (map to_lower row.committer_address) (map to_lower committer) && active_at slot row

unfoldable pub delegation_exists_for_slot_and_committer :
    PgPool → ℕ → Text → DelegationTable → Result Error Bool
delegation_exists_for_slot_and_committer pool slot committer table =
    if pool delegation_existence
    then err database_failure
    else ok (any (for_committer slot committer) table)

abbrev pub is_expired : ℕ → DelegationRow → Bool
is_expired current_slot row = sql_lt row.slot_number current_slot && row.is_active

unfoldable pub deactivate_if : (DelegationRow → Bool) → DelegationRow → DelegationRow
deactivate_if p row = if p row then record row { is_active = false } else row

unfoldable pub deactivate_expired_delegations :
    PgPool → ℕ → DelegationTable → Result Error ℕ × DelegationTable
unfolding deactivate_if
deactivate_expired_delegations pool current_slot table =
    if pool deactivate_expired then (err database_failure, table) else (
      ok (length (select (is_expired current_slot) table)),
      map (deactivate_if (is_expired current_slot)) table,
    )
