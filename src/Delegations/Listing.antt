-- ===== src/Delegations/Listing.antt =====
-- `get_delegations_by_delegate` of src/db/delegation_ops.rs, and theorems on it.
use preconfirmation_gateway.Common.{
  ℕ, ◌≡◌, ◌≤◌, arith, Bool, true, false, ◌&&◌, Bool-cases, inl, inr, List, [], ◌∷◌, map, select,
  All, leb, leb→le, if◌then◌else◌, bytes_eq, Result, ok, err, All-select, select-passes,
}
use preconfirmation_gateway.Types.{Bytes, SignedDelegation}
use preconfirmation_gateway.Error.{Error, database_failure}
use preconfirmation_gateway.Crates.{Crates}
use preconfirmation_gateway.Sql.{PgPool, delegations_by_delegate}
use preconfirmation_gateway.Delegations.{DelegationRow, DelegationTable, row_checks, to_delegations}
use preconfirmation_gateway.Delegations.Saving.{IsTable, delegation_of}
use preconfirmation_gateway.Delegations.Rows.{IsTable-checks, to_delegations-ok}

abbrev pub of_delegate : Bytes → DelegationRow → Bool
of_delegate delegate row = bytes_eq row.delegate_pubkey delegate && row.is_active

-- ORDER BY slot_number ASC, equal slots in the order of the table.
unfoldable pub insert_by_slot : DelegationRow → List DelegationRow → List DelegationRow
insert_by_slot row [] = row ∷ []
insert_by_slot row (r ∷ rows) =
    let rest = insert_by_slot row rows in
    if leb row.slot_number r.slot_number then row ∷ r ∷ rows else r ∷ rest

unfoldable pub order_by_slot : List DelegationRow → List DelegationRow
unfolding insert_by_slot
order_by_slot [] = []
order_by_slot (row ∷ rows) = insert_by_slot row (order_by_slot rows)

unfoldable pub get_delegations_by_delegate :
    PgPool → Bytes → DelegationTable → Result Error (List SignedDelegation)
unfolding order_by_slot
get_delegations_by_delegate pool delegate table =
    if pool delegations_by_delegate
    then err database_failure
    else to_delegations (order_by_slot (select (of_delegate delegate) table))

-- No row has a lower slot than one before it.
abbrev pub Ascending : List DelegationRow → Type 0
Ascending [] = Unit
Ascending (row ∷ rows) = All (λ r. row.slot_number ≤ r.slot_number) rows × Ascending rows

insert-All :
    (P : DelegationRow → Type 0) (row : DelegationRow) (rows : List DelegationRow)
    → P row
    → All P rows
    → All P (insert_by_slot row rows)
unfolding insert_by_slot
insert-All P row [] p h = (p, tt)
insert-All P row (r ∷ rows) p h = elim (Bool-cases (leb row.slot_number r.slot_number)) [
  | inl low ↦ rw (insert_by_slot, low) (p, h)
  | inr high ↦ rw (insert_by_slot, high) (h.0, insert-All P row rows p h.1)
]

order-All :
    (P : DelegationRow → Type 0) (rows : List DelegationRow)
    → All P rows
    → All P (order_by_slot rows)
unfolding order_by_slot
order-All P [] h = tt
order-All P (row ∷ rows) h = insert-All P row (order_by_slot rows) h.0 (order-All P rows h.1)

All-le :
    (m n : ℕ) (rows : List DelegationRow)
    → m ≤ n
    → All (λ r. n ≤ r.slot_number) rows
    → All (λ r. m ≤ r.slot_number) rows
All-le m n [] l h = tt
All-le m n (r ∷ rows) l h = (omega (arith, h.0), All-le m n rows l h.1)

insert-Ascending :
    (row : DelegationRow) (rows : List DelegationRow)
    → Ascending rows
    → Ascending (insert_by_slot row rows)
unfolding insert_by_slot
insert-Ascending row [] h = (tt, tt)
insert-Ascending row (r ∷ rows) h = elim (Bool-cases (leb row.slot_number r.slot_number)) [
  | inl low ↦
      rw (insert_by_slot, low)
        (let le = leb→le row.slot_number r.slot_number low in
          ((le, All-le row.slot_number r.slot_number rows le h.0), h))
  | inr high ↦
      rw (insert_by_slot, high)
        (
          insert-All (λ q. r.slot_number ≤ q.slot_number) row rows (ground arith) h.0,
          insert-Ascending row rows h.1,
        )
]

order_by_slot-Ascending : (rows : List DelegationRow) → Ascending (order_by_slot rows)
unfolding order_by_slot
order_by_slot-Ascending [] = tt
order_by_slot-Ascending (row ∷ rows) =
    insert-Ascending row (order_by_slot rows) (order_by_slot-Ascending rows)

module _ ⦃x : Crates⦄ where
  -- From a valid table, while the database answers, the query for a delegate returns the delegations of
  -- rows that are active and name this delegate, by ascending slot.
  pub get_delegations_by_delegate-Ascending :
      (pool : PgPool) (delegate : Bytes) (t : DelegationTable)
      → IsTable t
      → pool delegations_by_delegate ≡ false
      → (rows : List DelegationRow) × (get_delegations_by_delegate pool delegate t
          ≡ ok (map delegation_of rows))
        × Ascending rows
        × All (λ r. of_delegate delegate r ≡ true) rows
  unfolding get_delegations_by_delegate
  get_delegations_by_delegate-Ascending pool delegate t v up =
      let found = select (of_delegate delegate) t in
      (
        order_by_slot found,
        rw (get_delegations_by_delegate, up)
            (to_delegations-ok (order_by_slot found) (
              order-All (λ r. row_checks r ≡ true) found
                (All-select (λ r. row_checks r ≡ true) (of_delegate delegate) t
                  (IsTable-checks t v)))),
        order_by_slot-Ascending found,
        order-All (λ r. of_delegate delegate r ≡ true) found
            (select-passes (of_delegate delegate) t),
      )
