-- ===== src/Delegations/Rows.antt =====
-- Theorems on `get_delegations_for_slot` of src/db/delegation_ops.rs.
use preconfirmation_gateway.Common.{
  ℕ, ◌≡◌, refl, arith, true, false, [], ◌∷◌, select, ok, All, All-select, select-passes, map,
}
use preconfirmation_gateway.Types.{SignedDelegation, is_valid_for_slot}
use preconfirmation_gateway.Crates.{Crates}
use preconfirmation_gateway.Sql.{PgPool, delegations_for_slot}
use preconfirmation_gateway.Delegations.{
  DelegationRow, DelegationTable, row_checks, to_delegation, to_delegations, active_at,
  get_delegations_for_slot,
}
use preconfirmation_gateway.Delegations.Saving.{IsTable, IsVerified, delegation_of}

to_delegation-ok :
    (row : DelegationRow) → row_checks row ≡ true → to_delegation row ≡ ok (delegation_of row)
unfolding row_checks to_delegation delegation_of
to_delegation-ok row c = ground arith

pub to_delegations-ok :
    (rows : DelegationTable)
    → All (λ row. row_checks row ≡ true) rows
    → to_delegations rows ≡ ok (map delegation_of rows)
unfolding to_delegations
to_delegations-ok [] c = refl
to_delegations-ok (row ∷ rows) c = rw (to_delegation-ok row c.0, to_delegations-ok rows c.1) refl

module _ ⦃x : Crates⦄ where
  -- A stored row that is in force for the slot.
  abbrev pub Authorises : ℕ → SignedDelegation → Type 0
  Authorises slot d = (is_valid_for_slot d slot ≡ true) × IsVerified d

  pub IsTable-checks : (t : DelegationTable) → IsTable t → All (λ row. row_checks row ≡ true) t
  IsTable-checks [] v = tt
  IsTable-checks (r ∷ t) v = (v.2, IsTable-checks t v.4)

  IsTable-IsVerified :
      (t : DelegationTable) → IsTable t → All (λ row. IsVerified (delegation_of row)) t
  IsTable-IsVerified [] v = tt
  IsTable-IsVerified (r ∷ t) v = (v.3, IsTable-IsVerified t v.4)

  All-Authorises :
      (slot : ℕ) (rows : DelegationTable)
      → All (λ row. active_at slot row ≡ true) rows
      → All (λ row. IsVerified (delegation_of row)) rows
      → All (Authorises slot) (map delegation_of rows)
  unfolding delegation_of is_valid_for_slot
  All-Authorises slot [] a s = tt
  All-Authorises slot (row ∷ rows) a s =
      ((ground (arith, a.0), s.0), All-Authorises slot rows a.1 s.1)

  -- From a valid table, while the database answers, the query for a slot returns its active rows, each as
  -- a delegation for that very slot with a valid signature of the proposer.
  pub get_delegations_for_slot-Authorises :
      (pool : PgPool) (slot : ℕ) (t : DelegationTable)
      → IsTable t
      → pool delegations_for_slot ≡ false
      → (get_delegations_for_slot pool slot t ≡ ok (map delegation_of (select (active_at slot) t)))
        × All (Authorises slot) (map delegation_of (select (active_at slot) t))
  unfolding get_delegations_for_slot
  get_delegations_for_slot-Authorises pool slot t v up = (
    rw (get_delegations_for_slot, up)
        (to_delegations-ok (select (active_at slot) t)
          (All-select (λ row. row_checks row ≡ true) (active_at slot) t (IsTable-checks t v))),
    All-Authorises slot (select (active_at slot) t) (select-passes (active_at slot) t) (
        All-select (λ row. IsVerified (delegation_of row)) (active_at slot) t
          (IsTable-IsVerified t v)),
  )
