-- ===== src/Delegations/Expiry.antt =====
-- Theorems on `deactivate_expired_delegations` of src/db/delegation_ops.rs.
use preconfirmation_gateway.Common.{
  ℕ, ◌≡◌, ◌≤◌, ◌<◌, refl, ap, arith, Bool, false, [], ◌∷◌, map, select, any, any-map, ◌∙◌, ok,
  i64_max,
}
use preconfirmation_gateway.Crates.{Crates}
use preconfirmation_gateway.Sql.{PgPool, deactivate_expired, delegations_for_slot}
use preconfirmation_gateway.Delegations.{
  DelegationRow, DelegationTable, row_checks, same_key, has_id, active_at, is_expired,
  deactivate_if, to_delegations, deactivate_expired_delegations, get_delegations_for_slot,
}
use preconfirmation_gateway.Delegations.Saving.{IsTable, delegation_of}

select-past :
    (current slot : ℕ) (t : DelegationTable)
    → current ≤ i64_max
    → slot < current
    → select (active_at slot) (map (deactivate_if (is_expired current)) t) ≡ []
unfolding select deactivate_if
select-past current slot [] b p = refl
select-past current slot (row ∷ t) b p = ground (arith, select-past current slot t b p)

select-to_come :
    (current slot : ℕ) (t : DelegationTable)
    → current ≤ slot
    → select (active_at slot) (map (deactivate_if (is_expired current)) t)
      ≡ select (active_at slot) t
unfolding select deactivate_if
select-to_come current slot [] p = refl
select-to_come current slot (row ∷ t) p = ground (arith, select-to_come current slot t p)

-- After the expiry at a slot, a query for an earlier slot finds nothing, and a query for that slot or a
-- later one returns what it returned before.
pub get_delegations-deactivate_expired :
    (pool later : PgPool) (current slot : ℕ) (t : DelegationTable)
    → pool deactivate_expired ≡ false
    → later delegations_for_slot ≡ false
    → current ≤ i64_max
    → let t' = (deactivate_expired_delegations pool current t).1 in
      (slot < current → get_delegations_for_slot later slot t' ≡ ok [])
      × (current ≤ slot
          → get_delegations_for_slot later slot t' ≡ get_delegations_for_slot later slot t)
unfolding deactivate_expired_delegations get_delegations_for_slot
get_delegations-deactivate_expired pool later current slot t up up' b =
    rw (deactivate_expired_delegations, get_delegations_for_slot, up, up')
      (
        (λ p. rw (select-past current slot t b p) refl),
        (λ p. ap to_delegations (select-to_come current slot t p)),
      )

module _ ⦃x : Crates⦄ where
  deactivate_if-delegation_of :
      (p : DelegationRow → Bool) (row : DelegationRow)
      → (delegation_of (deactivate_if p row) ≡ delegation_of row)
        × (row_checks (deactivate_if p row) ≡ row_checks row)
  unfolding deactivate_if delegation_of row_checks
  deactivate_if-delegation_of p row = (ground arith, ground arith)

  deactivate_if-same_key :
      (p : DelegationRow → Bool) (row other : DelegationRow)
      → (same_key (deactivate_if p row) other ≡ same_key row other)
        × (same_key row (deactivate_if p other) ≡ same_key row other)
        × (has_id (deactivate_if p row).id other ≡ has_id row.id other)
        × (has_id row.id (deactivate_if p other) ≡ has_id row.id other)
  unfolding deactivate_if
  deactivate_if-same_key p row other = (ground arith, ground arith, ground arith, ground arith)

  any-key-deactivate :
      (p : DelegationRow → Bool) (row : DelegationRow) (t : DelegationTable)
      → (any (same_key (deactivate_if p row)) (map (deactivate_if p) t) ≡ any (same_key row) t)
        × (any (has_id (deactivate_if p row).id) (map (deactivate_if p) t) ≡ any (has_id row.id) t)
  any-key-deactivate p row t = (
    any-map (same_key (deactivate_if p row)) (same_key row) (deactivate_if p) t (λ r.
        (deactivate_if-same_key p row (deactivate_if p r)).0 ∙ (deactivate_if-same_key p row r).1),
    any-map (has_id (deactivate_if p row).id) (has_id row.id) (deactivate_if p) t (λ r.
        (deactivate_if-same_key p row (deactivate_if p r)).2 ∙ (deactivate_if-same_key p row r).3),
  )

  pub map-deactivate-IsTable :
      (p : DelegationRow → Bool) (t : DelegationTable)
      → IsTable t
      → IsTable (map (deactivate_if p) t)
  map-deactivate-IsTable p [] v = tt
  map-deactivate-IsTable p (r ∷ t) v = (
    (any-key-deactivate p r t).0 ∙ v.0,
    (any-key-deactivate p r t).1 ∙ v.1,
    (deactivate_if-delegation_of p r).1 ∙ v.2,
    rw (deactivate_if-delegation_of p r).0 v.3,
    map-deactivate-IsTable p t v.4,
  )

  -- Expiry keeps the table valid.
  pub deactivate_expired-IsTable :
      (pool : PgPool) (current : ℕ) (t : DelegationTable)
      → IsTable t
      → IsTable (deactivate_expired_delegations pool current t).1
  unfolding deactivate_expired_delegations
  deactivate_expired-IsTable pool current t v =
      ground (arith, map-deactivate-IsTable (is_expired current) t v)
