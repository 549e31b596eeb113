-- ===== src/Delegations/Saving.antt =====
-- Theorems on the saving of delegations, of src/db/delegation_ops.rs.
use preconfirmation_gateway.Common.{
  ℕ, ◌+◌, ◌≡◌, refl, arith, true, false, Bool-cases, Result-cases, inl, inr, List, [], ◌∷◌, ◌++◌,
  any, any-append, bytes_eq_comm, ok, err, Result, ◌==◌, All, >>=-eq-ok, guard-eq-ok, ◌>>=◌, guard,
}
use preconfirmation_gateway.Types.{SignedDelegation}
use preconfirmation_gateway.Error.{Error, invalid_delegation_signature}
use preconfirmation_gateway.Crates.{Crates}
use preconfirmation_gateway.Bls.{verify_delegation_signature}
use preconfirmation_gateway.Sql.{PgPool, insert_in_batch, begin_batch}
use preconfirmation_gateway.Delegations.{
  DelegationRow, DelegationTable, row_checks, same_key, has_id, to_row, save_delegation, verify_all,
  insert_each, in_transaction, save_delegations_batch,
}

-- What a row says.
unfoldable pub delegation_of : DelegationRow → SignedDelegation
delegation_of row = record {
  message = record {
    proposer = row.proposer_pubkey;
    delegate = row.delegate_pubkey;
    committer = row.committer_address;
    slot = row.slot_number;
  };
  signature = row.signature;
}

key_comm : (a b : DelegationRow) → same_key a b ≡ same_key b a
key_comm a b = ground (arith, bytes_eq_comm a.proposer_pubkey b.proposer_pubkey)

id_comm : (a b : ℕ) → (a == b) ≡ (b == a)
id_comm a b = ground arith

delegation_of-to_row : (id : ℕ) (d : SignedDelegation) → delegation_of (to_row id d) ≡ d
unfolding delegation_of to_row
delegation_of-to_row id d = refl

module _ ⦃x : Crates⦄ where
  abbrev pub IsVerified : SignedDelegation → Type 0
  IsVerified d = verify_delegation_signature d ≡ ok true

  -- A proposer and slot, and an id, stand once; every row passes the checks of the migration and holds
  -- a delegation with a valid signature.
  abbrev pub IsTable : DelegationTable → Type 0
  IsTable [] = Unit
  IsTable (r ∷ rs) =
      (any (same_key r) rs ≡ false)
      × (any (has_id r.id) rs ≡ false)
      × (row_checks r ≡ true)
      × IsVerified (delegation_of r)
      × IsTable rs

  IsTable-append :
      (t : DelegationTable) (r : DelegationRow)
      → IsTable t
      → any (same_key r) t ≡ false
      → any (has_id r.id) t ≡ false
      → row_checks r ≡ true
      → IsVerified (delegation_of r)
      → IsTable (t ++ r ∷ [])
  unfolding any
  IsTable-append [] r v k i c s = (refl, refl, c, s, tt)
  IsTable-append (q ∷ t) r v k i c s =
      let rest = IsTable-append t r v.4 in
      ground (
        arith,
        rest,
        any-append (same_key q) t (r ∷ []),
        any-append (has_id q.id) t (r ∷ []),
        key_comm q r,
        id_comm q.id r.id,
      )

  IsTable-to_row :
      (t : DelegationTable) (id : ℕ) (d : SignedDelegation)
      → IsTable t
      → any (same_key (to_row id d)) t ≡ false
      → any (has_id id) t ≡ false
      → row_checks (to_row id d) ≡ true
      → IsVerified d
      → IsTable (t ++ to_row id d ∷ [])
  IsTable-to_row t id d v k i c s =
      IsTable-append t (to_row id d) v k (unfold to_row in i) c (rw (delegation_of-to_row id d) s)

  -- Saving one delegation keeps the table valid, whatever comes of it.
  pub save_delegation-IsTable :
      (pool : PgPool) (id : ℕ) (d : SignedDelegation) (t : DelegationTable)
      → IsTable t
      → IsTable (save_delegation pool id d t).1
  unfolding save_delegation
  save_delegation-IsTable pool id d t v = ground (arith, IsTable-to_row t id d v)

  verify_all-All :
      (ds : List SignedDelegation) {u : Unit} → verify_all ds ≡ ok u → All IsVerified ds
  unfolding verify_all
  verify_all-All [] h = tt
  verify_all-All (d ∷ ds) h =
      let (valid, p, h1) = >>=-eq-ok (verify_delegation_signature d) _ h in
      let (w, q, h2) =
        >>=-eq-ok (guard valid invalid_delegation_signature) (λ _. verify_all ds) h1 in
      (rw (guard-eq-ok valid invalid_delegation_signature q) at p, verify_all-All ds h2)

  -- Where a batch of inserts gets through, its table is valid.
  abbrev Ends : Result Error (List ℕ × DelegationTable) → Type 0
  Ends (err e) = Unit
  Ends (ok (saved, t)) = IsTable t

  Ends-bind :
      (id : ℕ) (r : Result Error (List ℕ × DelegationTable))
      → Ends r
      → Ends (r >>= λ saved. ok (id ∷ saved.0, saved.1))
  Ends-bind id (err e) h = tt
  Ends-bind id (ok (saved, t)) h = h

  insert_each-IsTable :
      (pool : PgPool) (ids : ℕ → ℕ) (ds : List SignedDelegation) (t : DelegationTable)
      → IsTable t
      → All IsVerified ds
      → Ends (insert_each pool ids ds t)
  unfolding insert_each
  insert_each-IsTable pool ids [] t v s = v
  insert_each-IsTable pool ids (d ∷ ds) t v s =
      let row = to_row (ids 0) d in
      let next = λ (n : ℕ). ids (n + 1) in
      elim (Bool-cases (pool insert_in_batch)) [
        | inl down ↦ rw down tt
        | inr up ↦ rw up (elim (Bool-cases (row_checks row)) [
          | inr bad ↦ rw bad tt
          | inl good ↦ rw good (elim (Bool-cases (any (same_key row) t)) [
            | inl held ↦ rw held (insert_each-IsTable pool next ds t v s.1)
            | inr free ↦ rw free (elim (Bool-cases (any (has_id row.id) t)) [
              | inl used ↦ rw used tt
              | inr new ↦ rw new (
                  Ends-bind row.id (insert_each pool next ds (t ++ row ∷ [])) (
                    insert_each-IsTable pool next ds (t ++ row ∷ [])
                      (IsTable-to_row t (ids 0) d v free (unfold to_row in new) good s.0) s.1))
            ])
          ])
        ])
      ]

  in_transaction-IsTable :
      (pool : PgPool) (t : DelegationTable) (r : Result Error (List ℕ × DelegationTable))
      → IsTable t
      → Ends r
      → IsTable (in_transaction pool t r).1
  in_transaction-IsTable pool t (err e) v h = v
  in_transaction-IsTable pool t (ok (saved, t')) v h = ground (arith, v, h)

  -- A batch keeps the table valid, whatever comes of it.
  pub save_delegations_batch-IsTable :
      (pool : PgPool) (ids : ℕ → ℕ) (ds : List SignedDelegation) (t : DelegationTable)
      → IsTable t
      → IsTable (save_delegations_batch pool ids ds t).1
  unfolding save_delegations_batch
  save_delegations_batch-IsTable pool ids ds t v = elim (Result-cases (verify_all ds)) [
    | inr (e, p) ↦ rw (save_delegations_batch, p) v
    | inl (u, p) ↦
        rw (save_delegations_batch, p)
          (elim (Bool-cases (pool begin_batch)) [
            | inl down ↦ rw down v
            | inr up ↦ rw up (
                in_transaction-IsTable pool t (insert_each pool ids ds t) v
                  (insert_each-IsTable pool ids ds t v (verify_all-All ds p)))
          ])
  ]

  in_transaction-atomic :
      (pool : PgPool) (t : DelegationTable) (r : Result Error (List ℕ × DelegationTable))
      (e : Error)
      → (in_transaction pool t r).0 ≡ err e
      → (in_transaction pool t r).1 ≡ t
  in_transaction-atomic pool t (err e') e h = refl
  in_transaction-atomic pool t (ok (saved, t')) e h = ground arith

  -- A batch is all or none: a batch that returns an error has stored nothing, and one that holds a
  -- delegation without a valid signature returns an error.
  pub save_delegations_batch-atomic :
      (pool : PgPool) (ids : ℕ → ℕ) (ds : List SignedDelegation) (t : DelegationTable)
      → ((e : Error)
          → (save_delegations_batch pool ids ds t).0 ≡ err e
          → (save_delegations_batch pool ids ds t).1 ≡ t)
        × ((saved : List ℕ)
            → (save_delegations_batch pool ids ds t).0 ≡ ok saved
            → All IsVerified ds)
  unfolding save_delegations_batch
  save_delegations_batch-atomic pool ids ds t = elim (Result-cases (verify_all ds)) [
    | inr (e', p) ↦ rw (save_delegations_batch, p) ((λ e h. refl), (λ saved h. cc))
    | inl (u, p) ↦
        rw (save_delegations_batch, p)
          (
            (λ e h. ground (arith, in_transaction-atomic pool t (insert_each pool ids ds t) e)),
            (λ saved h. verify_all-All ds p),
          )
  ]
