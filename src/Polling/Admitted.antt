-- ===== src/Polling/Admitted.antt =====
-- Theorems on what a poll of a slot stores, of src/services/delegation_polling.rs.
use preconfirmation_gateway.Common.{
  ℕ, suc, ◌+◌, ◌≡◌, ◌⊎◌, inl, inr, arith, true, Bool-cases, Result-cases, List, [], ◌∷◌, ◌++◌, any,
  select, select-passes, All, All-append, All-select, is_empty, bytes_eq, Result, ok, err, ◌>>=◌,
}
use preconfirmation_gateway.Types.{Bytes, SignedDelegation}
use preconfirmation_gateway.Error.{Error}
use preconfirmation_gateway.Crates.{Crates}
use preconfirmation_gateway.Sql.{PgPool, insert_in_batch, begin_batch}
use preconfirmation_gateway.Delegations.{
  DelegationRow, DelegationTable, row_checks, same_key, has_id, to_row, insert_each, verify_all,
  in_transaction, save_delegations_batch,
}
use preconfirmation_gateway.Delegations.Saving.{IsTable, save_delegations_batch-IsTable}
use preconfirmation_gateway.Polling.{
  Statuses, is_eligible, filter_eligible_delegations, is_for_key, is_verified, to_save,
  poll_delegations_for_slot,
}

module _ {κ} (Q : DelegationRow → Type κ) where
  abbrev Holds : Result Error (List ℕ × DelegationTable) → Type κ
  Holds (err e) = Unit
  Holds (ok (saved, t)) = All Q t

  Holds-bind :
      (id : ℕ) (r : Result Error (List ℕ × DelegationTable))
      → Holds r
      → Holds (r >>= λ saved. ok (id ∷ saved.0, saved.1))
  Holds-bind id (err e) h = tt
  Holds-bind id (ok (saved, t)) h = h

module _ {κ} ⦃x : Crates⦄ (Q : DelegationRow → Type κ) where
  insert_each-All :
      (pool : PgPool) (ids : ℕ → ℕ) (ds : List SignedDelegation) (t : DelegationTable)
      → All Q t
      → All (λ d. (id : ℕ) → Q (to_row id d)) ds
      → Holds Q (insert_each pool ids ds t)
  unfolding insert_each
  insert_each-All pool ids [] t v s = v
  insert_each-All pool ids (d ∷ ds) t v s =
      let row = to_row (ids 0) d in
      let next = λ (n : ℕ). ids (n + 1) in
      elim (Bool-cases (pool insert_in_batch)) [
        | inl down ↦ rw down tt
        | inr up ↦ rw up (elim (Bool-cases (row_checks row)) [
          | inr bad ↦ rw bad tt
          | inl good ↦ rw good (elim (Bool-cases (any (same_key row) t)) [
            | inl held ↦ rw held (insert_each-All pool next ds t v s.1)
            | inr free ↦ rw free (elim (Bool-cases (any (has_id row.id) t)) [
              | inl used ↦ rw used tt
              | inr new ↦ rw new (
                  Holds-bind Q row.id (insert_each pool next ds (t ++ row ∷ [])) (
                    insert_each-All pool next ds (t ++ row ∷ [])
                      (All-append Q t (row ∷ []) v (s.0 (ids 0), tt)) s.1))
            ])
          ])
        ])
      ]

  in_transaction-All :
      (pool : PgPool) (t : DelegationTable) (r : Result Error (List ℕ × DelegationTable))
      → All Q t
      → Holds Q r
      → All Q (in_transaction pool t r).1
  in_transaction-All pool t (err e) v h = v
  in_transaction-All pool t (ok (saved, t')) v h = ground (arith, v, h)

  save_delegations_batch-All :
      (pool : PgPool) (ids : ℕ → ℕ) (ds : List SignedDelegation) (t : DelegationTable)
      → All Q t
      → All (λ d. (id : ℕ) → Q (to_row id d)) ds
      → All Q (save_delegations_batch pool ids ds t).1
  unfolding save_delegations_batch
  save_delegations_batch-All pool ids ds t v s = elim (Result-cases (verify_all ds)) [
    | inr (e, p) ↦ rw (save_delegations_batch, p) v
    | inl (u, p) ↦
        rw (save_delegations_batch, p)
          (elim (Bool-cases (pool begin_batch)) [
            | inl down ↦ rw down v
            | inr up ↦ rw up (
                in_transaction-All pool t (insert_each pool ids ds t) v
                  (insert_each-All pool ids ds t v s))
          ])
  ]

module _ ⦃x : Crates⦄ (statuses : Statuses) (our_bls_pubkey : Bytes) where
  -- A delegation to the gateway's key, signed by its proposer, whom the cache calls eligible.
  pub record IsAdmitted (proposer delegate : Bytes) : Type 0 where
    pub ours : bytes_eq delegate our_bls_pubkey ≡ true
    pub moment : ℕ
    pub eligible : is_eligible (statuses moment proposer) ≡ true

  filter-All :
      (n : ℕ) (ds : List SignedDelegation)
      → All (λ d. is_for_key our_bls_pubkey d ≡ true) ds
      → All
          (λ d. IsAdmitted d.message.proposer d.message.delegate)
          (filter_eligible_delegations statuses n ds).0
  unfolding filter_eligible_delegations
  filter-All n [] h = tt
  filter-All n (d ∷ ds) h = elim (Bool-cases (is_eligible (statuses n d.message.proposer))) [
    | inl good ↦
        rw (filter_eligible_delegations, good)
          (record { ours = h.0; moment = n; eligible = good }, filter-All (suc n) ds h.1)
    | inr bad ↦ rw (filter_eligible_delegations, bad) (filter-All (suc n) ds h.1)
  ]

  to_save-IsAdmitted :
      (ds : List SignedDelegation)
      → All
          (λ d. IsAdmitted d.message.proposer d.message.delegate)
          (to_save statuses our_bls_pubkey ds)
  unfolding to_save
  to_save-IsAdmitted ds =
      filter-All 0 (select is_verified (select (is_for_key our_bls_pubkey) ds)) (
        All-select (λ d. is_for_key our_bls_pubkey d ≡ true) is_verified
          (select (is_for_key our_bls_pubkey) ds) (select-passes (is_for_key our_bls_pubkey) ds))

  -- What a row may be: one of the old kind, or one that was admitted.
  abbrev pub May : (DelegationRow → Type 0) → DelegationRow → Type 0
  May Old row = Old row ⊎ IsAdmitted row.proposer_pubkey row.delegate_pubkey

  All-May : (Old : DelegationRow → Type 0) (t : DelegationTable) → All Old t → All (May Old) t
  All-May Old [] h = tt
  All-May Old (row ∷ t) h = (inl h.0, All-May Old t h.1)

  All-to_row :
      (Old : DelegationRow → Type 0) (ds : List SignedDelegation)
      → All (λ d. IsAdmitted d.message.proposer d.message.delegate) ds
      → All (λ d. (id : ℕ) → May Old (to_row id d)) ds
  unfolding to_row
  All-to_row Old [] h = tt
  All-to_row Old (d ∷ ds) h = ((λ id. inr h.0), All-to_row Old ds h.1)

  -- After a poll of a slot, whatever the relay answers and whatever fails, the table is valid, so every
  -- row has its proposer's signature, and each row is of a kind that all rows were of before, or it is
  -- delegated to the gateway's key by a validator that the cache calls active and not slashed.
  pub poll_delegations_for_slot-IsAdmitted :
      (fetched : Result Error (List SignedDelegation)) (pool : PgPool) (ids : ℕ → ℕ)
      (t : DelegationTable) (Old : DelegationRow → Type 0)
      → IsTable t
      → All Old t
      → IsTable (poll_delegations_for_slot fetched statuses pool ids our_bls_pubkey t).1
        × All (May Old) (poll_delegations_for_slot fetched statuses pool ids our_bls_pubkey t).1
  unfolding poll_delegations_for_slot
  poll_delegations_for_slot-IsAdmitted (err e) pool ids t Old v old = (v, All-May Old t old)
  poll_delegations_for_slot-IsAdmitted (ok ds) pool ids t Old v old =
      let eligible = to_save statuses our_bls_pubkey ds in
      elim (Bool-cases (is_empty eligible)) [
        | inl nothing ↦ rw (poll_delegations_for_slot, nothing) (v, All-May Old t old)
        | inr something ↦
            rw (poll_delegations_for_slot, something)
              (
                save_delegations_batch-IsTable pool ids eligible t v,
                save_delegations_batch-All (May Old) pool ids eligible t (All-May Old t old)
                    (All-to_row Old eligible (to_save-IsAdmitted ds)),
              )
      ]
