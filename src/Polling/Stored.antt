-- ===== src/Polling/Stored.antt =====
-- Theorems on what the polls of src/services/delegation_polling.rs store.
use preconfirmation_gateway.Common.{
  ℕ, zero, suc, ◌-◌, wrapping_add, wrapping_mul, ◌⊎◌, inl, inr, List, [], ◌∷◌, All, Result,
}
use preconfirmation_gateway.Types.{Bytes, SignedDelegation}
use preconfirmation_gateway.Error.{Error}
use preconfirmation_gateway.Crates.{Crates}
use preconfirmation_gateway.Sql.{PgPool}
use preconfirmation_gateway.Delegations.{DelegationRow, DelegationTable}
use preconfirmation_gateway.Timing.{current_slot_estimate, slots_per_epoch}
use preconfirmation_gateway.Delegations.Saving.{IsTable}
use preconfirmation_gateway.Polling.{
  Statuses, poll_delegations_for_slot, poll_slots, poll_delegations,
}
use preconfirmation_gateway.Polling.Admitted.{IsAdmitted, May, poll_delegations_for_slot-IsAdmitted}

module _ ⦃x : Crates⦄ (our_bls_pubkey : Bytes) where
  -- The kinds of rows that polls may leave: the old ones, and those that some status made eligible.
  abbrev pub Polled : (ℕ → Statuses) → (DelegationRow → Type 0) → DelegationRow → Type 0
  Polled statuses Old row =
      Old row
      ⊎ ((slot : ℕ) × IsAdmitted (statuses slot) our_bls_pubkey row.proposer_pubkey
            row.delegate_pubkey)

  May-Polled :
      (statuses : ℕ → Statuses) (slot : ℕ) (Old : DelegationRow → Type 0) (t : DelegationTable)
      → All (May (statuses slot) our_bls_pubkey (Polled statuses Old)) t
      → All (Polled statuses Old) t
  May-Polled statuses slot Old [] h = tt
  May-Polled statuses slot Old (row ∷ t) h = (
    elim h.0 [ inl old ↦ old | inr admitted ↦ inr (slot, admitted) ],
    May-Polled statuses slot Old t h.1,
  )

  poll_slots-Polled :
      (fetched : ℕ → Result Error (List SignedDelegation)) (statuses : ℕ → Statuses)
      (pools : ℕ → PgPool) (ids : ℕ → ℕ → ℕ) (count slot : ℕ) (t : DelegationTable)
      (Old : DelegationRow → Type 0)
      → IsTable t
      → All (Polled statuses Old) t
      → IsTable (poll_slots our_bls_pubkey fetched statuses pools ids count slot t)
        × All
            (Polled statuses Old)
            (poll_slots our_bls_pubkey fetched statuses pools ids count slot t)
  unfolding poll_slots
  poll_slots-Polled fetched statuses pools ids zero slot t Old v h = (v, h)
  poll_slots-Polled fetched statuses pools ids (suc count) slot t Old v h =
      let once =
        poll_delegations_for_slot-IsAdmitted (statuses slot) our_bls_pubkey (fetched slot)
          (pools slot) (ids slot) t (Polled statuses Old) v h in
      let next =
        poll_delegations_for_slot (fetched slot) (statuses slot) (pools slot) (ids slot)
          our_bls_pubkey t in
      poll_slots-Polled fetched statuses pools ids count (suc slot) next.1 Old once.0
        (May-Polled statuses slot Old next.1 once.1)

  old-Polled :
      (statuses : ℕ → Statuses) (Old : DelegationRow → Type 0) (t : DelegationTable)
      → All Old t
      → All (Polled statuses Old) t
  old-Polled statuses Old [] h = tt
  old-Polled statuses Old (row ∷ t) h = (inl h.0, old-Polled statuses Old t h.1)

  -- After a whole cycle of polls, whatever the relay answers and whatever fails, the table is valid, so
  -- every row has its proposer's signature, and each row is of a kind that all rows were of before, or
  -- it is delegated to the gateway's key by a validator that the cache called active and not slashed.
  pub poll_delegations-Polled :
      (fetched : ℕ → Result Error (List SignedDelegation)) (statuses : ℕ → Statuses)
      (pools : ℕ → PgPool) (ids : ℕ → ℕ → ℕ) (now genesis_time lookahead_epochs : ℕ)
      (t : DelegationTable) (Old : DelegationRow → Type 0)
      → IsTable t
      → All Old t
      → let t' =
          poll_delegations our_bls_pubkey fetched statuses pools ids now genesis_time
            lookahead_epochs t in
        IsTable t' × All (Polled statuses Old) t'
  unfolding poll_delegations
  poll_delegations-Polled fetched statuses pools ids now genesis lookahead t Old v h =
      let start = current_slot_estimate now genesis in
      let end_slot = wrapping_add start (wrapping_mul lookahead slots_per_epoch) in
      poll_slots-Polled fetched statuses pools ids (suc end_slot - start) start t Old v
        (old-Polled statuses Old t h)
