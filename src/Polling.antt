-- ===== src/Polling.antt =====
-- src/services/delegation_polling.rs: delegations are fetched from the relay, filtered and stored, and
-- expired ones and those of slashed or inactive validators are deactivated. `Statuses` is what the cache of
-- validators answers to the n-th question of a call.
pub mod Admitted
pub mod Stored
pub mod Active
pub mod Cleanup
use preconfirmation_gateway.Common.{
  ℕ, zero, suc, ◌-◌, wrapping_add, wrapping_mul, Bool, not, ◌&&◌, ◌||◌, List, [], ◌∷◌, map, ◌==◌,
  if◌then◌else◌, is_empty, select, length, bytes_eq, Result, ok, err,
}
use preconfirmation_gateway.Types.{Bytes, ValidatorInfo, SignedDelegation}
use preconfirmation_gateway.Error.{Error, database_failure}
use preconfirmation_gateway.Crates.{Crates}
use preconfirmation_gateway.Bls.{verify_delegation_signature}
use preconfirmation_gateway.Timing.{current_slot_estimate, slots_per_epoch}
use preconfirmation_gateway.Sql.{PgPool, active_delegations, deactivate_by_id}
use preconfirmation_gateway.Delegations.{
  DelegationRow, DelegationTable, has_id, deactivate_if, save_delegations_batch,
  deactivate_expired_delegations,
}

abbrev pub Statuses : Type 0
Statuses = ℕ → Bytes → Result Error ValidatorInfo

-- Active and not slashed; a status that cannot be had is not eligible.
abbrev pub is_eligible : Result Error ValidatorInfo → Bool
is_eligible (ok status) = not status.is_slashed && status.is_active
is_eligible (err e) = Bool.false

-- The eligible delegations, and the number of the others.
unfoldable pub filter_eligible_delegations :
    Statuses → ℕ → List SignedDelegation → List SignedDelegation × ℕ
filter_eligible_delegations statuses n [] = ([], 0)
filter_eligible_delegations statuses n (d ∷ ds) =
    let rest = filter_eligible_delegations statuses (suc n) ds in
    if is_eligible (statuses n d.message.proposer)
    then (d ∷ rest.0, rest.1)
    else (rest.0, suc rest.1)

abbrev pub is_true : Result Error Bool → Bool
is_true (ok b) = b
is_true (err e) = Bool.false

abbrev pub is_for_key : Bytes → SignedDelegation → Bool
is_for_key our_bls_pubkey d = bytes_eq d.message.delegate our_bls_pubkey

module _ ⦃x : Crates⦄ where
  abbrev pub is_verified : SignedDelegation → Bool
  is_verified d = is_true (verify_delegation_signature d)

  -- To our key, with a valid signature, of an eligible validator.
  unfoldable pub to_save : Statuses → Bytes → List SignedDelegation → List SignedDelegation
  unfolding filter_eligible_delegations
  to_save statuses our_bls_pubkey delegations =
      let verified = select is_verified (select (is_for_key our_bls_pubkey) delegations) in
      (filter_eligible_delegations statuses 0 verified).0

  abbrev pub count_of : Result Error (List ℕ) → Result Error ℕ
  count_of (ok saved) = ok (length saved)
  count_of (err e) = err e

  -- `fetched` is the answer of the relay for the slot.
  unfoldable pub poll_delegations_for_slot :
      Result Error (List SignedDelegation)
      → Statuses
      → PgPool
      → (ℕ → ℕ)
      → Bytes
      → DelegationTable
      → Result Error ℕ × DelegationTable
  unfolding to_save
  poll_delegations_for_slot fetched statuses pool ids our_bls_pubkey table = elim fetched [
    | err e ↦ (err e, table)
    | ok delegations ↦
        (let eligible = to_save statuses our_bls_pubkey delegations in
          let saved = save_delegations_batch pool ids eligible table in
          if is_empty eligible then (ok 0, table) else (count_of saved.0, saved.1))
  ]

module _ ⦃x : Crates⦄ (our_bls_pubkey : Bytes) where
  -- The loop over the slots: an error is counted and passed over. What comes from outside is given for each
  -- slot.
  unfoldable pub poll_slots :
      (ℕ → Result Error (List SignedDelegation))
      → (ℕ → Statuses)
      → (ℕ → PgPool)
      → (ℕ → ℕ → ℕ)
      → ℕ
      → ℕ
      → DelegationTable
      → DelegationTable
  unfolding poll_delegations_for_slot
  poll_slots fetched statuses pools ids zero slot table = table
  poll_slots fetched statuses pools ids (suc count) slot table =
      poll_slots fetched statuses pools ids count (suc slot)
        (poll_delegations_for_slot (fetched slot) (statuses slot) (pools slot) (ids slot)
          our_bls_pubkey table).1

  -- From the current slot to the last of the lookahead.
  unfoldable pub poll_delegations :
      (ℕ → Result Error (List SignedDelegation))
      → (ℕ → Statuses)
      → (ℕ → PgPool)
      → (ℕ → ℕ → ℕ)
      → ℕ
      → ℕ
      → ℕ
      → DelegationTable
      → DelegationTable
  unfolding poll_slots
  poll_delegations fetched statuses pools ids now genesis_time lookahead_epochs table =
      let start_slot = current_slot_estimate now genesis_time in
      let end_slot = wrapping_add start_slot (wrapping_mul lookahead_epochs slots_per_epoch) in
      poll_slots fetched statuses pools ids (suc end_slot - start_slot) start_slot table

-- The ids and the proposers of the rows that are active.
unfoldable pub active_rows : DelegationTable → List (ℕ × Bytes)
active_rows [] = []
active_rows (row ∷ table) =
    let rest = active_rows table in
    if row.is_active then (row.id, row.proposer_pubkey) ∷ rest else rest

abbrev pub is_ineligible : Result Error ValidatorInfo → Bool
is_ineligible (ok status) = status.is_slashed || not status.is_active
is_ineligible (err e) = Bool.false

-- The loop: a key of the wrong length and a status that cannot be had are passed over, a failed UPDATE
-- ends it.
unfoldable pub deactivate_ineligible :
    Statuses
    → PgPool
    → ℕ
    → List (ℕ × Bytes)
    → DelegationTable
    → Result Error (Unit {0}) × DelegationTable
deactivate_ineligible statuses pool n [] table = (ok tt, table)
deactivate_ineligible statuses pool n (row ∷ rows) table =
    let rest = deactivate_ineligible statuses pool (suc n) rows in
    if not (length row.1 == 48)
    then deactivate_ineligible statuses pool n rows table
    else if not (is_ineligible (statuses n row.1))
    then rest table
    else if pool (deactivate_by_id row.0)
    then (err database_failure, table)
    else rest (map (deactivate_if (has_id row.0)) table)

unfoldable pub cleanup_expired_delegations :
    Statuses → PgPool → ℕ → DelegationTable → Result Error (Unit {0}) × DelegationTable
unfolding active_rows deactivate_ineligible
cleanup_expired_delegations statuses pool current_slot table =
    let expired = deactivate_expired_delegations pool current_slot table in
    elim expired.0 [
      | err e ↦ (err e, expired.1)
      | ok count ↦
          if pool active_delegations
          then (err database_failure, expired.1)
          else deactivate_ineligible statuses pool 0 (active_rows expired.1) expired.1
    ]
