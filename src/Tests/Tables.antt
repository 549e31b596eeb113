-- ===== src/Tests/Tables.antt =====
-- The tables at concrete rows.
use preconfirmation_gateway.Common.{
  ℕ, ◌≡◌, ◌≤◌, ◌<◌, refl, arith, true, false, some, List, [], ◌∷◌, map, ok, err, All, any, select,
}
use preconfirmation_gateway.Types.{SignedCommitment}
use preconfirmation_gateway.Error.{Error}
use preconfirmation_gateway.Float.{fixed_f64}
use preconfirmation_gateway.Crates.Sample.{sample}
use preconfirmation_gateway.Crypto.{strip_prefix}
use preconfirmation_gateway.Sql.{is_hex_digit, all_hex, matches_hex}
use preconfirmation_gateway.Tests.Data.{slasher, all_up, stored, answer, delegation, forged}
use preconfirmation_gateway.Commitments.{
  CommitmentRow, save_commitment, row_checks, to_row, to_signed, mark_commitments_as_processed,
  get_unprocessed_commitments_for_slot,
}
use preconfirmation_gateway.Commitments.Processing.{unprocessed-mark, is_unmarked}
use preconfirmation_gateway.Bls.{
  verify_delegation_signature, abi_encode_delegation_message, parse_committer,
}
use preconfirmation_gateway.Delegations
use preconfirmation_gateway.Delegations.Saving
use preconfirmation_gateway.Delegations.{DelegationRow}
use preconfirmation_gateway.Delegations.Rows.{get_delegations_for_slot-Authorises, Authorises}
use preconfirmation_gateway.Delegations.Expiry.{get_delegations-deactivate_expired}

inserted : (save_commitment all_up 1 answer []).0 ≡ ok (some 1)
unfolding save_commitment row_checks matches_hex all_hex is_hex_digit strip_prefix to_row any
inserted = refl

delegation_verified : verify_delegation_signature delegation ≡ ok true
unfolding verify_delegation_signature abi_encode_delegation_message parse_committer strip_prefix
delegation_verified = refl

pub stored_verified : Saving.IsTable (stored ∷ [])
unfolding any Delegations.row_checks matches_hex all_hex is_hex_digit strip_prefix
    verify_delegation_signature abi_encode_delegation_message parse_committer Saving.delegation_of
stored_verified = (refl, refl, refl, refl, tt)

save_delegations_batch-atomic_example :
    ((e : Error)
      → (Delegations.save_delegations_batch all_up (λ n. n) (delegation ∷ forged ∷ []) []).0 ≡ err e
      → (Delegations.save_delegations_batch all_up (λ n. n) (delegation ∷ forged ∷ []) []).1 ≡ [])
    × ((saved : List ℕ)
        → (Delegations.save_delegations_batch all_up (λ n. n) (delegation ∷ forged ∷ []) []).0
          ≡ ok saved
        → All Saving.IsVerified (delegation ∷ forged ∷ []))
save_delegations_batch-atomic_example =
    Saving.save_delegations_batch-atomic all_up (λ n. n) (delegation ∷ forged ∷ []) []

get_delegations_for_slot-Authorises_example :
    (Delegations.get_delegations_for_slot all_up 5 (stored ∷ [])
      ≡ ok (map Saving.delegation_of (select (Delegations.active_at 5) (stored ∷ []))))
    × All (Authorises 5) (map Saving.delegation_of (select (Delegations.active_at 5) (stored ∷ [])))
get_delegations_for_slot-Authorises_example =
    get_delegations_for_slot-Authorises all_up 5 (stored ∷ []) stored_verified refl

get_delegations-deactivate_expired_example :
    (5 < 6
      → Delegations.get_delegations_for_slot all_up 5
          (Delegations.deactivate_expired_delegations all_up 6 (stored ∷ [])).1
        ≡ ok [])
    × (6 ≤ 5
        → Delegations.get_delegations_for_slot all_up 5
            (Delegations.deactivate_expired_delegations all_up 6 (stored ∷ [])).1
          ≡ Delegations.get_delegations_for_slot all_up 5 (stored ∷ []))
get_delegations-deactivate_expired_example =
    get_delegations-deactivate_expired all_up all_up 6 5 (stored ∷ []) refl refl (omega arith)

-- The answer, and another commitment for the slot.
abbrev pending : ℕ → SignedCommitment → CommitmentRow
pending id sc = record {
  id = id;
  request_hash = sc.commitment.request_hash;
  commitment_type = 1;
  payload = sc.commitment.payload;
  slasher = slasher;
  signature = sc.signature;
  slot_number = some 5;
  constraint_processed = false;
}

abbrev other : SignedCommitment
other = record answer { commitment = record (answer.commitment) { request_hash = slasher } }

waiting :
    get_unprocessed_commitments_for_slot all_up 5 (pending 1 answer ∷ pending 2 other ∷ [])
    ≡ ok (answer ∷ other ∷ [])
unfolding get_unprocessed_commitments_for_slot select to_signed
waiting = refl

unprocessed-mark_example :
    get_unprocessed_commitments_for_slot all_up 5
      (mark_commitments_as_processed all_up
        (slasher ∷ [])
        (pending 1 answer ∷ pending 2 other ∷ [])).1
    ≡ ok (select (is_unmarked (slasher ∷ [])) (answer ∷ other ∷ []))
unprocessed-mark_example =
    unprocessed-mark all_up all_up (slasher ∷ []) 5 (pending 1 answer ∷ pending 2 other ∷ []) refl
      refl (omega arith) (answer ∷ other ∷ []) waiting
