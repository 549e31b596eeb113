-- ===== src/Tests/Polling.antt =====
-- A poll that finds one delegation, a cleanup, and a cache that keeps one entry.
use preconfirmation_gateway.Common.{
  ℕ, ◌≡◌, ◌≤◌, ◌⊎◌, refl, inl, inr, arith, true, false, Option, none, some, List, [], ◌∷◌, All,
  bytes_eq, bytes_eq→eq, Bool-cases, if◌then◌else◌, Result, ok,
}
use preconfirmation_gateway.Types.{Bytes, ValidatorInfo, SignedDelegation}
use preconfirmation_gateway.Crates.Sample.{sample, repeat}
use preconfirmation_gateway.Error.{Error}
use preconfirmation_gateway.Delegations.{deactivate_expired_delegations, deactivate_if}
use preconfirmation_gateway.Delegations.Saving.{IsTable}
use preconfirmation_gateway.Validators.{Moka, IsMoka, get_status}
use preconfirmation_gateway.Validators.Sources.{IsSound, get_status-Answered}
use preconfirmation_gateway.Polling.{
  Statuses, poll_delegations, cleanup_expired_delegations, active_rows, deactivate_ineligible,
}
use preconfirmation_gateway.Polling.Active.{Active}
use preconfirmation_gateway.Polling.Stored.{Polled, poll_delegations-Polled}
use preconfirmation_gateway.Polling.Cleanup.{Spared, cleanup-Spared}
use preconfirmation_gateway.Tests.Data.{all_up, stored, delegation}

abbrev pub good : ValidatorInfo
good = record { is_active = true; is_slashed = false; validator_index = 7 }

abbrev pub all_good : Statuses
all_good n key = ok good

abbrev pub relay : ℕ → Result Error (List SignedDelegation)
relay slot = ok (delegation ∷ [])

poll_delegations-Polled_example :
    IsTable (
      poll_delegations
        (repeat 48 2)
        relay
        (λ slot. all_good)
        (λ slot. all_up)
        (λ slot n. n)
        1050
        1000
        1
        [])
    × All (Polled (repeat 48 2) (λ slot. all_good) (λ row. ⊥)) (
        poll_delegations
          (repeat 48 2)
          relay
          (λ slot. all_good)
          (λ slot. all_up)
          (λ slot n. n)
          1050
          1000
          1
          [])
poll_delegations-Polled_example =
    poll_delegations-Polled (repeat 48 2) relay (λ slot. all_good) (λ slot. all_up) (λ slot n. n)
      1050 1000 1 [] (λ row. ⊥) tt tt

cleaned : (cleanup_expired_delegations all_good all_up 4 (stored ∷ [])).0 ≡ ok tt
unfolding cleanup_expired_delegations deactivate_expired_delegations active_rows
    deactivate_ineligible deactivate_if
cleaned = refl

cleanup-Spared_example :
    All
      (Active (λ i k s. (4 ≤ s) × Spared all_good all_up k))
      (cleanup_expired_delegations all_good all_up 4 (stored ∷ [])).1
cleanup-Spared_example = cleanup-Spared all_good all_up 4 (stored ∷ []) (omega arith) cleaned

-- A cache of one entry that does not expire.
abbrev pub One : Type 0
One = Option (Bytes × ValidatorInfo)

abbrev pub look : Bytes → One → Option ValidatorInfo
look key none = none
look key (some (k, info)) = if bytes_eq key k then some info else none

abbrev pub one : Moka One
one = record {
  get = λ now key cache. look key cache;
  insert = λ now key info cache. some (key, info);
}

one-get-insert :
    (now later : ℕ) (key other : Bytes) (info found : ValidatorInfo) (cache : One)
    → look other (some (key, info)) ≡ some found
    → ((other ≡ key) × (found ≡ info)) ⊎ ((moment : ℕ) × (look other cache ≡ some found))
one-get-insert now later key other info found cache h = elim (Bool-cases (bytes_eq other key)) [
  | inl same ↦ (let h' = rw same at h in inl (bytes_eq→eq other key same, cc))
  | inr apart ↦ (let h' = rw apart at h in cc)
]

pub one-IsMoka : IsMoka One one
one-IsMoka = record { get-insert = one-get-insert }

get_status-Answered_example :
    IsSound one one-IsMoka
      (λ k info. info ≡ good)
      (get_status one all_good 0 9 (repeat 48 1) none).1
    × ((info : ValidatorInfo)
        → (get_status one all_good 0 9 (repeat 48 1) none).0 ≡ ok info
        → info ≡ good)
get_status-Answered_example =
    get_status-Answered one one-IsMoka (λ k info. info ≡ good) all_good 0 9 (repeat 48 1) none
      (λ m k info h. cc) (λ now key info h. absurd cc)
