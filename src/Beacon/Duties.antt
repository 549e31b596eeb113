-- ===== src/Beacon/Duties.antt =====
-- Theorems on `get_proposer_for_slot` of src/api/beacon.rs.
use preconfirmation_gateway.Common.{
  ℕ, ◌≡◌, ◌≢◌, ◌⊎◌, ◌∙◌, subst, refl, ap, arith, Bool-cases, inl, inr, Option, none, some, List, [],
  ◌∷◌, ok, >>=-eq-ok, ◌==◌, All, ==_iff, ok-injective,
}
use preconfirmation_gateway.Types.{ValidatorDuty}
use preconfirmation_gateway.Timing.{slot_to_epoch}
use preconfirmation_gateway.Beacon.{
  Network, BeaconApiConfig, BeaconJson, parse_slot, find_duty, get_proposer_duties,
  get_proposer_for_slot,
}

-- Some duty of the list is this one.
abbrev pub Among : ValidatorDuty → List ValidatorDuty → Type 0
Among duty [] = ⊥
Among duty (d ∷ ds) = (d ≡ duty) ⊎ Among duty ds

-- What a search of the duties for a slot answers.
abbrev pub Answers : ℕ → List ValidatorDuty → Option ValidatorDuty → Type 0
Answers slot duties (some duty) = Among duty duties × (parse_slot duty ≡ ok slot)
Answers slot duties none = All (λ d. (n : ℕ) × (parse_slot d ≡ ok n) × (n ≢ slot)) duties

Answers-step :
    (slot n : ℕ) (d : ValidatorDuty) (ds : List ValidatorDuty) (answer : Option ValidatorDuty)
    → parse_slot d ≡ ok n
    → n ≢ slot
    → Answers slot ds answer
    → Answers slot (d ∷ ds) answer
Answers-step slot n d ds none p ne h = ((n, p, ne), h)
Answers-step slot n d ds (some duty) p ne h = (inr h.0, h.1)

find_duty-Answers :
    (slot : ℕ) (duties : List ValidatorDuty) (answer : Option ValidatorDuty)
    → find_duty slot duties ≡ ok answer
    → Answers slot duties answer
unfolding find_duty
find_duty-Answers slot [] none h = tt
find_duty-Answers slot [] (some d) h = cc
find_duty-Answers slot (d ∷ ds) answer h =
    let (n, p, q) = >>=-eq-ok (parse_slot d) _ h in
    elim (Bool-cases (n == slot)) [
      | inl same ↦
          (let first = rw same at q in
            subst (Answers slot (d ∷ ds)) (ok-injective first)
              (inl refl, p ∙ ap ok ((==_iff n slot).0 same)))
      | inr other ↦
          (let rest = rw other at q in
            Answers-step slot n d ds answer p (λ e. absurd (ground (arith, e, other)))
              (find_duty-Answers slot ds answer rest))
    ]

-- A search for a slot's proposer that succeeds has asked for the duties of the slot's epoch, and answers
-- with one of them whose own slot is this one, or, where none is, has read the slot of every one.
pub get_proposer_for_slot-Answers :
    (json : BeaconJson) (net : Network) (config : BeaconApiConfig) (slot : ℕ)
    (answer : Option ValidatorDuty)
    → get_proposer_for_slot json net config slot ≡ ok answer
    → (duties : List ValidatorDuty) × (get_proposer_duties json net config (slot_to_epoch slot)
        ≡ ok duties)
      × Answers slot duties answer
unfolding get_proposer_for_slot
get_proposer_for_slot-Answers json net config slot answer h =
    let (duties, p, q) = >>=-eq-ok (get_proposer_duties json net config (slot_to_epoch slot)) _ h in
    (duties, p, find_duty-Answers slot duties answer q)
