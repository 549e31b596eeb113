-- ===== src/Polling/Active.antt =====
-- Properties of the rows that are in force, for the cleanup of src/services/delegation_polling.rs.
use preconfirmation_gateway.Common.{
  ℕ, ◌≡◌, ◌⊎◌, inl, inr, Bool, true, false, Bool-cases, List, [], ◌∷◌, map, ◌==◌, All,
}
use preconfirmation_gateway.Types.{Bytes}
use preconfirmation_gateway.Delegations.{DelegationRow, DelegationTable, has_id, deactivate_if}

-- The list has this entry.
abbrev pub Listed : ℕ × Bytes → List (ℕ × Bytes) → Type 0
Listed e [] = ⊥
Listed e (r ∷ rows) = (r ≡ e) ⊎ Listed e rows

-- Every row has the property if it is active.
abbrev pub Active : (ℕ → Bytes → ℕ → Type 0) → DelegationRow → Type 0
Active P row = row.is_active ≡ true → P row.id row.proposer_pubkey row.slot_number

pub deactivate-Active :
    (P : ℕ → Bytes → ℕ → Type 0) (q : DelegationRow → Bool) (row : DelegationRow)
    → Active P row
    → Active P (deactivate_if q row)
unfolding deactivate_if
deactivate-Active P q row h = elim (Bool-cases (q row)) [
  | inl hit ↦ rw (deactivate_if, hit) (λ a. absurd cc)
  | inr miss ↦ rw (deactivate_if, miss) h
]

pub map-Active :
    (P : ℕ → Bytes → ℕ → Type 0) (q : DelegationRow → Bool) (t : DelegationTable)
    → All (Active P) t
    → All (Active P) (map (deactivate_if q) t)
map-Active P q [] h = tt
map-Active P q (row ∷ t) h = (deactivate-Active P q row h.0, map-Active P q t h.1)

-- Rows that are deactivated by a test have, if active, failed it.
pub map-new :
    (id : ℕ) (t : DelegationTable)
    → All (Active (λ i k s. (i == id) ≡ false)) (map (deactivate_if (has_id id)) t)
unfolding deactivate_if
map-new id [] = tt
map-new id (row ∷ t) = (
  elim (Bool-cases (row.id == id)) [
    | inl hit ↦ rw (deactivate_if, hit) (λ a. absurd cc)
    | inr miss ↦ rw (deactivate_if, miss) (λ a. miss)
  ],
  map-new id t,
)

pub All-imp :
    (P Q : ℕ → Bytes → ℕ → Type 0) (t : DelegationTable)
    → ((i : ℕ) (k : Bytes) (s : ℕ) → P i k s → Q i k s)
    → All (Active P) t
    → All (Active Q) t
All-imp P Q [] f h = tt
All-imp P Q (row ∷ t) f h =
    ((λ a. f row.id row.proposer_pubkey row.slot_number (h.0 a)), All-imp P Q t f h.1)

pub All-both :
    (P Q : ℕ → Bytes → ℕ → Type 0) (t : DelegationTable)
    → All (Active P) t
    → All (Active Q) t
    → All (Active (λ i k s. P i k s × Q i k s)) t
All-both P Q [] h g = tt
All-both P Q (row ∷ t) h g = ((λ a. (h.0 a, g.0 a)), All-both P Q t h.1 g.1)

pub All-always :
    (P : ℕ → Bytes → ℕ → Type 0) (t : DelegationTable)
    → ((i : ℕ) (k : Bytes) (s : ℕ) → P i k s)
    → All (Active P) t
All-always P [] f = tt
All-always P (row ∷ t) f = ((λ a. f row.id row.proposer_pubkey row.slot_number), All-always P t f)
