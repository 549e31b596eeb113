-- ===== src/Congestion/Additive.antt =====
-- Theorems on sequences of `add_gas_usage`, of src/db/slot_congestion_ops.rs.
use preconfirmation_gateway.Common.{
  ℕ, ◌+◌, ◌≡◌, refl, ap, arith, List, [], ◌∷◌, min, u64_max, saturating_add, ◌∙◌, Bool-cases, inl,
  inr, ◌⊎◌, ◌==◌,
}
use preconfirmation_gateway.Float.{F64}
use preconfirmation_gateway.Congestion.{
  SlotCongestion, add_gas_usage, recompute, at_max_multiplier, with_ratio, gas_ratio,
}

saturating_add_assoc :
    (p a b : ℕ) → saturating_add (saturating_add p a) b ≡ saturating_add p (saturating_add a b)
saturating_add_assoc p a b = omega arith

abbrev pub total_gas : List ℕ → ℕ
total_gas [] = 0
total_gas (g ∷ gs) = g + total_gas gs

module _ {ℓ} {F : Type ℓ} ⦃f : F64 F⦄ where
  pub add_all : SlotCongestion F → List ℕ → F → SlotCongestion F
  add_all c [] k = c
  add_all c (g ∷ gs) k = add_all (add_gas_usage c g k) gs k

  recompute_cases :
      (c : SlotCongestion F) (k : F)
      → (recompute c k ≡ at_max_multiplier c)
        ⊎ (recompute c k ≡ with_ratio c (gas_ratio c.preconfirmed_gas c.total_gas_limit) k)
  unfolding recompute
  recompute_cases c k = elim (Bool-cases (c.total_gas_limit == 0)) [
    | inl p ↦ inl (rw p)
    | inr p ↦ elim (Bool-cases (f.is_finite (gas_ratio c.preconfirmed_gas c.total_gas_limit))) [
      | inl q ↦ inr (rw (p, q))
      | inr q ↦ inl (rw (p, q))
    ]
  ]

  -- Gas beyond the largest `u64` adds nothing more.
  pub add_gas_usage_cut :
      (c : SlotCongestion F) (g : ℕ) (k : F)
      → add_gas_usage c g k ≡ add_gas_usage c (min (g + 0) u64_max) k
  unfolding add_gas_usage
  add_gas_usage_cut c g k = ap (λ n. recompute (record c { preconfirmed_gas = n }) k) (omega arith)

  -- No derived field survives the next computation.
  recompute_overwrites :
      (c : SlotCongestion F) (n : ℕ) (k : F)
      → recompute (record (recompute c k) { preconfirmed_gas = n }) k
        ≡ recompute (record c { preconfirmed_gas = n }) k
  recompute_overwrites c n k = elim (recompute_cases c k) [
    | inl e ↦ rw e (unfold recompute in refl)
    | inr e ↦ rw e (unfold recompute in refl)
  ]

  pub preconfirmed_gas-add_gas_usage :
      (c : SlotCongestion F) (g : ℕ) (k : F)
      → (add_gas_usage c g k).preconfirmed_gas ≡ saturating_add c.preconfirmed_gas g
  unfolding add_gas_usage
  preconfirmed_gas-add_gas_usage c g k = ground arith

  -- The sum that the second addition stores, in terms of the first state.
  gas_of_two :
      (c : SlotCongestion F) (a b : ℕ) (k : F)
      → saturating_add (add_gas_usage c a k).preconfirmed_gas b
        ≡ saturating_add c.preconfirmed_gas (saturating_add a b)
  gas_of_two c a b k =
      rw preconfirmed_gas-add_gas_usage (saturating_add_assoc c.preconfirmed_gas a b)

  -- Two additions are one addition of the sum: no field remembers the intermediate state, also where
  -- the counter saturates and where a branch returns early.
  pub add_gas_usage-add_gas_usage :
      (c : SlotCongestion F) (a b : ℕ) (k : F)
      → add_gas_usage (add_gas_usage c a k) b k ≡ add_gas_usage c (saturating_add a b) k
  unfolding add_gas_usage
  add_gas_usage-add_gas_usage c a b k =
      recompute_overwrites (record c { preconfirmed_gas = saturating_add c.preconfirmed_gas a })
        (saturating_add (add_gas_usage c a k).preconfirmed_gas b) k
      ∙ ap (λ n. recompute (record c { preconfirmed_gas = n }) k) (gas_of_two c a b k)

  -- A run of additions, in whatever order and however split, leaves the state that one addition of
  -- their total (cut off at the largest `u64`) leaves.
  pub add_all-eq-add_total :
      (c : SlotCongestion F) (g : ℕ) (gs : List ℕ) (k : F)
      → add_all c (g ∷ gs) k ≡ add_gas_usage c (min (total_gas (g ∷ gs)) u64_max) k
  unfolding add_all
  add_all-eq-add_total c g [] k = add_gas_usage_cut c g k
  add_all-eq-add_total c g (h ∷ gs) k =
      add_all-eq-add_total (add_gas_usage c g k) h gs k
      ∙ add_gas_usage-add_gas_usage c g (min (h + total_gas gs) u64_max) k
      ∙ ap (λ n. add_gas_usage c n k) (omega arith)
