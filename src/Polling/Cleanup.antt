-- ===== src/Polling/Cleanup.antt =====
-- Theorems on `cleanup_expired_delegations` of src/services/delegation_polling.rs.
use preconfirmation_gateway.Common.{
  ℕ, suc, ◌≡◌, ◌⊎◌, inl, inr, refl, ap, sym, subst, arith, true, false, Bool-cases, List, [], ◌∷◌,
  map, select, length, ◌==◌, All, i64_max, ◌≤◌, ok, err,
}
use preconfirmation_gateway.Types.{Bytes}
use preconfirmation_gateway.Error.{database_failure}
use preconfirmation_gateway.Sql.{PgPool, active_delegations, deactivate_by_id, deactivate_expired}
use preconfirmation_gateway.Delegations.{
  DelegationRow, DelegationTable, has_id, is_expired, deactivate_if, deactivate_expired_delegations,
}
use preconfirmation_gateway.Polling.Active.{
  Listed, Active, map-Active, map-new, All-imp, All-both, All-always,
}
use preconfirmation_gateway.Polling.{
  Statuses, is_ineligible, active_rows, deactivate_ineligible, cleanup_expired_delegations,
}

not-same : (i j : ℕ) → (i == j) ≡ false → j ≡ i → ⊥
not-same i j h e = absurd (ground (arith, h, e))

module _ (statuses : Statuses) (pool : PgPool) where
  -- The cache has not called the validator slashed or inactive, or its key is no key.
  abbrev pub Spared : Bytes → Type 0
  Spared key = ((length key == 48) ≡ false) ⊎ ((n : ℕ) × (is_ineligible (statuses n key) ≡ false))

  loop-Active :
      (P : ℕ → Bytes → ℕ → Type 0) (n : ℕ) (rows : List (ℕ × Bytes)) (t : DelegationTable)
      → All (Active P) t
      → All (Active P) (deactivate_ineligible statuses pool n rows t).1
  unfolding deactivate_ineligible
  loop-Active P n [] t h = h
  loop-Active P n (row ∷ rows) t h = elim (Bool-cases (length row.1 == 48)) [
    | inr short ↦ rw (deactivate_ineligible, short) (loop-Active P n rows t h)
    | inl full ↦ elim (Bool-cases (is_ineligible (statuses n row.1))) [
      | inr good ↦ rw (deactivate_ineligible, full, good) (loop-Active P (suc n) rows t h)
      | inl bad ↦ elim (Bool-cases (pool (deactivate_by_id row.0))) [
        | inl down ↦ rw (deactivate_ineligible, full, bad, down) h
        | inr up ↦
            rw (deactivate_ineligible, full, bad, up)
              (loop-Active P (suc n) rows (map (deactivate_if (has_id row.0)) t)
                (map-Active P (has_id row.0) t h))
      ]
    ]
  ]

  abbrev SparedIn : List (ℕ × Bytes) → ℕ → Bytes → ℕ → Type 0
  SparedIn rows i k s = Listed (i, k) rows → Spared k

  Spared-cons :
      (row : ℕ × Bytes) (rows : List (ℕ × Bytes)) (t : DelegationTable)
      → Spared row.1
      → All (Active (SparedIn rows)) t
      → All (Active (SparedIn (row ∷ rows))) t
  Spared-cons row rows t now h =
      All-imp (SparedIn rows) (SparedIn (row ∷ rows)) t
        (λ i k s rest l. elim l [
          | inl same ↦ subst Spared (ap (λ e. e.1) same) now
          | inr later ↦ rest later
        ])
        h

  loop-Spared :
      (n : ℕ) (rows : List (ℕ × Bytes)) (t : DelegationTable)
      → (deactivate_ineligible statuses pool n rows t).0 ≡ ok tt
      → All (Active (SparedIn rows)) (deactivate_ineligible statuses pool n rows t).1
  unfolding deactivate_ineligible
  loop-Spared n [] t h = All-always (SparedIn []) t (λ i k s l. absurd l)
  loop-Spared n (row ∷ rows) t h = elim (Bool-cases (length row.1 == 48)) [
    | inr short ↦
        rw (deactivate_ineligible, short)
          (Spared-cons row rows (deactivate_ineligible statuses pool n rows t).1 (inl short)
            (loop-Spared n rows t (rw (deactivate_ineligible, short) at h)))
    | inl full ↦ elim (Bool-cases (is_ineligible (statuses n row.1))) [
      | inr good ↦
          rw (deactivate_ineligible, full, good)
            (Spared-cons row rows (deactivate_ineligible statuses pool (suc n) rows t).1
              (inr (n, good))
              (loop-Spared (suc n) rows t (rw (deactivate_ineligible, full, good) at h)))
      | inl bad ↦ elim (Bool-cases (pool (deactivate_by_id row.0))) [
        | inl down ↦ (let h' = rw (deactivate_ineligible, full, bad, down) at h in cc)
        | inr up ↦
            (let t' = map (deactivate_if (has_id row.0)) t in
              let others = λ (i : ℕ) (k : Bytes) (s : ℕ). (i == row.0) ≡ false in
              let rest =
                loop-Spared (suc n) rows t' (rw (deactivate_ineligible, full, bad, up) at h) in
              let apart = loop-Active others (suc n) rows t' (map-new row.0 t) in
              rw (deactivate_ineligible, full, bad, up)
                (All-imp (λ i k s. SparedIn rows i k s × others i k s) (SparedIn (row ∷ rows))
                  (deactivate_ineligible statuses pool (suc n) rows t').1
                  (λ i k s both l. elim l [
                    | inl same ↦ absurd (not-same i row.0 both.1 (ap (λ e. e.0) same))
                    | inr later ↦ both.0 later
                  ])
                  (All-both (SparedIn rows) others
                    (deactivate_ineligible statuses pool (suc n) rows t').1 rest apart)))
      ]
    ]
  ]

  active_rows-cons :
      (row : DelegationRow) (t : DelegationTable)
      → (row.is_active ≡ true
          → active_rows (row ∷ t) ≡ (row.id, row.proposer_pubkey) ∷ active_rows t)
        × (row.is_active ≡ false → active_rows (row ∷ t) ≡ active_rows t)
  unfolding active_rows
  active_rows-cons row t = ((λ on. rw (active_rows, on) refl), (λ off. rw (active_rows, off) refl))

  active_rows-Listed :
      (t : DelegationTable) → All (Active (λ i k s. Listed (i, k) (active_rows t))) t
  active_rows-Listed [] = tt
  active_rows-Listed (row ∷ t) = elim (Bool-cases row.is_active) [
    | inl on ↦
        subst (λ rows. All (Active (λ i k s. Listed (i, k) rows)) (row ∷ t))
          (sym ((active_rows-cons row t).0 on))
          (
            (λ a. inl refl),
            All-imp (λ i k s. Listed (i, k) (active_rows t))
                (λ i k s. Listed (i, k) ((row.id, row.proposer_pubkey) ∷ active_rows t)) t
                (λ i k s l. inr l) (active_rows-Listed t),
          )
    | inr off ↦
        subst (λ rows. All (Active (λ i k s. Listed (i, k) rows)) (row ∷ t))
          (sym ((active_rows-cons row t).1 off)) ((λ a. absurd cc), active_rows-Listed t)
  ]

  expired :
      (current : ℕ) (t : DelegationTable)
      → pool deactivate_expired ≡ false
      → deactivate_expired_delegations pool current t
        ≡ (ok (length (select (is_expired current) t)), map (deactivate_if (is_expired current)) t)
  unfolding deactivate_expired_delegations
  expired current t up = rw (deactivate_expired_delegations, up) refl

  failed_expiry :
      (current : ℕ) (t : DelegationTable)
      → pool deactivate_expired ≡ true
      → deactivate_expired_delegations pool current t ≡ (err database_failure, t)
  unfolding deactivate_expired_delegations
  failed_expiry current t down = rw (deactivate_expired_delegations, down) refl

  unexpired :
      (current : ℕ) (t : DelegationTable)
      → current ≤ i64_max
      → All (Active (λ i k s. current ≤ s)) (map (deactivate_if (is_expired current)) t)
  unfolding deactivate_if
  unexpired current [] fits = tt
  unexpired current (row ∷ t) fits = ((λ a. ground arith), unexpired current t fits)

  -- A cleanup that succeeds leaves a delegation in force only if its slot has not passed and the cache of
  -- validators did not call its proposer slashed or inactive (it had no answer, or a good one), or the
  -- key of the proposer has not 48 bytes.
  pub cleanup-Spared :
      (current_slot : ℕ) (t : DelegationTable)
      → current_slot ≤ i64_max
      → (cleanup_expired_delegations statuses pool current_slot t).0 ≡ ok tt
      → All
          (Active (λ i k s. (current_slot ≤ s) × Spared k))
          (cleanup_expired_delegations statuses pool current_slot t).1
  unfolding cleanup_expired_delegations
  cleanup-Spared current_slot t fits h = elim (Bool-cases (pool deactivate_expired)) [
    | inl down ↦
        (let h' = rw (cleanup_expired_delegations, failed_expiry current_slot t down) at h in cc)
    | inr up ↦ elim (Bool-cases (pool active_delegations)) [
      | inl down ↦
          (let h' = rw (cleanup_expired_delegations, expired current_slot t up, down) at h in cc)
      | inr up' ↦
          (let t' = map (deactivate_if (is_expired current_slot)) t in
            let rows = active_rows t' in
            let after = (deactivate_ineligible statuses pool 0 rows t').1 in
            let h' =
              rw
                (
                  cleanup_expired_delegations,
                  expired current_slot t up,
                  up',
                  expired current_slot t up,
                )
                at h in
            let spared = loop-Spared 0 rows t' h' in
            let listed =
              loop-Active (λ i k s. Listed (i, k) rows) 0 rows t' (active_rows-Listed t') in
            let late =
              loop-Active (λ i k s. current_slot ≤ s) 0 rows t' (unexpired current_slot t fits) in
            rw
              (
                cleanup_expired_delegations,
                expired current_slot t up,
                up',
                expired current_slot t up,
              )
              (All-imp (λ i k s. ((current_slot ≤ s) × Listed (i, k) rows) × SparedIn rows i k s)
                (λ i k s. (current_slot ≤ s) × Spared k) after
                (λ i k s all. (all.0.0, all.1 all.0.1))
                (All-both (λ i k s. (current_slot ≤ s) × Listed (i, k) rows) (SparedIn rows) after
                  (All-both (λ i k s. current_slot ≤ s) (λ i k s. Listed (i, k) rows) after late
                    listed)
                  spared)))
    ]
  ]
