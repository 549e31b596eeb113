-- ===== src/Delegations/Stats/Counts.antt =====
-- Theorems on the statistics of src/db/delegation_ops.rs, and what an expiry does to them.
use preconfirmation_gateway.Common.{
  ℕ, suc, ◌≤◌, ◌≡◌, ◌∙◌, refl, ap, sym, subst, arith, Bool, false, ◌&&◌, some, List, [], ◌∷◌, map,
  select, length, bytes_eq, leb, ok, ok-injective, i64_max, Bool-cases, Option-cases, inl, inr, All,
}
use preconfirmation_gateway.Sql.{PgPool, delegation_stats, deactivate_expired}
use preconfirmation_gateway.Delegations.{
  DelegationRow, DelegationTable, deactivate_if, is_expired, deactivate_expired_delegations,
}
use preconfirmation_gateway.Delegations.Stats.{
  DelegationStats, distinct, largest, same_slot, in_force, stats_of, get_delegation_stats,
}

length-map {ℓ κ} :
    {A : Type ℓ} {B : Type κ} (g : A → B) (xs : List A) → length (map g xs) ≡ length xs
length-map g [] = refl
length-map g (x ∷ xs) = ap suc (length-map g xs)

length-distinct-le {ℓ} :
    {A : Type ℓ} (same : A → A → Bool) (xs : List A) → length (distinct same xs) ≤ length xs
unfolding distinct
length-distinct-le same [] = omega arith
length-distinct-le same (x ∷ xs) = ground (arith, length-distinct-le same xs)

distinct-map-le {ℓ κ} :
    {A : Type ℓ} {B : Type κ} (same : B → B → Bool) (g : A → B) (xs : List A)
    → length (distinct same (map g xs)) ≤ length xs
distinct-map-le same g xs =
    let fewer = length-distinct-le same (map g xs) in let equal = length-map g xs in omega arith

-- A largest number is one of them, as far as lower bounds go, and there is one where there are any.
largest-ge : (c : ℕ) (ns : List ℕ) (m : ℕ) → All (λ n. c ≤ n) ns → largest ns ≡ some m → c ≤ m
unfolding largest
largest-ge c [] m h e = cc
largest-ge c (n ∷ ns) m h e = elim (Option-cases (largest ns)) [
  | inl p ↦ (let here = h.0 in ground (arith, p, e, here))
  | inr (k, p) ↦ (let here = h.0 in ground (arith, p, e, here))
]

-- Rows that are in force after the expiry are those of the slots from the current one on.
select-expired :
    (c : ℕ) (t : DelegationTable)
    → c ≤ i64_max
    → select in_force (map (deactivate_if (is_expired c)) t)
      ≡ select (λ row. in_force row && leb c row.slot_number) t
unfolding select deactivate_if
select-expired c [] fits = refl
select-expired c (row ∷ t) fits = ground (arith, select-expired c t fits)

slots-ge :
    (c : ℕ) (t : DelegationTable)
    → All
        (λ n. c ≤ n)
        (map
          (λ (row : DelegationRow). row.slot_number)
          (select (λ row. in_force row && leb c row.slot_number) t))
unfolding select
slots-ge c [] = tt
slots-ge c (row ∷ t) = elim (Bool-cases (in_force row && leb c row.slot_number)) [
  | inl kept ↦ rw (select, kept) (ground (arith, kept), slots-ge c t)
  | inr left ↦ rw (select, left) (slots-ge c t)
]

map-deactivate {κ} :
    {B : Type κ} (g : DelegationRow → B) (p : DelegationRow → Bool) (t : DelegationTable)
    → ((row : DelegationRow) → g (deactivate_if p row) ≡ g row)
    → map g (map (deactivate_if p) t) ≡ map g t
map-deactivate g p [] h = refl
map-deactivate g p (row ∷ t) h =
    ap (λ b. b ∷ map g (map (deactivate_if p) t)) (h row)
    ∙ ap (λ l. g row ∷ l) (map-deactivate g p t h)

deactivate_if-keys :
    (p : DelegationRow → Bool) (row : DelegationRow)
    → ((deactivate_if p row).proposer_pubkey ≡ row.proposer_pubkey)
      × ((deactivate_if p row).delegate_pubkey ≡ row.delegate_pubkey)
unfolding deactivate_if
deactivate_if-keys p row = (ground arith, ground arith)

-- What the statistics say where the query succeeds.
get_delegation_stats-ok :
    (pool : PgPool) (t : DelegationTable) (s : DelegationStats)
    → get_delegation_stats pool t ≡ ok s
    → stats_of t ≡ s
unfolding get_delegation_stats
get_delegation_stats-ok pool t s h = elim (Bool-cases (pool delegation_stats)) [
  | inl down ↦ (let h' = rw (get_delegation_stats, down) at h in cc)
  | inr up ↦ ok-injective (rw (get_delegation_stats, up) at h)
]

expired :
    (pool : PgPool) (c : ℕ) (t : DelegationTable)
    → pool deactivate_expired ≡ false
    → (deactivate_expired_delegations pool c t).1 ≡ map (deactivate_if (is_expired c)) t
unfolding deactivate_expired_delegations
expired pool c t up = rw up refl

-- The statistics of a table and of what an expiry leaves of it.
record AreExpired (c : ℕ) (t : DelegationTable) (before after : DelegationStats) : Type 0 where
  total : after.total_count ≡ before.total_count
  proposers : after.unique_proposers ≡ before.unique_proposers
  delegates : after.unique_delegates ≡ before.unique_delegates
  active : after.active_count ≡ length (select (λ row. in_force row && leb c row.slot_number) t)
  covered : after.slots_covered ≤ after.active_count
  latest : (slot : ℕ) → after.latest_slot ≡ some slot → c ≤ slot

stats_of-expired :
    (c : ℕ) (t : DelegationTable)
    → c ≤ i64_max
    → AreExpired c t (stats_of t) (stats_of (map (deactivate_if (is_expired c)) t))
unfolding stats_of
stats_of-expired c t fits =
    let p = is_expired c in
    let t' = map (deactivate_if p) t in
    let kept = select-expired c t fits in
    record {
      total = length-map (deactivate_if p) t;
      proposers =
          ap (λ l. length (distinct bytes_eq l))
            (map-deactivate (λ (row : DelegationRow). row.proposer_pubkey) p t
              (λ row. (deactivate_if-keys p row).0));
      delegates =
          ap (λ l. length (distinct bytes_eq l))
            (map-deactivate (λ (row : DelegationRow). row.delegate_pubkey) p t
              (λ row. (deactivate_if-keys p row).1));
      active = ap (λ (l : DelegationTable). length l) kept;
      covered =
          distinct-map-le same_slot (λ (row : DelegationRow). row.slot_number) (select in_force t');
      latest = (λ slot e.
          largest-ge c (map (λ (row : DelegationRow). row.slot_number) (select in_force t')) slot
            (subst
              (λ (l : DelegationTable).
                All (λ n. c ≤ n) (map (λ (row : DelegationRow). row.slot_number) l))
              (sym kept) (slots-ge c t))
            e);
    }

-- The statistics after an expiry that succeeds: the counts of all rows, of their proposers and of their
-- delegates are as before; the active rows are those that were active for the current slot or
-- a later one, and cover no more slots than they are; and the latest slot, where there is one, is not
-- before the current.
pub get_delegation_stats-expired :
    (pool later : PgPool) (current_slot : ℕ) (t : DelegationTable) (before after : DelegationStats)
    → current_slot ≤ i64_max
    → pool deactivate_expired ≡ false
    → get_delegation_stats later t ≡ ok before
    → get_delegation_stats later (deactivate_expired_delegations pool current_slot t).1 ≡ ok after
    → (after.total_count ≡ before.total_count)
      × (after.unique_proposers ≡ before.unique_proposers)
      × (after.unique_delegates ≡ before.unique_delegates)
      × (after.active_count
          ≡ length (select (λ row. in_force row && leb current_slot row.slot_number) t))
      × (after.slots_covered ≤ after.active_count)
      × ((slot : ℕ) → after.latest_slot ≡ some slot → current_slot ≤ slot)
get_delegation_stats-expired pool later c t before after fits up h k =
    let t' = map (deactivate_if (is_expired c)) t in
    let of_before = get_delegation_stats-ok later t before h in
    let of_after =
      get_delegation_stats-ok later t' after
        (subst (λ u. get_delegation_stats later u ≡ ok after) (expired pool c t up) k) in
    let e =
      subst (λ s. AreExpired c t s after) of_before
        (subst (AreExpired c t (stats_of t)) of_after (stats_of-expired c t fits)) in
    (e.total, e.proposers, e.delegates, e.active, e.covered, e.latest)
