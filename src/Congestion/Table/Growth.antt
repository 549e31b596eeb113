-- ===== src/Congestion/Table/Growth.antt =====
-- Theorems on the growth of a row, of src/db/slot_congestion_ops.rs and src/services/fee_pricing.rs.
use preconfirmation_gateway.Common.{
  ℕ, ◌≤◌, ◌≡◌, ◌∙◌, refl, sym, ap, subst, arith, Bool, true, false, ◌||◌, List, [], ◌∷◌, ◌++◌, map,
  some, any, find, find-passes, ◌==◌, ==_iff, if◌then◌else◌, Result-cases, Option-cases, Bool-cases,
  inl, inr, u64_max, saturating_add,
}
use preconfirmation_gateway.Types.{Bytes}
use preconfirmation_gateway.Float.{F64}
use preconfirmation_gateway.Crates.{Crates}
use preconfirmation_gateway.Sql.{
  PgPool, insert_congestion, begin_update, lock_congestion, update_congestion, commit_update,
}
use preconfirmation_gateway.Congestion.{SlotCongestion, new, add_gas_usage}
use preconfirmation_gateway.Congestion.Table.{
  CongestionTable, has_slot, has_id, stored_at, with_id, insert_or_fetch,
  get_or_create_slot_congestion, start_time, slot_start_timestamp, update_row,
  update_slot_congestion_gas_usage,
}
use preconfirmation_gateway.Congestion.Table.Updates.{find-update_row, add_gas_usage-keeps}
use preconfirmation_gateway.Pricing.{
  FeePricingEngine, Oracle, calculate_fee_for_commitment, fee_at, estimate_gas_for_commitment,
  gas_price_as_u64_clamped,
}

find-append {ℓ} :
    {A : Type ℓ} (p : A → Bool) (xs ys : List A) (a : A)
    → find p xs ≡ some a
    → find p (xs ++ ys) ≡ some a
unfolding find
find-append p [] ys a h = cc
find-append p (x ∷ xs) ys a h = ground (arith, find-append p xs ys a)

module _ {ℓ} {F : Type ℓ} ⦃f : F64 F⦄ where
  -- A later row of the slot: the same base price and gas limit, and no less gas.
  pub record Grown (slot : ℕ) (row : SlotCongestion F) (table : CongestionTable F) : Type ℓ where
    pub later : SlotCongestion F
    pub found : find (has_slot slot) table ≡ some later
    pub same_base : later.base_gas_price ≡ row.base_gas_price
    pub same_limit : later.total_gas_limit ≡ row.total_gas_limit
    pub no_less : row.preconfirmed_gas ≤ later.preconfirmed_gas
    pub is_word : later.preconfirmed_gas ≤ u64_max

  add_gas_usage-gas :
      (c : SlotCongestion F) (gas : ℕ) (k : F)
      → (add_gas_usage c gas k).preconfirmed_gas ≡ saturating_add c.preconfirmed_gas gas
  unfolding add_gas_usage
  add_gas_usage-gas c gas k = ground arith

  update_row-other :
      (now : ℕ) (c r : SlotCongestion F) → (r.slot == c.slot) ≡ false → update_row now c r ≡ r
  unfolding update_row
  update_row-other now c r h = rw h refl

  update_row-keeps :
      (now : ℕ) (c r : SlotCongestion F)
      → ((update_row now c r).base_gas_price ≡ r.base_gas_price)
        × ((update_row now c r).total_gas_limit ≡ r.total_gas_limit)
        × ((update_row now c r).preconfirmed_gas
            ≡ (if r.slot == c.slot then c.preconfirmed_gas else r.preconfirmed_gas))
  unfolding update_row
  update_row-keeps now c r = (ground arith, ground arith, ground arith)

  module _ (slot : ℕ) (row : SlotCongestion F) where
    append-Grown :
        (t : CongestionTable F) (r : SlotCongestion F)
        → Grown slot row t
        → Grown slot row (t ++ r ∷ [])
    append-Grown t r g = record {
      later = g.later;
      found = find-append (has_slot slot) t (r ∷ []) g.later g.found;
      same_base = g.same_base;
      same_limit = g.same_limit;
      no_less = g.no_less;
      is_word = g.is_word;
    }

    insert-Grown :
        (pool : PgPool) (now id : ℕ) (c : SlotCongestion F) (t : CongestionTable F)
        → Grown slot row t
        → Grown slot row (insert_or_fetch pool now id c t).1
    unfolding insert_or_fetch
    insert-Grown pool now id c t g = elim (Bool-cases (pool insert_congestion)) [
      | inl down ↦ rw (insert_or_fetch, down) g
      | inr up ↦ elim (Bool-cases (any (has_slot c.slot) t)) [
        | inl there ↦ rw (insert_or_fetch, up, there) g
        | inr free ↦ elim (Bool-cases (any (has_id id) t)) [
          | inl taken ↦ rw (insert_or_fetch, up, free, taken) g
          | inr new_id ↦
              rw (insert_or_fetch, up, free, new_id)
                (append-Grown t (stored_at now (with_id id c)) g)
        ]
      ]
    ]

    get_or_create-Grown :
        (pool : PgPool) (now id at base limit genesis : ℕ) (t : CongestionTable F)
        → Grown slot row t
        → Grown slot row (get_or_create_slot_congestion pool now id at base limit genesis t).1
    unfolding get_or_create_slot_congestion
    get_or_create-Grown pool now id at base limit genesis t g =
        elim (Result-cases (start_time (slot_start_timestamp genesis at))) [
          | inr (e, p) ↦ rw (get_or_create_slot_congestion, p) g
          | inl (start, p) ↦
              rw (get_or_create_slot_congestion, p)
                (insert-Grown pool now id (new at base limit start) t g)
        ]

    pub fee-Grown :
        ⦃x : Crates⦄ (engine : FeePricingEngine F) (oracle : Oracle) (commitment_type : ℕ)
        (payload : Bytes) (at : ℕ) (t : CongestionTable F)
        → Grown slot row t
        → Grown slot row (calculate_fee_for_commitment engine oracle commitment_type payload at t).1
    unfolding calculate_fee_for_commitment fee_at
    fee-Grown engine oracle commitment_type payload at t g = elim (Result-cases oracle.gas_price) [
      | inr (e, p) ↦ rw (calculate_fee_for_commitment, p) g
      | inl (price, p) ↦ elim (Result-cases (estimate_gas_for_commitment commitment_type payload)) [
        | inr (e, q) ↦ rw (calculate_fee_for_commitment, p, q) g
        | inl (gas, q) ↦
            rw (calculate_fee_for_commitment, p, q)
              (get_or_create-Grown oracle.pool oracle.now oracle.id at
                (gas_price_as_u64_clamped price) engine.fee_config.default_gas_limit
                engine.genesis_time t g)
      ]
    ]

    -- The gas of the row after the addition: the row's own, or the sum.
    later_gas :
        (now at gas : ℕ) (k : F) (r : SlotCongestion F) (t : CongestionTable F)
        (g : Grown slot row t)
        → find (has_slot at) t ≡ some r
        → (update_row now (add_gas_usage r gas k) g.later).preconfirmed_gas ≡ (
            if slot == at
            then saturating_add g.later.preconfirmed_gas gas
            else g.later.preconfirmed_gas)
    later_gas now at gas k r t g h =
        let c = add_gas_usage r gas k in
        let keeps = (update_row-keeps now c g.later).2 in
        let at_r : (r.slot == at) ≡ true = find-passes (has_slot at) t r h in
        let at_later : (g.later.slot == slot) ≡ true =
          find-passes (has_slot slot) t g.later g.found in
        let c_slot : c.slot ≡ r.slot = (add_gas_usage-keeps r gas k).0 in
        let c_gas = add_gas_usage-gas r gas k in
        elim (Bool-cases (slot == at)) [
          | inr other ↦ ground (arith, keeps, at_r, at_later, c_slot, other)
          | inl equal ↦
              (let e : slot ≡ at = (==_iff slot at).0 equal in
                let again = subst (λ s. find (has_slot s) t ≡ some g.later) e g.found in
                let one : g.later ≡ r = (let both = sym again ∙ h in cc) in
                let gas_eq = ap (λ (q : SlotCongestion F). q.preconfirmed_gas) one in
                ground (arith, keeps, at_r, at_later, c_slot, equal, c_gas, gas_eq))
        ]

    map-Grown :
        (now at gas : ℕ) (k : F) (r : SlotCongestion F) (t : CongestionTable F)
        → find (has_slot at) t ≡ some r
        → Grown slot row t
        → Grown slot row (map (update_row now (add_gas_usage r gas k)) t)
    map-Grown now at gas k r t h g =
        let c = add_gas_usage r gas k in
        let keeps = update_row-keeps now c g.later in
        let gas_after = later_gas now at gas k r t g h in
        record {
          later = update_row now c g.later;
          found = find-update_row now slot c g.later t g.found;
          same_base = keeps.0 ∙ g.same_base;
          same_limit = keeps.1 ∙ g.same_limit;
          no_less = ground (arith, gas_after, g.no_less, g.is_word);
          is_word = ground (arith, gas_after, g.is_word);
        }

    pub update-Grown :
        (pool : PgPool) (now at gas : ℕ) (k : F) (t : CongestionTable F)
        → Grown slot row t
        → Grown slot row (update_slot_congestion_gas_usage pool now at gas k t).1
    unfolding update_slot_congestion_gas_usage
    update-Grown pool now at gas k t g =
        elim (Bool-cases (pool begin_update || pool lock_congestion)) [
          | inl down ↦ rw (update_slot_congestion_gas_usage, down) g
          | inr up ↦ elim (Option-cases (find (has_slot at) t)) [
            | inl p ↦ rw (update_slot_congestion_gas_usage, up, p) g
            | inr (r, p) ↦ elim (Bool-cases (pool update_congestion || pool commit_update)) [
              | inl down ↦ rw (update_slot_congestion_gas_usage, up, p, down) g
              | inr up' ↦
                  rw (update_slot_congestion_gas_usage, up, p, up') (map-Grown now at gas k r t p g)
            ]
          ]
        ]
