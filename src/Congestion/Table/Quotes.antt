-- ===== src/Congestion/Table/Quotes.antt =====
-- Theorems on `get_or_create_slot_congestion` of src/db/slot_congestion_ops.rs, and what follows
-- it.
use preconfirmation_gateway.Common.{
  ℕ, ◌≡◌, ◌∙◌, refl, ap, subst, arith, true, false, Bool-cases, Result-cases, inl, inr, Option,
  some, [], ◌∷◌, any, find, find-append_none, ok, ◌==◌, ok_or-eq-ok, >>=-eq-ok, ok-injective,
}
use preconfirmation_gateway.Error.{not_found}
use preconfirmation_gateway.Float.{F64}
use preconfirmation_gateway.Sql.{PgPool, select_congestion, insert_congestion}
use preconfirmation_gateway.Congestion.{SlotCongestion, new, add_gas_usage}
use preconfirmation_gateway.Congestion.Table.{
  CongestionTable, has_slot, has_id, start_time, slot_start_timestamp, get_slot_congestion,
  insert_or_fetch, with_id, stored_at, get_or_create_slot_congestion,
  update_slot_congestion_gas_usage,
}
use preconfirmation_gateway.Congestion.Table.Updates.{prices, IsUp, update-table}

==_refl : (n : ℕ) → (n == n) ≡ true
==_refl n = ground arith

module _ {ℓ} {F : Type ℓ} ⦃f : F64 F⦄ where
  -- Two congestions that price alike, also after more gas.
  abbrev pub SamePrices : SlotCongestion F → SlotCongestion F → Type ℓ
  SamePrices c r =
      (prices r ≡ prices c)
      × ((gas : ℕ) (k : F) → prices (add_gas_usage r gas k) ≡ prices (add_gas_usage c gas k))

  add_gas_usage-stored_at :
      (now gas : ℕ) (c : SlotCongestion F) (k : F)
      → prices (add_gas_usage (stored_at now c) gas k) ≡ prices (add_gas_usage c gas k)
  unfolding add_gas_usage
  add_gas_usage-stored_at now gas c k = ground arith

  find-any :
      (slot : ℕ) (t : CongestionTable F) (r : SlotCongestion F)
      → find (has_slot slot) t ≡ some r
      → any (has_slot slot) t ≡ true
  unfolding find any
  find-any slot [] r h = cc
  find-any slot (q ∷ t) r h = ground (arith, find-any slot t r)

  get-ok :
      (pool : PgPool) (slot : ℕ) (t : CongestionTable F) (row : Option (SlotCongestion F))
      → get_slot_congestion pool slot t ≡ ok row
      → find (has_slot slot) t ≡ row
  unfolding get_slot_congestion
  get-ok pool slot t row h = elim (Bool-cases (pool select_congestion)) [
    | inl down ↦ (let h' = rw (get_slot_congestion, down) at h in cc)
    | inr up ↦ ok-injective (rw (get_slot_congestion, up) at h)
  ]

  insert_or_fetch-found :
      (pool : PgPool) (now id : ℕ) (c₀ c : SlotCongestion F) (t : CongestionTable F)
      → (insert_or_fetch pool now id c₀ t).0 ≡ ok c
      → (r : SlotCongestion F) × (find (has_slot c₀.slot) (insert_or_fetch pool now id c₀ t).1
          ≡ some r)
        × SamePrices c r
  unfolding insert_or_fetch
  insert_or_fetch-found pool now id c₀ c t h = elim (Bool-cases (pool insert_congestion)) [
    | inl down ↦ (let h' = rw (insert_or_fetch, down) at h in cc)
    | inr up ↦ elim (Bool-cases (any (has_slot c₀.slot) t)) [
      | inl there ↦
          rw (insert_or_fetch, up, there)
            (let h' = rw (insert_or_fetch, up, there) at h in
              let (row, p, q) = >>=-eq-ok (get_slot_congestion pool c₀.slot t) _ h' in
              (c, get-ok pool c₀.slot t row p ∙ ok_or-eq-ok row not_found q, (refl, λ gas k. refl)))
      | inr absent ↦ elim (Bool-cases (any (has_id id) t)) [
        | inl used ↦ (let h' = rw (insert_or_fetch, up, absent, used) at h in cc)
        | inr free ↦
            rw (insert_or_fetch, up, absent, free)
              (let same = ok-injective (rw (insert_or_fetch, up, absent, free) at h) in
                let row = stored_at now (with_id id c₀) in
                (
                  row,
                  find-append_none (has_slot c₀.slot) t row absent (==_refl c₀.slot),
                  subst (λ c'. SamePrices c' row) same
                      (refl, λ gas k. add_gas_usage-stored_at now gas (with_id id c₀) k),
                ))
      ]
    ]
  ]

  insert_or_fetch-there :
      (pool : PgPool) (now id : ℕ) (c₀ r : SlotCongestion F) (t : CongestionTable F)
      → pool insert_congestion ≡ false
      → pool select_congestion ≡ false
      → find (has_slot c₀.slot) t ≡ some r
      → insert_or_fetch pool now id c₀ t ≡ (ok r, t)
  unfolding insert_or_fetch get_slot_congestion
  insert_or_fetch-there pool now id c₀ r t up up' h =
      rw (insert_or_fetch, up, find-any c₀.slot t r h, up', h) refl

  get_or_create-found :
      (pool : PgPool) (now id slot base limit genesis : ℕ) (c : SlotCongestion F)
      (t : CongestionTable F)
      → (get_or_create_slot_congestion pool now id slot base limit genesis t).0 ≡ ok c
      → (r : SlotCongestion F) × (find
            (has_slot slot)
            (get_or_create_slot_congestion pool now id slot base limit genesis t).1
          ≡ some r)
        × SamePrices c r
  unfolding get_or_create_slot_congestion new
  get_or_create-found pool now id slot base limit genesis c t h =
      elim (Result-cases (start_time (slot_start_timestamp genesis slot))) [
        | inr (e, p) ↦ (let h' = rw (get_or_create_slot_congestion, p) at h in cc)
        | inl (start, p) ↦
            rw (get_or_create_slot_congestion, p)
              (insert_or_fetch-found pool now id (new slot base limit start) c t
                (rw (get_or_create_slot_congestion, p) at h))
      ]

  -- Where the row of a slot was fetched or created, an update of the slot with the database up succeeds,
  -- and the gas, ratio, multiplier and price it returns are those of adding the gas to the congestion
  -- that was returned.
  pub update-get_or_create :
      (pool later : PgPool) (now id slot base limit genesis gas moment : ℕ) (k : F)
      (c : SlotCongestion F) (t : CongestionTable F)
      → (get_or_create_slot_congestion pool now id slot base limit genesis t).0 ≡ ok c
      → IsUp later
      → (row : SlotCongestion F) × ((update_slot_congestion_gas_usage later moment slot gas k
            (get_or_create_slot_congestion pool now id slot base limit genesis t).1).0
          ≡ ok row)
        × (prices row ≡ prices (add_gas_usage c gas k))
  update-get_or_create pool later now id slot base limit genesis gas moment k c t h up =
      let (r, p, same) = get_or_create-found pool now id slot base limit genesis c t h in
      (
        add_gas_usage r gas k,
        ap (λ s. s.0)
            (update-table later moment slot gas k r
              (get_or_create_slot_congestion pool now id slot base limit genesis t).1 up p),
        same.1 gas k,
      )

  again :
      (now id slot base limit genesis start : ℕ) (r : SlotCongestion F) (t : CongestionTable F)
      (pool : PgPool)
      → start_time (slot_start_timestamp genesis slot) ≡ ok start
      → pool insert_congestion ≡ false
      → pool select_congestion ≡ false
      → find (has_slot slot) t ≡ some r
      → get_or_create_slot_congestion pool now id slot base limit genesis t ≡ (ok r, t)
  unfolding get_or_create_slot_congestion new
  again now id slot base limit genesis start r t pool q up up' p =
      rw (get_or_create_slot_congestion, q)
        (insert_or_fetch-there pool now id (new slot base limit start) r t up up' p)

  -- The base price of a slot is the one of the first quote: a later call for the slot, at whatever gas
  -- price and limit, finds a congestion of the same prices, and leaves the table as it is.
  pub get_or_create-again :
      (pool later : PgPool) (now id slot base limit genesis now' id' base' limit' : ℕ)
      (c : SlotCongestion F) (t : CongestionTable F)
      → (get_or_create_slot_congestion pool now id slot base limit genesis t).0 ≡ ok c
      → later insert_congestion ≡ false
      → later select_congestion ≡ false
      → let t' = (get_or_create_slot_congestion pool now id slot base limit genesis t).1 in
        (r : SlotCongestion F) × (get_or_create_slot_congestion later now' id' slot base' limit'
            genesis t'
          ≡ (ok r, t'))
        × (prices r ≡ prices c)
  unfolding get_or_create_slot_congestion
  get_or_create-again pool later now id slot base limit genesis now' id' base' limit' c t h up up' =
      let (r, p, same) = get_or_create-found pool now id slot base limit genesis c t h in
      let t' = (get_or_create_slot_congestion pool now id slot base limit genesis t).1 in
      elim (Result-cases (start_time (slot_start_timestamp genesis slot))) [
        | inr (e, q) ↦ (let h' = rw (get_or_create_slot_congestion, q) at h in cc)
        | inl (start, q) ↦
            (r, again now' id' slot base' limit' genesis start r t' later q up up' p, same.0)
      ]
