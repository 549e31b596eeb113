-- ===== src/Congestion/Table/Rows.antt =====
-- Theorems on the validity of the table of src/db/slot_congestion_ops.rs.
use preconfirmation_gateway.Common.{
  ℕ, ◌≡◌, ◌∙◌, refl, ap, arith, false, Result-cases, Option-cases, inl, inr, [], ◌∷◌, ◌++◌, map,
  any, find, any-append, any-map, ◌==◌,
}
use preconfirmation_gateway.Float.{F64, IsIeee}
use preconfirmation_gateway.Sql.{PgPool}
use preconfirmation_gateway.Congestion.{SlotCongestion, new, add_gas_usage}
use preconfirmation_gateway.Congestion.Clamp.{InRange, lit-Finite, lit_mono}
use preconfirmation_gateway.Congestion.Bounds.{add_gas_usage-InRange}
use preconfirmation_gateway.Congestion.Table.{
  CongestionTable, has_slot, has_id, id_of, start_time, slot_start_timestamp, with_id, stored_at,
  insert_or_fetch, get_or_create_slot_congestion, update_row, update_slot_congestion_gas_usage,
}

slot_comm : (a b : ℕ) → (a == b) ≡ (b == a)
slot_comm a b = ground arith

module _ {ℓ} {F : Type ℓ} ⦃f : F64 F⦄ where
  -- A slot and an id stand once, and every multiplier is finite and lies in [1, 100].
  abbrev pub IsTable : CongestionTable F → Type ℓ
  IsTable [] = Unit
  IsTable (r ∷ rs) =
      (any (has_slot r.slot) rs ≡ false)
      × (any (has_id (id_of r.id)) rs ≡ false)
      × InRange r.calculated_fee_multiplier
      × IsTable rs

  IsTable-append :
      (t : CongestionTable F) (r : SlotCongestion F)
      → IsTable t
      → any (has_slot r.slot) t ≡ false
      → any (has_id (id_of r.id)) t ≡ false
      → InRange r.calculated_fee_multiplier
      → IsTable (t ++ r ∷ [])
  unfolding any
  IsTable-append [] r v s i m = (refl, refl, m, tt)
  IsTable-append (q ∷ t) r v s i m =
      let rest = IsTable-append t r v.3 in
      ground (
        arith,
        rest,
        any-append (has_slot q.slot) t (r ∷ []),
        any-append (has_id (id_of q.id)) t (r ∷ []),
        slot_comm q.slot r.slot,
        slot_comm (id_of q.id) (id_of r.id),
      )

  update_row-keys :
      (now : ℕ) (c r : SlotCongestion F)
      → ((update_row now c r).slot ≡ r.slot) × ((update_row now c r).id ≡ r.id)
  unfolding update_row
  update_row-keys now c r = (ground arith, ground arith)

  update_row-InRange :
      (now : ℕ) (c r : SlotCongestion F)
      → InRange c.calculated_fee_multiplier
      → InRange r.calculated_fee_multiplier
      → InRange (update_row now c r).calculated_fee_multiplier
  unfolding update_row
  update_row-InRange now c r m n = ground (arith, m, n)

  map-update_row-IsTable :
      (now : ℕ) (c : SlotCongestion F) (t : CongestionTable F)
      → InRange c.calculated_fee_multiplier
      → IsTable t
      → IsTable (map (update_row now c) t)
  map-update_row-IsTable now c [] m v = tt
  map-update_row-IsTable now c (r ∷ t) m v = (
    rw (update_row-keys now c r).0 (
        any-map (has_slot r.slot) (has_slot r.slot) (update_row now c) t
          (λ q. ap (λ k. k == r.slot) (update_row-keys now c q).0)
        ∙ v.0),
    rw (update_row-keys now c r).1 (
        any-map (has_id (id_of r.id)) (has_id (id_of r.id)) (update_row now c) t
          (λ q. ap (λ k. id_of k == id_of r.id) (update_row-keys now c q).1)
        ∙ v.1),
    update_row-InRange now c r m v.2,
    map-update_row-IsTable now c t m v.3,
  )

  module _ (laws : IsIeee F) where
    insert_or_fetch-IsTable :
        (pool : PgPool) (now id : ℕ) (c : SlotCongestion F) (t : CongestionTable F)
        → InRange c.calculated_fee_multiplier
        → IsTable t
        → IsTable (insert_or_fetch pool now id c t).1
    unfolding insert_or_fetch
    insert_or_fetch-IsTable pool now id c t m v =
        ground (arith, IsTable-append t (stored_at now (with_id id c)) v)

    new-InRange :
        (slot base limit start : ℕ)
        → InRange (new {F = F} slot base limit start).calculated_fee_multiplier
    unfolding new
    new-InRange slot base limit start = record {
      above = lit_mono laws 1 1 (omega arith);
      below = lit_mono laws 1 100 (omega arith);
      finite = lit-Finite laws 1 (omega arith);
    }

    -- Fetching or creating the row of a slot keeps the table valid, and so does an update: a slot has one
    -- row, with a finite multiplier in [1, 100], also where the call fails.
    pub congestion-IsTable :
        (pool : PgPool) (now id slot base limit genesis gas : ℕ) (k : F) (t : CongestionTable F)
        → IsTable t
        → IsTable (get_or_create_slot_congestion pool now id slot base limit genesis t).1
          × IsTable (update_slot_congestion_gas_usage pool now slot gas k t).1
    unfolding get_or_create_slot_congestion update_slot_congestion_gas_usage
    congestion-IsTable pool now id slot base limit genesis gas k t v = (
      elim (Result-cases (start_time (slot_start_timestamp genesis slot))) [
        | inr (e, p) ↦ rw (get_or_create_slot_congestion, p) v
        | inl (start, p) ↦
            rw (get_or_create_slot_congestion, p)
              (insert_or_fetch-IsTable pool now id (new slot base limit start) t
                (new-InRange slot base limit start) v)
      ],
      elim (Option-cases (find (has_slot slot) t)) [
        | inl p ↦ rw (update_slot_congestion_gas_usage, p) (ground (arith, v))
        | inr (row, p) ↦
            rw (update_slot_congestion_gas_usage, p)
              (ground (
                arith,
                v,
                map-update_row-IsTable now (add_gas_usage row gas k) t
                    (add_gas_usage-InRange laws row gas k) v,
              ))
      ],
    )
