-- ===== src/Congestion/Table/Updates.antt =====
-- Theorems on sequences of `update_slot_congestion_gas_usage`, of src/db/slot_congestion_ops.rs.
use preconfirmation_gateway.Common.{
  ℕ, ◌+◌, min, ◌≡◌, ◌∙◌, refl, ap, arith, false, some, List, [], ◌∷◌, map, find, ok, u64_max,
}
use preconfirmation_gateway.Float.{F64}
use preconfirmation_gateway.Sql.{
  PgPool, begin_update, lock_congestion, update_congestion, commit_update,
}
use preconfirmation_gateway.Congestion.{SlotCongestion, add_gas_usage}
use preconfirmation_gateway.Congestion.Additive.{add_gas_usage-add_gas_usage, add_gas_usage_cut}
use preconfirmation_gateway.Congestion.Table.{
  CongestionTable, has_slot, update_row, update_slot_congestion_gas_usage,
}

-- The columns that the price of a slot rests on.
abbrev pub prices {ℓ} : {F : Type ℓ} → SlotCongestion F → ℕ × ℕ × ℕ × F × F × ℕ
prices c = (
  c.slot, c.preconfirmed_gas, c.base_gas_price, c.gas_used_ratio, c.calculated_fee_multiplier,
  c.current_tx_price,
)

abbrev pub gas_of_updates : List (ℕ × ℕ) → ℕ
gas_of_updates [] = 0
gas_of_updates (u ∷ us) = u.1 + gas_of_updates us

-- The statements of an update that can fail.
abbrev pub IsUp : PgPool → Type 0
IsUp pool =
    (pool begin_update ≡ false)
    × (pool lock_congestion ≡ false)
    × (pool update_congestion ≡ false)
    × (pool commit_update ≡ false)

module _ {ℓ} {F : Type ℓ} ⦃f : F64 F⦄ where
  pub find-update_row :
      (now slot : ℕ) (c r : SlotCongestion F) (t : CongestionTable F)
      → find (has_slot slot) t ≡ some r
      → find (has_slot slot) (map (update_row now c) t) ≡ some (update_row now c r)
  unfolding find update_row
  find-update_row now slot c r [] h = cc
  find-update_row now slot c r (q ∷ t) h = ground (arith, find-update_row now slot c r t)

  pub add_gas_usage-keeps :
      (c : SlotCongestion F) (gas : ℕ) (k : F)
      → ((add_gas_usage c gas k).slot ≡ c.slot)
        × ((add_gas_usage c gas k).base_gas_price ≡ c.base_gas_price)
        × ((add_gas_usage c gas k).total_gas_limit ≡ c.total_gas_limit)
  unfolding add_gas_usage
  add_gas_usage-keeps c gas k = (ground arith, ground arith, ground arith)

  abbrev stamped : ℕ → SlotCongestion F → SlotCongestion F
  stamped now c = record c { last_updated = some now }

  -- The UPDATE writes every column that the addition has changed.
  update_row-add_gas_usage :
      (now gas : ℕ) (r : SlotCongestion F) (k : F)
      → update_row now (add_gas_usage r gas k) r ≡ stamped now (add_gas_usage r gas k)
  unfolding update_row add_gas_usage
  update_row-add_gas_usage now gas r k = ground arith

  add_gas_usage-stamped :
      (now gas : ℕ) (c : SlotCongestion F) (k : F)
      → prices (add_gas_usage (stamped now c) gas k) ≡ prices (add_gas_usage c gas k)
  unfolding add_gas_usage
  add_gas_usage-stamped now gas c k = ground arith

  -- Transactions one after the other: the clock and the gas of each.
  abbrev pub run_updates : PgPool → ℕ → F → List (ℕ × ℕ) → CongestionTable F → CongestionTable F
  run_updates pool slot k [] t = t
  run_updates pool slot k (u ∷ us) t =
      run_updates pool slot k us (update_slot_congestion_gas_usage pool u.0 slot u.1 k t).1

  pub update-table :
      (pool : PgPool) (now slot gas : ℕ) (k : F) (r : SlotCongestion F) (t : CongestionTable F)
      → IsUp pool
      → find (has_slot slot) t ≡ some r
      → (update_slot_congestion_gas_usage pool now slot gas k t
          ≡ (ok (add_gas_usage r gas k), map (update_row now (add_gas_usage r gas k)) t))
  unfolding update_slot_congestion_gas_usage
  update-table pool now slot gas k r t up h =
      rw (update_slot_congestion_gas_usage, up.0, up.1, h, up.2, up.3) refl

  updated :
      (pool : PgPool) (now slot gas : ℕ) (k : F) (r : SlotCongestion F) (t : CongestionTable F)
      → IsUp pool
      → find (has_slot slot) t ≡ some r
      → find (has_slot slot) (update_slot_congestion_gas_usage pool now slot gas k t).1
        ≡ some (stamped now (add_gas_usage r gas k))
  updated pool now slot gas k r t up h = rw (update-table pool now slot gas k r t up h) (
      find-update_row now slot (add_gas_usage r gas k) r t h
      ∙ ap some (update_row-add_gas_usage now gas r k))

  -- However the transactions on a slot are ordered, and however its gas is split among them, the row ends
  -- with the gas, the ratio, the multiplier and the price that a single addition of the total gives: no
  -- update is lost, and the price that comes out does not depend on the order.
  pub run_updates-total :
      (pool : PgPool) (slot : ℕ) (k : F) (u : ℕ × ℕ) (us : List (ℕ × ℕ)) (r : SlotCongestion F)
      (t : CongestionTable F)
      → IsUp pool
      → find (has_slot slot) t ≡ some r
      → (row : SlotCongestion F) × (find (has_slot slot) (run_updates pool slot k (u ∷ us) t)
          ≡ some row)
        × (prices row ≡ prices (add_gas_usage r (min (gas_of_updates (u ∷ us)) u64_max) k))
  run_updates-total pool slot k u [] r t up h = (
    stamped u.0 (add_gas_usage r u.1 k),
    updated pool u.0 slot u.1 k r t up h,
    ap prices (add_gas_usage_cut r u.1 k),
  )
  run_updates-total pool slot k u (v ∷ us) r t up h =
      let (row, p, q) =
        run_updates-total pool slot k v us (stamped u.0 (add_gas_usage r u.1 k))
          (update_slot_congestion_gas_usage pool u.0 slot u.1 k t).1 up
          (updated pool u.0 slot u.1 k r t up h) in
      let rest = min (gas_of_updates (v ∷ us)) u64_max in
      (
        row,
        p,
        q
            ∙ add_gas_usage-stamped u.0 rest (add_gas_usage r u.1 k) k
            ∙ ap prices (add_gas_usage-add_gas_usage r u.1 rest k)
            ∙ ap (λ n. prices (add_gas_usage r n k)) (omega arith),
      )
