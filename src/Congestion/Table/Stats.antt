-- ===== src/Congestion/Table/Stats.antt =====
-- `get_congestion_stats` of src/db/slot_congestion_ops.rs: the aggregates over the slots of the last 24
-- hours and of those to come.
pub mod Peaks
use preconfirmation_gateway.Common.{
  ℕ, ◌+◌, Bool, Option, none, some, List, [], ◌∷◌, map, if◌then◌else◌, ltb, select, length, Result,
  ok, err,
}
use preconfirmation_gateway.Error.{Error, database_failure}
use preconfirmation_gateway.Float.{F64, lit}
use preconfirmation_gateway.Sql.{PgPool, congestion_stats, highest_congestion}
use preconfirmation_gateway.Congestion.{SlotCongestion}
use preconfirmation_gateway.Congestion.Table.{CongestionTable}

-- What PostgreSQL computes on `DOUBLE PRECISION`: `AVG` of some values, and the order of values that `MAX`
-- and `ORDER BY` go by.
pub record Aggregates {ℓ} (F : Type ℓ) : Type ℓ where
  pub average : F → List F → F
  pub precedes : F → F → Bool

pub record CongestionStats {ℓ} (F : Type ℓ) : Type ℓ where
  pub total_slots_tracked : ℕ
  pub current_average_congestion : F
  pub highest_congestion_slot : Option ℕ
  pub highest_congestion_ratio : F
  pub average_fee_multiplier : F

-- `COALESCE`
abbrev pub coalesce {ℓ} : {F : Type ℓ} → Option F → F → F
coalesce none default = default
coalesce (some value) default = value

-- `slot_start_time > NOW() - INTERVAL '24 hours'`
abbrev pub is_recent {ℓ} : {F : Type ℓ} → ℕ → SlotCongestion F → Bool
is_recent now row = ltb now (row.slot_start_time + 86400)

abbrev pub slot_of {ℓ} : {F : Type ℓ} → Option (SlotCongestion F) → Option ℕ
slot_of none = none
slot_of (some row) = some row.slot

module _ {ℓ} {F : Type ℓ} ⦃f : F64 F⦄ (aggregates : Aggregates F) where
  abbrev pub average_of : List F → Option F
  average_of [] = none
  average_of (value ∷ values) = some (aggregates.average value values)

  -- `MAX`
  abbrev pub greater : F → Option F → F
  greater value none = value
  greater value (some other) = if aggregates.precedes other value then value else other

  unfoldable pub peak : List F → Option F
  peak [] = none
  peak (value ∷ values) = some (greater value (peak values))

  -- `ORDER BY gas_used_ratio DESC LIMIT 1`
  abbrev pub higher : SlotCongestion F → Option (SlotCongestion F) → SlotCongestion F
  higher row none = row
  higher row (some other) =
      if aggregates.precedes other.gas_used_ratio row.gas_used_ratio then row else other

  unfoldable pub top : CongestionTable F → Option (SlotCongestion F)
  top [] = none
  top (row ∷ rows) = some (higher row (top rows))

  -- The statistics of the rows, without the slot of the highest ratio.
  unfoldable pub summary : CongestionTable F → Option ℕ → CongestionStats F
  unfolding peak
  summary rows highest = record {
    total_slots_tracked = length rows;
    current_average_congestion =
        coalesce (average_of (map (λ row. row.gas_used_ratio) rows)) (lit 0);
    highest_congestion_slot = highest;
    highest_congestion_ratio = coalesce (peak (map (λ row. row.gas_used_ratio) rows)) (lit 0);
    average_fee_multiplier =
        coalesce (average_of (map (λ row. row.calculated_fee_multiplier) rows)) (lit 1);
  }

  -- Two queries, the second at `later` over the table as it then is, where the highest ratio is above zero.
  unfoldable pub get_congestion_stats :
      PgPool → ℕ → ℕ → CongestionTable F → CongestionTable F → Result Error (CongestionStats F)
  unfolding summary top
  get_congestion_stats pool now later table table_later =
      let rows = select (is_recent now) table in
      if pool congestion_stats
      then err database_failure
      else if f.lt (lit 0) (summary rows none).highest_congestion_ratio
      then if pool highest_congestion
        then err database_failure
        else ok (summary rows (slot_of (top (select (is_recent later) table_later))))
      else ok (summary rows none)
