-- ===== src/Congestion/Table.antt =====
-- The table of migration 006 and its operations in src/db/slot_congestion_ops.rs. A `u64` cast to `i64`
-- and back is unchanged, so the columns are read as the numbers that were written.
pub mod Rows
pub mod Updates
pub mod Quotes
pub mod Growth
pub mod Stats
use preconfirmation_gateway.Common.{
  ℕ, ◌+◌, ◌-◌, ◌*◌, ◌^◌, Bool, true, false, not, ◌&&◌, ◌||◌, Option, none, some, List, [], ◌∷◌,
  ◌++◌, map, leb, ltb, ◌==◌, if◌then◌else◌, any, select, find, length, i64_max, Result, ok, err,
  ◌>>=◌, ◌>>◌, ok_or, guard, saturating_add, saturating_mul,
}
use preconfirmation_gateway.Error.{
  Error, database_failure, unique_violation, not_found, invalid_timestamp, panicked,
}
use preconfirmation_gateway.Float.{F64}
use preconfirmation_gateway.Congestion.{SlotCongestion, new, add_gas_usage}
use preconfirmation_gateway.Timing.{slot_duration_seconds}
use preconfirmation_gateway.Sql.{
  Query, PgPool, insert_congestion, select_congestion, begin_update, lock_congestion,
  update_congestion, commit_update, congestion_price, delete_congestion,
}

abbrev pub CongestionTable {ℓ} : Type ℓ → Type ℓ
CongestionTable F = List (SlotCongestion F)

abbrev pub has_slot {ℓ} : {F : Type ℓ} → ℕ → SlotCongestion F → Bool
has_slot slot row = row.slot == slot

abbrev pub id_of : Option ℕ → ℕ
id_of none = 0
id_of (some id) = id

abbrev pub has_id {ℓ} : {F : Type ℓ} → ℕ → SlotCongestion F → Bool
has_id id row = id_of row.id == id

-- The last second of a chrono `DateTime`, in the year 262142.
abbrev pub max_timestamp : ℕ
max_timestamp = 8210266876799

unfoldable pub slot_start_timestamp : ℕ → ℕ → ℕ
slot_start_timestamp genesis_time slot =
    saturating_add genesis_time (saturating_mul slot slot_duration_seconds)

-- `UNIX_EPOCH + Duration` panics where the seconds are no `i64`; `DateTime::from_timestamp` is `None`
-- beyond its last second.
unfoldable pub start_time : ℕ → Result Error ℕ
start_time timestamp = do
  guard (leb timestamp i64_max) panicked
  guard (leb timestamp max_timestamp) invalid_timestamp
  ok timestamp

module _ {ℓ} {F : Type ℓ} ⦃f : F64 F⦄ where
  unfoldable pub get_slot_congestion :
      PgPool → ℕ → CongestionTable F → Result Error (Option (SlotCongestion F))
  get_slot_congestion pool slot table =
      if pool select_congestion then err database_failure else ok (find (has_slot slot) table)

  abbrev pub with_id : ℕ → SlotCongestion F → SlotCongestion F
  with_id id c = record c { id = some id }

  -- The row that the INSERT writes: the two timestamps are the database's clock.
  abbrev pub stored_at : ℕ → SlotCongestion F → SlotCongestion F
  stored_at now c = record c { last_updated = some now; created_at = some now }

  abbrev pub re_fetched : Result Error (Option (SlotCongestion F)) → Result Error (SlotCongestion F)
  re_fetched result = do row ← result; ok_or row not_found

  -- INSERT … ON CONFLICT (slot) DO NOTHING RETURNING id, and the row that is there where nothing was
  -- inserted.
  unfoldable pub insert_or_fetch :
      PgPool
      → ℕ
      → ℕ
      → SlotCongestion F
      → CongestionTable F
      → Result Error (SlotCongestion F) × CongestionTable F
  unfolding get_slot_congestion
  insert_or_fetch pool now id congestion table =
      if pool insert_congestion
      then (err database_failure, table)
      else if any (has_slot congestion.slot) table
      then (re_fetched (get_slot_congestion pool congestion.slot table), table)
      else if any (has_id id) table
      then (err unique_violation, table)
      else (ok (with_id id congestion), table ++ stored_at now (with_id id congestion) ∷ [])

  unfoldable pub get_or_create_slot_congestion :
      PgPool
      → ℕ
      → ℕ
      → ℕ
      → ℕ
      → ℕ
      → ℕ
      → CongestionTable F
      → Result Error (SlotCongestion F) × CongestionTable F
  unfolding start_time
  get_or_create_slot_congestion pool now id slot base_gas_price total_gas_limit genesis_time table =
      elim (start_time (slot_start_timestamp genesis_time slot)) [
        | err e ↦ (err e, table)
        | ok timestamp ↦
            insert_or_fetch pool now id (new slot base_gas_price total_gas_limit timestamp) table
      ]

  -- The UPDATE sets four columns and `last_updated`.
  unfoldable pub update_row : ℕ → SlotCongestion F → SlotCongestion F → SlotCongestion F
  update_row now congestion row =
      if row.slot == congestion.slot
      then record row {
        preconfirmed_gas = congestion.preconfirmed_gas;
        gas_used_ratio = congestion.gas_used_ratio;
        calculated_fee_multiplier = congestion.calculated_fee_multiplier;
        current_tx_price = congestion.current_tx_price;
        last_updated = some now;
      }
      else row

  -- One transaction that holds the row's lock from the SELECT to the commit.
  unfoldable pub update_slot_congestion_gas_usage :
      PgPool
      → ℕ
      → ℕ
      → ℕ
      → F
      → CongestionTable F
      → Result Error (SlotCongestion F) × CongestionTable F
  unfolding update_row
  update_slot_congestion_gas_usage pool now slot additional_gas scaling_factor table =
      if pool begin_update || pool lock_congestion
      then (err database_failure, table)
      else elim (find (has_slot slot) table) [
        | none ↦ (err not_found, table)
        | some row ↦
            (let congestion = add_gas_usage row additional_gas scaling_factor in
              if pool update_congestion || pool commit_update
              then (err database_failure, table)
              else (ok congestion, map (update_row now congestion) table))
      ]

  abbrev pub price_of : Option (SlotCongestion F) → Option ℕ
  price_of none = none
  price_of (some row) = some row.current_tx_price

  unfoldable pub get_current_gas_price_for_slot :
      PgPool → ℕ → CongestionTable F → Result Error (Option ℕ)
  get_current_gas_price_for_slot pool slot table =
      if pool congestion_price
      then err database_failure
      else ok (price_of (find (has_slot slot) table))

  -- DELETE … WHERE slot_start_time < $1. A clock that is less than the hours past the epoch is an error of
  -- `duration_since`.
  unfoldable pub cleanup_old_slot_congestion :
      PgPool → ℕ → ℕ → CongestionTable F → Result Error ℕ × CongestionTable F
  cleanup_old_slot_congestion pool now hours_to_keep table =
      let cutoff = now - saturating_mul hours_to_keep 3600 in
      if ltb now (saturating_mul hours_to_keep 3600)
      then (err invalid_timestamp, table)
      else if ltb max_timestamp cutoff
      then (err invalid_timestamp, table)
      else if pool delete_congestion
      then (err database_failure, table)
      else (
        ok (length (select (λ row. ltb row.slot_start_time cutoff) table)),
        select (λ row. leb cutoff row.slot_start_time) table,
      )
