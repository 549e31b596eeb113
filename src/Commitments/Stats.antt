-- ===== src/Commitments/Stats.antt =====
-- `get_commitment_stats` of src/db/operations.rs. `created_at` gives the column of this name, which no other
-- query returns.
use preconfirmation_gateway.Common.{
  ℕ, Bool, Option, map, select, length, ◌==◌, if◌then◌else◌, Result, ok, err,
}
use preconfirmation_gateway.Error.{Error, database_failure}
use preconfirmation_gateway.Sql.{PgPool, commitment_stats}
use preconfirmation_gateway.Commitments.{CommitmentRow, CommitmentTable}
use preconfirmation_gateway.Delegations.Stats.{largest}

pub record CommitmentStats : Type 0 where
  pub total_count : ℕ
  pub commitment_type_1_count : ℕ
  pub latest_created_at : Option ℕ

abbrev pub is_type_1 : CommitmentRow → Bool
is_type_1 row = row.commitment_type == 1

unfoldable pub get_commitment_stats :
    (CommitmentRow → ℕ) → PgPool → CommitmentTable → Result Error CommitmentStats
unfolding largest
get_commitment_stats created_at pool table =
    if pool commitment_stats
    then err database_failure
    else ok (record {
      total_count = length table;
      commitment_type_1_count = length (select is_type_1 table);
      latest_created_at = largest (map created_at table);
    })
