-- ===== src/Delegations/Stats.antt =====
-- `get_delegation_stats` of src/db/delegation_ops.rs: the counts over the table.
pub mod Counts
use preconfirmation_gateway.Common.{
  ℕ, Bool, not, Option, none, some, List, [], ◌∷◌, map, ◌==◌, if◌then◌else◌, any, select, length,
  bytes_eq, max, Result, ok, err,
}
use preconfirmation_gateway.Error.{Error, database_failure}
use preconfirmation_gateway.Sql.{PgPool, delegation_stats}
use preconfirmation_gateway.Delegations.{DelegationRow, DelegationTable}

pub record DelegationStats : Type 0 where
  pub total_count : ℕ
  pub active_count : ℕ
  pub unique_proposers : ℕ
  pub unique_delegates : ℕ
  pub slots_covered : ℕ
  pub latest_slot : Option ℕ

-- `DISTINCT`: of equal values the last one.
unfoldable pub distinct {ℓ} : {A : Type ℓ} → (A → A → Bool) → List A → List A
distinct same [] = []
distinct same (x ∷ xs) = let rest = distinct same xs in if any (same x) xs then rest else x ∷ rest

-- `MAX`, NULL where there is none.
abbrev pub max_with : ℕ → Option ℕ → Option ℕ
max_with n none = some n
max_with n (some m) = some (max n m)

unfoldable pub largest : List ℕ → Option ℕ
largest [] = none
largest (n ∷ ns) = max_with n (largest ns)

abbrev pub same_slot : ℕ → ℕ → Bool
same_slot a b = a == b

abbrev pub in_force : DelegationRow → Bool
in_force row = row.is_active

unfoldable pub stats_of : DelegationTable → DelegationStats
unfolding distinct largest
stats_of table =
    let active = select in_force table in
    record {
      total_count = length table;
      active_count = length active;
      unique_proposers = length (distinct bytes_eq (map (λ row. row.proposer_pubkey) table));
      unique_delegates = length (distinct bytes_eq (map (λ row. row.delegate_pubkey) table));
      slots_covered = length (distinct same_slot (map (λ row. row.slot_number) active));
      latest_slot = largest (map (λ row. row.slot_number) active);
    }

unfoldable pub get_delegation_stats : PgPool → DelegationTable → Result Error DelegationStats
unfolding stats_of
get_delegation_stats pool table =
    if pool delegation_stats then err database_failure else ok (stats_of table)
