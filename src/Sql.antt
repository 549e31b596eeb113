-- ===== src/Sql.antt =====
-- What the tables have in common: queries that can fail, `BIGINT` columns, and the format checks of
-- the migrations.
use preconfirmation_gateway.Common.{
  ℕ, Bool, false, true, ◌&&◌, ◌||◌, none, some, [], ◌∷◌, length, ltb, leb, ◌==◌, i64_max,
}
use preconfirmation_gateway.Types.{Text}
use preconfirmation_gateway.Crypto.{strip_prefix, hex_prefix}

-- The statements that the program runs.
pub data Query : Type 0 where
  insert_commitment commitment_by_hash commitment_existence unprocessed_commitments : Query
  mark_processed commitment_stats : Query
  insert_delegation delegations_for_slot delegation_by_proposer delegations_by_delegate : Query
  delegation_existence deactivate_expired active_delegations delegation_stats : Query
  begin_batch insert_in_batch commit_batch : Query
  deactivate_by_id : ℕ → Query
  insert_congestion select_congestion begin_update lock_congestion update_congestion : Query
  commit_update congestion_price delete_congestion congestion_stats highest_congestion : Query

-- A connection pool, as seen by one call: which of its statements fail. The database itself may refuse
-- any of them at any time.
abbrev pub PgPool : Type 0
PgPool = Query → Bool

-- A `u64` cast to `i64` is negative from 2^63 on; the columns hold no negative number. These are
-- `column = $1` and `column < $1`.
abbrev pub sql_eq : ℕ → ℕ → Bool
sql_eq column value = leb value i64_max && column == value

abbrev pub sql_lt : ℕ → ℕ → Bool
sql_lt column value = leb value i64_max && ltb column value

unfoldable pub is_hex_digit : ℕ → Bool
is_hex_digit c =
    (leb b'0' c && leb c b'9') || (leb b'a' c && leb c b'f') || (leb b'A' c && leb c b'F')

unfoldable pub all_hex : Text → Bool
unfolding is_hex_digit
all_hex [] = true
all_hex (c ∷ s) = is_hex_digit c && all_hex s

-- `~ '^0x[a-fA-F0-9]{n}$'`
unfoldable pub matches_hex : ℕ → Text → Bool
unfolding all_hex strip_prefix
matches_hex n s = elim (strip_prefix hex_prefix s) [
  | none ↦ false
  | some digits ↦ length digits == n && all_hex digits
]
