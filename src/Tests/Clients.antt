-- ===== src/Tests/Clients.antt =====
-- A client of the relay, a batch of validators, the codecs, the statistics and the clock.
use preconfirmation_gateway.Common.{
  ℕ, ◌≤◌, ◌≡◌, refl, arith, true, some, none, [], ◌∷◌, any, select, ◌&&◌, leb, length, bytes_eq, ok,
  if◌then◌else◌,
}
use preconfirmation_gateway.Types.{Bytes}
use preconfirmation_gateway.Crates.Sample.{sample, sample-IsHexCodec, repeat}
use preconfirmation_gateway.Config.{ConstraintsApiConfig, text}
use preconfirmation_gateway.Relay.{Reply, answered, failed, submit_constraints}
use preconfirmation_gateway.Relay.Client.{is_blank, new_client}
use preconfirmation_gateway.Relay.Client.Limits.{sum, submit_constraints-bounded}
use preconfirmation_gateway.Encoding.{
  serialize, deserialize, serialize_public_key, deserialize_public_key, serialize_signature,
  deserialize_signature,
}
use preconfirmation_gateway.Encoding.RoundTrip.{deserialize-serialize}
use preconfirmation_gateway.Delegations.{
  DelegationRow, deactivate_expired_delegations, deactivate_if,
}
use preconfirmation_gateway.Delegations.Stats.{
  DelegationStats, in_force, stats_of, distinct, largest, get_delegation_stats,
}
use preconfirmation_gateway.Delegations.Stats.Counts.{get_delegation_stats-expired}
use preconfirmation_gateway.Validators.{
  get_batch_status, get_each, fetch_status, collect, insert_status,
}
use preconfirmation_gateway.Tests.Data.{all_up, stored}
use preconfirmation_gateway.Tests.Polling.{good, all_good, one}

abbrev client : ConstraintsApiConfig
client = record {
  relay_endpoint = text "https://relay.io";
  request_timeout_secs = 10;
  max_retries = 3;
  authorized_builders = [];
}

created : new_client (λ timeout. true) client ≡ ok client
unfolding new_client is_blank
created = refl

-- Two relays that differ from the eleventh answer on.
abbrev down : ℕ → Reply
down n = failed

abbrev late : ℕ → Reply
late n = if leb n 10 then failed else answered 200

submit_constraints-bounded_example :
    (submit_constraints down 3 ≡ submit_constraints late 3)
    × (length (submit_constraints down 3).1 ≤ 10)
    × (sum (submit_constraints down 3).1 ≤ 300000)
submit_constraints-bounded_example =
    submit_constraints-bounded (λ timeout. true) client client down late created
      (λ n a b. ground arith)

batch :
    (get_batch_status one all_good (λ n. none) 9 (repeat 48 1 ∷ repeat 48 2 ∷ []) none).0
    ≡ ok ((repeat 48 1, good) ∷ (repeat 48 2, good) ∷ [])
unfolding get_batch_status get_each fetch_status collect insert_status bytes_eq
batch = refl

deserialize-serialize_example :
    (deserialize (serialize (1 ∷ 2 ∷ [])) ≡ ok (1 ∷ 2 ∷ []))
    × (deserialize_public_key (serialize_public_key (repeat 48 7)) ≡ ok (repeat 48 7))
    × (deserialize_signature (serialize_signature (repeat 96 8)) ≡ ok (repeat 96 8))
    × ((k : Bytes) → deserialize_public_key (text "0x0102") ≡ ok k → length k ≡ 48)
    × ((s : Bytes) → deserialize_signature (text "0x0102") ≡ ok s → length s ≡ 96)
deserialize-serialize_example =
    deserialize-serialize sample-IsHexCodec (1 ∷ 2 ∷ []) (repeat 48 7) (repeat 96 8) (text "0x0102")
      refl refl

-- A second delegation, for slot 9.
abbrev ninth : DelegationRow
ninth = record stored { id = 2; slot_number = 9 }

abbrev before : DelegationStats
before = record {
  total_count = 2;
  active_count = 2;
  unique_proposers = 1;
  unique_delegates = 1;
  slots_covered = 2;
  latest_slot = some 9;
}

abbrev after : DelegationStats
after = record before { active_count = 1; slots_covered = 1 }

stats_before : get_delegation_stats all_up (stored ∷ ninth ∷ []) ≡ ok before
unfolding get_delegation_stats stats_of distinct largest select any bytes_eq
stats_before = refl

stats_after :
    get_delegation_stats all_up (deactivate_expired_delegations all_up 6 (stored ∷ ninth ∷ [])).1
    ≡ ok after
unfolding get_delegation_stats stats_of distinct largest select any bytes_eq
    deactivate_expired_delegations deactivate_if
stats_after = refl

get_delegation_stats-expired_example :
    (after.total_count ≡ before.total_count)
    × (after.unique_proposers ≡ before.unique_proposers)
    × (after.unique_delegates ≡ before.unique_delegates)
    × (after.active_count
        ≡ length (select (λ row. in_force row && leb 6 row.slot_number) (stored ∷ ninth ∷ [])))
    × (after.slots_covered ≤ after.active_count)
    × ((slot : ℕ) → after.latest_slot ≡ some slot → 6 ≤ slot)
get_delegation_stats-expired_example =
    get_delegation_stats-expired all_up all_up 6 (stored ∷ ninth ∷ []) before after (omega arith)
      refl stats_before stats_after
