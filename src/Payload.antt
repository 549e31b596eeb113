-- ===== src/Payload.antt =====
-- src/types/payload.rs: payloads of commitments, as JSON or as an RLP list.
pub mod RoundTrip
use preconfirmation_gateway.Common.{
  ℕ, Bool, ◌&&◌, ◌==◌, not, Option, none, some, [], ◌∷◌, is_empty, Result, ok, err, ◌>>=◌, ◌>>◌,
  ok_or, guard, if◌then◌else◌,
}
use preconfirmation_gateway.Types.{Bytes, InclusionPayload, ExecutionPayload}
use preconfirmation_gateway.Error.{
  Error, unknown_commitment_type, unparsable_payload, empty_transaction, zero_slot,
}
use preconfirmation_gateway.Crates.{Crates, number, string}

-- The transaction is checked first, then the slot.
unfoldable pub validate : InclusionPayload → Result Error (Unit {0})
validate p = do
  guard (not (is_empty p.signed_tx)) empty_transaction
  guard (not (p.slot == 0)) zero_slot
  ok tt

module _ ⦃x : Crates⦄ where
  unfoldable pub parse_inclusion_payload_rlp : Bytes → Result Error InclusionPayload
  parse_inclusion_payload_rlp payload = do
    let rlp = x.rlp payload
    guard rlp.is_list unparsable_payload
    item_count ← ok_or rlp.item_count unparsable_payload
    guard (item_count == 2) unparsable_payload
    slot ← ok_or (rlp.u64_at 0) unparsable_payload
    signed_tx ← ok_or (rlp.bytes_at 1) unparsable_payload
    ok (record { slot = slot; signed_tx = signed_tx })

  unfoldable pub parse_inclusion_payload : Bytes → Result Error InclusionPayload
  unfolding parse_inclusion_payload_rlp
  parse_inclusion_payload payload = elim (x.json_inclusion payload) [
    | some parsed ↦ ok parsed
    | none ↦ parse_inclusion_payload_rlp payload
  ]

  unfoldable pub parse_execution_payload : Bytes → Result Error ExecutionPayload
  parse_execution_payload payload = ok_or (x.json_execution payload) unparsable_payload

  unfoldable pub encode_inclusion_payload_rlp : InclusionPayload → Bytes
  encode_inclusion_payload_rlp payload =
      x.rlp_out 2 (number payload.slot ∷ string payload.signed_tx ∷ [])

  unfoldable pub extract_slot : ℕ → Bytes → Result Error ℕ
  extract_slot commitment_type payload =
      if commitment_type == 1
      then (do p ← parse_inclusion_payload payload; ok p.slot)
      else if commitment_type == 2
      then (do p ← parse_execution_payload payload; ok p.slot)
      else err unknown_commitment_type

  unfoldable pub tx_hash : InclusionPayload → Result Error Bytes
  tx_hash p = do guard (not (is_empty p.signed_tx)) empty_transaction; ok (x.keccak p.signed_tx)
