-- ===== src/Payload/RoundTrip.antt =====
-- Theorems on the RLP form of the payloads of src/types/payload.rs.
use preconfirmation_gateway.Common.{◌≡◌, ◌≤◌, refl, arith, ok, List, [], ◌∷◌, u64_max}
use preconfirmation_gateway.Types.{InclusionPayload}
use preconfirmation_gateway.Crates.{Crates, RlpItem, number, string, IsRlpCodec}
use preconfirmation_gateway.Payload.{
  parse_inclusion_payload, encode_inclusion_payload_rlp, extract_slot,
}

module _ ⦃x : Crates⦄ (codec : IsRlpCodec x) where
  abbrev fields : InclusionPayload → List RlpItem
  fields p = number p.slot ∷ string p.signed_tx ∷ []

  parse-encode :
      (p : InclusionPayload)
      → p.slot ≤ u64_max
      → parse_inclusion_payload (encode_inclusion_payload_rlp p) ≡ ok p
  unfolding parse_inclusion_payload encode_inclusion_payload_rlp
  parse-encode p h = ground (
    arith,
    codec.not_json (fields p),
    codec.is_list-out (fields p),
    codec.item_count-out (fields p),
    codec.u64_at-out (fields p) 0 p.slot h refl,
    codec.bytes_at-out (fields p) 1 p.signed_tx refl,
  )

  -- With the documented laws of the RLP library, an inclusion payload, whose slot is a `u64`, encoded as an RLP list parses to itself, through the
  -- attempt at JSON that comes first, and the slot that is taken from it is its slot.
  pub extract_slot-encode :
      (p : InclusionPayload)
      → p.slot ≤ u64_max
      → (parse_inclusion_payload (encode_inclusion_payload_rlp p) ≡ ok p)
        × (extract_slot 1 (encode_inclusion_payload_rlp p) ≡ ok p.slot)
  extract_slot-encode p h = (parse-encode p h, unfold extract_slot in rw (parse-encode p h))
