-- ===== src/Tests/Encodings.antt =====
-- Signatures, payloads, the beacon node and the clock at concrete inputs.
use preconfirmation_gateway.Common.{
  ℕ, zero, suc, ◌≡◌, refl, arith, true, none, some, List, [], ◌∷◌, ok, err,
}
use preconfirmation_gateway.Types.{Text, ConstraintsMessage, InclusionPayload, ValidatorDuty}
use preconfirmation_gateway.Error.{timed_out}
use preconfirmation_gateway.Crates.Sample.{sample, sample-IsRlpCodec, repeat}
use preconfirmation_gateway.Crypto.{
  sign_commitment, abi_encode_commitment, parse_hex_bytes, parse_ethereum_address, strip_prefix,
  recoverable_bytes,
}
use preconfirmation_gateway.Bls.{
  BlsManager, new_manager, parse_application_gateway_domain, verify_delegation_signature,
  abi_encode_delegation_message, parse_committer,
}
use preconfirmation_gateway.Bls.Domains.{AreSeparate, verify-AreSeparate}
use preconfirmation_gateway.Payload.{
  extract_slot, parse_inclusion_payload, encode_inclusion_payload_rlp,
}
use preconfirmation_gateway.Payload.RoundTrip.{extract_slot-encode}
use preconfirmation_gateway.Beacon.{
  Network, BeaconApiConfig, BeaconJson, get_proposer_for_slot, get_proposer_duties, request_any,
  try_fallbacks, make_request, url_of, find_duty, parse_slot, parse_u64, parse_digits,
}
use preconfirmation_gateway.Beacon.Duties.{Answers, get_proposer_for_slot-Answers}
use preconfirmation_gateway.Beacon.Fallback.{IsFirst, request_any-IsFirst}
use preconfirmation_gateway.Reth.{Attempt, unreachable, response}
use preconfirmation_gateway.Timing.{slot_to_epoch}
use preconfirmation_gateway.Tests.Data.{duty, answer, delegation}

signed : sign_commitment answer.commitment (repeat 32 9) ≡ ok answer.signature
unfolding sign_commitment abi_encode_commitment parse_hex_bytes parse_ethereum_address strip_prefix
    recoverable_bytes
signed = refl

verified : verify_delegation_signature delegation ≡ ok true
unfolding verify_delegation_signature abi_encode_delegation_message parse_committer strip_prefix
verified = refl

abbrev domain_hex : Text
domain_hex = b'0' ∷ b'x' ∷ b'0' ∷ b'0' ∷ b'0' ∷ b'0' ∷ b'0' ∷ b'0' ∷ b'0' ∷ b'2' ∷ []

abbrev other_domain : BlsManager
other_domain = record { application_gateway_domain = 0 ∷ 0 ∷ 0 ∷ 2 ∷ [] }

made : new_manager domain_hex ≡ ok other_domain
unfolding new_manager parse_application_gateway_domain strip_prefix
made = refl

abbrev no_constraints : ConstraintsMessage
no_constraints = record {
  proposer = repeat 48 1;
  delegate = repeat 48 2;
  slot = 5;
  constraints = [];
  receivers = [];
}

verify-AreSeparate_example : AreSeparate delegation other_domain no_constraints
verify-AreSeparate_example =
    verify-AreSeparate delegation domain_hex other_domain no_constraints verified made (λ e. cc)

abbrev inclusion : InclusionPayload
inclusion = record { slot = 5; signed_tx = 8 ∷ 8 ∷ [] }

extract_slot-encode_example :
    (parse_inclusion_payload (encode_inclusion_payload_rlp inclusion) ≡ ok inclusion)
    × (extract_slot 1 (encode_inclusion_payload_rlp inclusion) ≡ ok 5)
extract_slot-encode_example = extract_slot-encode sample-IsRlpCodec inclusion (omega arith)

-- The primary endpoint times out, the fallback answers.
abbrev flaky : Network
flaky n url = elim n [ zero ↦ err timed_out | suc m ↦ ok (record { status = 200; body = 1 ∷ [] }) ]

abbrev nodes : BeaconApiConfig
nodes = record {
  primary_endpoint = b'a' ∷ [];
  fallback_endpoints = (b'b' ∷ b'/' ∷ []) ∷ [];
  genesis_time = 1000;
}

abbrev json : BeaconJson
json = record { proposer_duties = λ b. some (duty ∷ []); validator = λ b. none }

proposed : get_proposer_for_slot json flaky nodes 5 ≡ ok (some duty)
unfolding get_proposer_for_slot get_proposer_duties request_any try_fallbacks make_request url_of
    find_duty parse_slot parse_u64 parse_digits
proposed = refl

get_proposer_for_slot-Answers_example :
    (duties : List ValidatorDuty) × (get_proposer_duties json flaky nodes (slot_to_epoch 5)
      ≡ ok duties)
    × Answers 5 duties (some duty)
get_proposer_for_slot-Answers_example =
    get_proposer_for_slot-Answers json flaky nodes 5 (some duty) proposed

request_any-IsFirst_example :
    IsFirst json.proposer_duties flaky [] 0
      ((b'a' ∷ []) ∷ (b'b' ∷ b'/' ∷ []) ∷ [])
      (request_any json.proposer_duties flaky nodes [])
request_any-IsFirst_example = request_any-IsFirst json.proposer_duties flaky [] nodes

-- A Reth node that cannot be reached at first.
abbrev reth : ℕ → Attempt ℕ
reth zero = unreachable
reth (suc n) = response 7
