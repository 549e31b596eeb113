-- ===== src/Tests/Start.antt =====
-- A start of the gateway from a file and an environment, and the clients and codecs by themselves.
use preconfirmation_gateway.Common.{
  ◌≡◌, refl, true, some, none, [], ◌∷◌, any, find, select, ◌++◌, bytes_eq, All, if◌then◌else◌, ok,
}
use preconfirmation_gateway.Types.{
  Bytes, Text, CommitmentRequest, SignedCommitment, is_valid_for_slot,
}
use preconfirmation_gateway.Float.{Fixed, fixed_f64}
use preconfirmation_gateway.Crates.Sample.{
  sample, sample-IsHexCodec, sample-IsSecp, hex, repeat, pad,
}
use preconfirmation_gateway.Crypto.{
  strip_prefix, parse_hex_bytes, parse_private_key, ecdsa_to_address, normalize_address, to_lower,
  generate_request_hash, abi_encode_commitment_request, sign_commitment, abi_encode_commitment,
  recoverable_bytes, parse_ethereum_address,
}
use preconfirmation_gateway.Config.{
  Config, SigningConfig, Environment, parsed, text, default_config, load, load_from_file,
  load_signing, parse_bls_key, substitute_env_vars, contains, starts_with, check_endpoint,
  validate_beacon_endpoint, validate_endpoint, validate_slasher_whitelist,
}
use preconfirmation_gateway.Config.Loading.{IsLoaded, load-IsLoaded}
use preconfirmation_gateway.Bls.{
  new_manager, parse_application_gateway_domain, verify_delegation_signature,
  abi_encode_delegation_message, parse_committer,
}
use preconfirmation_gateway.Beacon.{
  BeaconJson, parse_digits, parse_u64, parse_slot, url_of, make_request, request_any, find_duty,
  get_proposer_duties, get_proposer_for_slot, parse_pubkey,
}
use preconfirmation_gateway.Relay.Client.{is_blank, new_client}
use preconfirmation_gateway.Startup.{
  new_reth_client, Outside, Started, start, new_beacon_client, new_fee_engine, new_context,
  submission_config,
}
use preconfirmation_gateway.Startup.Ready.{
  IsReady, start-IsReady, fresh, Verifies, start-Reach-Verifies,
}
use preconfirmation_gateway.Gateway.{Gateway, Reach, here, next, sign, save}
use preconfirmation_gateway.Payload.{
  extract_slot, parse_inclusion_payload, parse_inclusion_payload_rlp,
}
use preconfirmation_gateway.Commitments.{commitment_exists, save_commitment}
use preconfirmation_gateway.Delegations.{
  DelegationRow, get_delegations_for_slot, to_delegations, to_delegation,
}
use preconfirmation_gateway.Rpc.{
  sign_request, validate_slasher_address, validate_and_extract_slot, find_signing_key_for_committer,
  verify_delegation_authority, verify_proposer,
}
use preconfirmation_gateway.Tests.Data.{slasher, all_up, context, engine, world_at, stored, request}

abbrev ecdsa_hex : Text
ecdsa_hex = hex (repeat 32 9)

abbrev bls_hex : Text
bls_hex = hex (repeat 32 3)

abbrev node_url : Text
node_url = text "https://node.io/v2/key"

abbrev environment : Environment
environment name =
    if bytes_eq name (text "COMMITTER_PRIVATE_KEY")
    then some ecdsa_hex
    else if bytes_eq name (text "BLS_PRIVATE_KEY")
    then some bls_hex
    else if bytes_eq name (text "BEACON_API_ENDPOINT")
    then some node_url
    else none

abbrev keys : SigningConfig
keys = record {
  ecdsa_private_key = repeat 32 1;
  bls_private_key = repeat 32 1;
  bls_public_key = repeat 48 1;
  committer_address = slasher;
}

-- The address of the key.
abbrev announced : Text
announced = b'0' ∷ b'x' ∷ hex (repeat 20 9)

abbrev in_file : Config
in_file = record (default_config keys) {
  slasher_whitelist = announced ∷ [];
  beacon_api = record {
    primary_endpoint = text "${BEACON_API_ENDPOINT}";
    fallback_endpoints = [];
    request_timeout_secs = 30;
    genesis_time = 1000;
  };
  constraints_api = record {
    relay_endpoint = text "https://relay.io";
    request_timeout_secs = 10;
    max_retries = 3;
    authorized_builders = [];
  };
}

abbrev loaded : Config
loaded = record in_file {
  beacon_api = record {
    primary_endpoint = node_url;
    fallback_endpoints = [];
    request_timeout_secs = 30;
    genesis_time = 1000;
  };
  signing = record {
    ecdsa_private_key = repeat 32 9;
    bls_private_key = repeat 32 3;
    bls_public_key = sample.blst_public_key (repeat 32 3);
    committer_address = ecdsa_to_address (repeat 32 9);
  };
}

is_loaded : load keys environment (parsed in_file) ≡ ok loaded
unfolding load load_from_file load_signing parse_private_key parse_bls_key parse_hex_bytes bytes_eq
    strip_prefix substitute_env_vars contains starts_with check_endpoint validate_beacon_endpoint
    validate_endpoint validate_slasher_whitelist any
is_loaded = refl

load-IsLoaded_example : IsLoaded environment (parsed in_file) loaded
load-IsLoaded_example = load-IsLoaded keys environment (parsed in_file) loaded is_loaded

abbrev all_there : Outside
all_there = record {
  logging = true;
  pool = true;
  connection = true;
  http_client = λ timeout. true;
  polling_scheduler = true;
  polling_started = true;
  submission_scheduler = true;
  submission_started = true;
  metrics = true;
}

abbrev json : BeaconJson
json = context.beacon_json

abbrev started : Started Fixed
started = record {
  context =
      new_context loaded (new_fee_engine engine.fee_config loaded)
        (record { primary_endpoint = node_url; fallback_endpoints = []; genesis_time = 1000 }) json;
  manager = record { application_gateway_domain = 0 ∷ 0 ∷ 0 ∷ 2 ∷ [] };
  submission = submission_config loaded loaded.constraints_api;
  our_bls_pubkey = sample.blst_public_key (repeat 32 3);
  relay = loaded.constraints_api;
  reth = record { endpoint = loaded.reth.endpoint; max_retries = loaded.reth.max_retries };
}

is_started : start keys environment (parsed in_file) engine.fee_config json all_there ≡ ok started
unfolding new_reth_client start new_beacon_client new_client is_blank new_manager
    parse_application_gateway_domain strip_prefix
is_started = rw (start, is_loaded) refl

start-IsReady_example : IsReady environment (parsed in_file) started
start-IsReady_example =
    start-IsReady keys environment (parsed in_file) engine.fee_config json all_there started
      is_started

-- A request to the announced address, and the delegation for it.
abbrev own_request : CommitmentRequest
own_request = record request { slasher = announced }

abbrev own_row : DelegationRow
own_row = record stored { committer_address = announced }

abbrev own_hash : Bytes
own_hash = pad 32 (1 ∷ 0xc0 ∷ 0 ∷ 5 ∷ 2 ∷ 8 ∷ 2 ∷ 8 ∷ 1 ∷ 0 ∷ repeat 20 9)

abbrev own_answer : SignedCommitment
own_answer = record {
  commitment = record {
    commitment_type = 1;
    payload = 0xc0 ∷ 0 ∷ 5 ∷ 2 ∷ 8 ∷ 2 ∷ 8 ∷ 1 ∷ 0 ∷ [];
    request_hash = b'0' ∷ b'x' ∷ hex own_hash;
    slasher = announced;
  };
  signature =
      b'0'
      ∷ b'x'
      ∷ hex (pad 64 (pad 32 (1 ∷ 0xc0 ∷ 0 ∷ 5 ∷ 2 ∷ 8 ∷ 2 ∷ 8 ∷ 1 ∷ 0 ∷ own_hash)) ++ 27 ∷ []);
}

abbrev first : Gateway Fixed
first = fresh (own_row ∷ []) []

own_signed :
    sign_request started.context (world_at (ok 7)) own_request first.tables ≡ ok (5, own_answer)
unfolding new_context sign_request validate_slasher_address validate_and_extract_slot
    find_signing_key_for_committer any find normalize_address strip_prefix bytes_eq to_lower
    generate_request_hash abi_encode_commitment_request parse_hex_bytes extract_slot
    parse_inclusion_payload parse_inclusion_payload_rlp commitment_exists
    verify_delegation_authority verify_proposer get_delegations_for_slot select to_delegations
    to_delegation is_valid_for_slot new_manager parse_application_gateway_domain
    verify_delegation_signature abi_encode_delegation_message parse_committer get_proposer_for_slot
    get_proposer_duties request_any make_request url_of find_duty parse_slot parse_u64 parse_digits
    parse_pubkey sign_commitment abi_encode_commitment recoverable_bytes parse_ethereum_address
    ecdsa_to_address
own_signed = refl

abbrev last : Gateway Fixed
last = record first {
  tables = record (first.tables) { commitments = (save_commitment all_up 1 own_answer []).1 };
}

own_run : Reach started.context started.manager started.submission started.our_bls_pubkey first last
own_run =
    next (next here (sign (world_at (ok 7)) own_request first.tables 5 own_answer refl own_signed))
      (save all_up 1 [] [] own_answer refl)

start-Reach-Verifies_example :
    (started.context.committer_address ≡ ecdsa_to_address started.context.ecdsa_private_key)
    × All (Verifies started.context.ecdsa_private_key) (save_commitment all_up 1 own_answer []).1
start-Reach-Verifies_example =
    start-Reach-Verifies sample-IsHexCodec sample-IsSecp keys environment (parsed in_file)
      engine.fee_config json all_there started (own_row ∷ []) [] last is_started own_run
