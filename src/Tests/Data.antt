-- ===== src/Tests/Data.antt =====
-- The data of the examples: a delegation for slot 5, a request for it, and its answer.
use preconfirmation_gateway.Common.{ℕ, true, false, some, none, [], ◌∷◌, ◌++◌, Result, ok}
use preconfirmation_gateway.Types.{
  Bytes, Text, CommitmentRequest, SignedCommitment, SignedDelegation, ValidatorDuty,
}
use preconfirmation_gateway.Error.{Error}
use preconfirmation_gateway.Float.{Fixed, fixed_f64}
use preconfirmation_gateway.Crates.Sample.{hex, repeat, pad}
use preconfirmation_gateway.Sql.{PgPool}
use preconfirmation_gateway.Delegations.{DelegationRow}
use preconfirmation_gateway.Beacon.{BeaconApiConfig}
use preconfirmation_gateway.Pricing.{FeePricingEngine}
use preconfirmation_gateway.Rpc.{RpcContext, Tables, World}

-- 0x and forty digits
abbrev pub slasher : Text
slasher = b'0' ∷ b'x' ∷ hex (repeat 20 0xab)

abbrev pub proposer : Bytes
proposer = repeat 48 1

abbrev pub duty : ValidatorDuty
duty = record { validator_index = b'7' ∷ []; pubkey = b'0' ∷ b'x' ∷ hex proposer; slot = b'5' ∷ [] }

abbrev pub all_up : PgPool
all_up q = false

abbrev pub node : BeaconApiConfig
node = record { primary_endpoint = []; fallback_endpoints = []; genesis_time = 1000 }

abbrev pub engine : FeePricingEngine Fixed
engine = record {
  fee_config = record {
    default_gas_limit = 30000000;
    scaling_factor = some 2000;
    min_fee_multiplier = some 1000;
    max_fee_multiplier = some 10000;
  };
  genesis_time = 1000;
}

abbrev pub context : RpcContext Fixed
context = record {
  slasher_whitelist = slasher ∷ [];
  domain_application_gateway = hex (repeat 4 1);
  lookahead_epochs = 2;
  committer_address = slasher;
  ecdsa_private_key = repeat 32 9;
  beacon = node;
  beacon_json = record { proposer_duties = λ b. some (duty ∷ []); validator = λ b. none };
  fee_engine = engine;
}

abbrev pub others : Tables Fixed → Tables Fixed
others t = t

abbrev pub world_at : Result Error ℕ → World Fixed
world_at gas_price = record {
  oracle = record { pool = all_up; now = 1050; id = 1; gas_price = gas_price };
  net = λ n url. ok (record { status = 200; body = [] });
  commitment_id = 1;
  before_delegations = others;
  before_save = others;
  before_fee = others;
  before_update = others;
}

abbrev pub stored : DelegationRow
stored = record {
  id = 1;
  proposer_pubkey = proposer;
  delegate_pubkey = repeat 48 2;
  committer_address = slasher;
  slot_number = 5;
  signature = repeat 96 1;
  is_active = true;
}

abbrev pub tables : Tables Fixed
tables = record { commitments = []; delegations = stored ∷ []; congestion = [] }

abbrev pub request : CommitmentRequest
request = record {
  commitment_type = 1;
  payload = 0xc0 ∷ 0 ∷ 5 ∷ 2 ∷ 8 ∷ 2 ∷ 8 ∷ 1 ∷ 0 ∷ [];
  slasher = slasher;
}

-- The stand-in for Keccak keeps the first 32 bytes.
abbrev pub hash : Bytes
hash = pad 32 (1 ∷ 0xc0 ∷ 0 ∷ 5 ∷ 2 ∷ 8 ∷ 2 ∷ 8 ∷ 1 ∷ 0 ∷ repeat 20 0xab)

abbrev pub answer : SignedCommitment
answer = record {
  commitment = record {
    commitment_type = 1;
    payload = 0xc0 ∷ 0 ∷ 5 ∷ 2 ∷ 8 ∷ 2 ∷ 8 ∷ 1 ∷ 0 ∷ [];
    request_hash = b'0' ∷ b'x' ∷ hex hash;
    slasher = slasher;
  };
  signature =
      b'0'
      ∷ b'x'
      ∷ hex (pad 64 (pad 32 (1 ∷ 0xc0 ∷ 0 ∷ 5 ∷ 2 ∷ 8 ∷ 2 ∷ 8 ∷ 1 ∷ 0 ∷ hash)) ++ 27 ∷ []);
}

-- The delegation that `stored` holds.
abbrev pub delegation : SignedDelegation
delegation = record {
  message = record { proposer = proposer; delegate = repeat 48 2; committer = slasher; slot = 5 };
  signature = repeat 96 1;
}

-- One whose signature does not verify.
abbrev pub forged : SignedDelegation
forged = record {
  message = record { proposer = proposer; delegate = repeat 48 2; committer = slasher; slot = 6 };
  signature = repeat 96 3;
}
