-- ===== src/Startup.antt =====
-- src/main.rs: the start of the gateway, up to the RPC server. The clients, the engine and the services
-- get their settings from the configuration; src/types/context.rs and the constructors of the clients.
pub mod Ready
use preconfirmation_gateway.Common.{ℕ, Bool, not, ◌==◌, Result, ok, err, ◌>>=◌, ◌>>◌, guard}
use preconfirmation_gateway.Types.{Bytes}
use preconfirmation_gateway.Error.{
  Error, empty_endpoint, zero_timeout, request_failed, database_failure, startup_failure,
}
use preconfirmation_gateway.Float.{F64}
use preconfirmation_gateway.Crates.{Crates}
use preconfirmation_gateway.Bls.{BlsManager, new_manager}
use preconfirmation_gateway.Beacon.{BeaconApiConfig, BeaconJson}
use preconfirmation_gateway.Pricing.{FeeConfig, FeePricingEngine}
use preconfirmation_gateway.Config.{
  Config, SigningConfig, Environment, ConfigFile, ConstraintsApiConfig, BeaconSettings, RethConfig,
  load,
}
use preconfirmation_gateway.Relay.Client.{is_blank, new_client}
use preconfirmation_gateway.Submission.{SubmissionConfig}
use preconfirmation_gateway.Reth.{RethApiClient}
use preconfirmation_gateway.Rpc.{RpcContext}

-- What the libraries answer at the start: which of the parts come up. The pool is created with its
-- migrations, and an HTTP client is built with a timeout.
pub record Outside : Type 0 where
  pub logging : Bool
  pub pool : Bool
  pub connection : Bool
  pub http_client : ℕ → Bool
  pub polling_scheduler : Bool
  pub polling_started : Bool
  pub submission_scheduler : Bool
  pub submission_started : Bool
  pub metrics : Bool

-- What runs from then on.
pub record Started {ℓ} (F : Type ℓ) : Type ℓ where
  pub context : RpcContext F
  pub manager : BlsManager
  pub submission : SubmissionConfig
  pub our_bls_pubkey : Bytes
  pub relay : ConstraintsApiConfig
  pub reth : RethApiClient

-- `RethApiClient::new`
unfoldable pub new_reth_client : (ℕ → Bool) → RethConfig → Result Error RethApiClient
new_reth_client http_client config = do
  guard (http_client config.request_timeout_secs) request_failed
  ok (record { endpoint = config.endpoint; max_retries = config.max_retries })

-- `BeaconApiClient::with_default_client`
unfoldable pub new_beacon_client : (ℕ → Bool) → BeaconSettings → Result Error BeaconApiConfig
new_beacon_client http_client config = do
  guard (http_client config.request_timeout_secs) request_failed
  guard (not (is_blank config.primary_endpoint)) empty_endpoint
  guard (not (config.request_timeout_secs == 0)) zero_timeout
  ok (record {
    primary_endpoint = config.primary_endpoint;
    fallback_endpoints = config.fallback_endpoints;
    genesis_time = config.genesis_time;
  })

-- What the submission service reads of the configuration and of the client.
unfoldable pub submission_config : Config → ConstraintsApiConfig → SubmissionConfig
submission_config config relay = record {
  genesis_time = config.beacon_api.genesis_time;
  committer_address = config.signing.committer_address;
  bls_public_key = config.signing.bls_public_key;
  bls_private_key = config.signing.bls_private_key;
  authorized_builders = config.constraints_api.authorized_builders;
  max_retries = relay.max_retries;
}

module _ {ℓ} {F : Type ℓ} where
  -- `FeePricingEngine::new`
  unfoldable pub new_fee_engine : FeeConfig F → Config → FeePricingEngine F
  new_fee_engine fee_config config = record {
    fee_config = fee_config;
    genesis_time = config.beacon_api.genesis_time;
  }

  -- `RpcContext::new`, with what the handlers read of the configuration.
  unfoldable pub new_context :
      Config → FeePricingEngine F → BeaconApiConfig → BeaconJson → RpcContext F
  new_context config fee_engine beacon json = record {
    slasher_whitelist = config.slasher_whitelist;
    domain_application_gateway = config.delegation.domain_application_gateway;
    lookahead_epochs = config.delegation.lookahead_epochs;
    committer_address = config.signing.committer_address;
    ecdsa_private_key = config.signing.ecdsa_private_key;
    beacon = beacon;
    beacon_json = json;
    fee_engine = fee_engine;
  }

  -- `main`, up to `run_server`. The first poll of the relay may fail, and is a run of the polling service.
  unfoldable pub start :
      ⦃x : Crates⦄
      → SigningConfig
      → Environment
      → ConfigFile
      → FeeConfig F
      → BeaconJson
      → Outside
      → Result Error (Started F)
  unfolding new_reth_client new_beacon_client new_fee_engine new_context submission_config
  start default_signing env file fee_config json outside = do
    config ← load default_signing env file
    guard outside.logging startup_failure
    guard outside.pool database_failure
    guard outside.connection database_failure
    reth ← new_reth_client outside.http_client config.reth
    let fee_engine = new_fee_engine fee_config config
    beacon ← new_beacon_client outside.http_client config.beacon_api
    relay ← new_client outside.http_client config.constraints_api
    guard outside.polling_scheduler startup_failure
    polling_manager ← new_manager config.delegation.domain_application_gateway
    guard outside.polling_started startup_failure
    manager ← new_manager config.delegation.domain_application_gateway
    guard outside.submission_scheduler startup_failure
    guard outside.submission_started startup_failure
    guard outside.metrics startup_failure
    ok (record {
      context = new_context config fee_engine beacon json;
      manager = manager;
      submission = submission_config config relay;
      our_bls_pubkey = config.signing.bls_public_key;
      relay = relay;
      reth = reth;
    })
