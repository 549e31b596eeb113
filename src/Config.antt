-- ===== src/Config.antt =====
-- src/config.rs: the configuration, from the file and the environment, and the checks that it passes
-- before the gateway starts.
pub mod Loading
use Prim.Native.Char.{code}
use Prim.Native.String.{String}
use preconfirmation_gateway.Common.{
  ℕ, Bool, true, false, not, ◌&&◌, ◌||◌, Option, none, some, List, [], ◌∷◌, ◌++◌, any, is_empty,
  length, ◌==◌, if◌then◌else◌, Result, ok, err, ◌>>=◌, ◌>>◌, ok_or, guard,
}
use preconfirmation_gateway.Types.{Bytes, Text}
use preconfirmation_gateway.Error.{
  Error, empty_endpoint, placeholder_endpoint, not_http, empty_whitelist, invalid_address,
  missing_variable, unreadable_file, invalid_private_key,
}
use preconfirmation_gateway.Crates.{Crates}
use preconfirmation_gateway.Crypto.{
  strip_prefix, hex_prefix, parse_hex_bytes, parse_private_key, ecdsa_to_address,
}

-- The bytes of an ASCII text.
abbrev pub text : String → Text
text String.[] = []
text (String.◌∷◌ c s) = code c ∷ text s

-- `str::starts_with` and `str::contains`
abbrev pub is_some : Option Text → Bool
is_some none = false
is_some (some s) = true

unfoldable pub starts_with : Text → Text → Bool
starts_with prefix s = is_some (strip_prefix prefix s)

unfoldable pub contains : Text → Text → Bool
unfolding starts_with
contains part [] = is_empty part
contains part (c ∷ s) = starts_with part (c ∷ s) || contains part s

pub record ServerConfig : Type 0 where
  pub host : Text
  pub port : ℕ

pub record BeaconSettings : Type 0 where
  pub primary_endpoint : Text
  pub fallback_endpoints : List Text
  pub request_timeout_secs : ℕ
  pub genesis_time : ℕ

pub record ConstraintsApiConfig : Type 0 where
  pub relay_endpoint : Text
  pub request_timeout_secs : ℕ
  pub max_retries : ℕ
  pub authorized_builders : List Text

pub record DelegationConfig : Type 0 where
  pub lookahead_epochs : ℕ
  pub polling_interval_secs : ℕ
  pub cache_ttl_secs : ℕ
  pub domain_application_gateway : Text

-- Without its `fee_config`, whose numbers the engine takes as they are.
pub record RethConfig : Type 0 where
  pub endpoint : Text
  pub request_timeout_secs : ℕ
  pub max_retries : ℕ

pub record SigningConfig : Type 0 where
  pub ecdsa_private_key : Bytes
  pub bls_private_key : Bytes
  pub bls_public_key : Bytes
  pub committer_address : Text

-- The logging section is left out.
pub record Config : Type 0 where
  pub server : ServerConfig
  pub database_url : Text
  pub slasher_whitelist : List Text
  pub beacon_api : BeaconSettings
  pub constraints_api : ConstraintsApiConfig
  pub delegation : DelegationConfig
  pub reth : RethConfig
  pub signing : SigningConfig

abbrev pub Environment : Type 0
Environment = Text → Option Text

-- What is found at the path of the file: `parsed` has what serde leaves of it, with the defaults.
pub data ConfigFile : Type 0 where
  missing unreadable unparsable : ConfigFile
  parsed : Config → ConfigFile

-- The defaults that matter to the checks; the keys are the deterministic ones of the source.
abbrev pub default_beacon : BeaconSettings
default_beacon = record {
  primary_endpoint = text "https://eth-mainnet.g.alchemy.com/v2/YOUR_API_KEY";
  fallback_endpoints = [];
  request_timeout_secs = 30;
  genesis_time = 1606824023;
}

abbrev pub default_constraints : ConstraintsApiConfig
default_constraints = record {
  relay_endpoint = text "https://relay.example.com";
  request_timeout_secs = 10;
  max_retries = 3;
  authorized_builders = [];
}

abbrev pub default_delegation : DelegationConfig
default_delegation = record {
  lookahead_epochs = 2;
  polling_interval_secs = 60;
  cache_ttl_secs = 300;
  domain_application_gateway = text "0x00000002";
}

abbrev pub default_reth : RethConfig
default_reth = record {
  endpoint = text "http://localhost:8545";
  request_timeout_secs = 10;
  max_retries = 3;
}

abbrev pub default_config : SigningConfig → Config
default_config signing = record {
  server = record { host = text "0.0.0.0"; port = 8080 };
  database_url = text "postgresql://localhost/preconfirmation_gateway";
  slasher_whitelist = [];
  beacon_api = default_beacon;
  constraints_api = default_constraints;
  delegation = default_delegation;
  reth = default_reth;
  signing = signing;
}

unfoldable pub load_from_file : SigningConfig → ConfigFile → Result Error Config
load_from_file default_signing missing = ok (default_config default_signing)
load_from_file default_signing unreadable = err unreadable_file
load_from_file default_signing unparsable = err unreadable_file
load_from_file default_signing (parsed config) = ok config

-- `${NAME}`
abbrev pub placeholder : Text → Text
placeholder env_var_name = text "${" ++ env_var_name ++ text "}"

abbrev pub or_kept : Option Text → Text → Text
or_kept none endpoint = endpoint
or_kept (some value) endpoint = value

-- An endpoint that holds the placeholder of a variable is replaced by its value, if it has one.
unfoldable pub substitute : Environment → Text → Text → Text
substitute env env_var_name endpoint =
    if contains (placeholder env_var_name) endpoint
    then or_kept (env env_var_name) endpoint
    else endpoint

abbrev pub beacon_variable : Text
beacon_variable = text "BEACON_API_ENDPOINT"

abbrev pub reth_variable : Text
reth_variable = text "RETH_ENDPOINT"

abbrev pub constraints_variable : Text
constraints_variable = text "CONSTRAINTS_API_ENDPOINT"

unfoldable pub substitute_env_vars : Environment → Config → Config
unfolding substitute
substitute_env_vars env c = record c {
  beacon_api = record (c.beacon_api) {
    primary_endpoint = substitute env beacon_variable c.beacon_api.primary_endpoint;
  };
  reth = record (c.reth) { endpoint = substitute env reth_variable c.reth.endpoint };
  constraints_api = record (c.constraints_api) {
    relay_endpoint = substitute env constraints_variable c.constraints_api.relay_endpoint;
  };
}

-- The checks of both validators: not empty, none of the placeholders, and the scheme.
unfoldable pub check_endpoint : List Text → Text → Result Error (Unit {0})
unfolding contains starts_with
check_endpoint placeholders endpoint = do
  guard (not (is_empty endpoint)) empty_endpoint
  guard (not (any (λ part. contains part endpoint) placeholders)) placeholder_endpoint
  guard (starts_with (text "http://") endpoint || starts_with (text "https://") endpoint) not_http

abbrev pub beacon_placeholders : List Text
beacon_placeholders =
    placeholder beacon_variable
    ∷ text "YOUR_API_KEY"
    ∷ text "YOUR_PROJECT_ID"
    ∷ text "REPLACE_ME"
    ∷ []

abbrev pub service_placeholders : Text → List Text
service_placeholders env_var_name =
    placeholder env_var_name ∷ text "REPLACE_ME" ∷ text "example.com" ∷ []

unfoldable pub validate_beacon_endpoint : Text → Result Error (Unit {0})
unfolding check_endpoint
validate_beacon_endpoint endpoint = check_endpoint beacon_placeholders endpoint

unfoldable pub validate_endpoint : Text → Text → Result Error (Unit {0})
unfolding check_endpoint
validate_endpoint endpoint env_var_name =
    check_endpoint (service_placeholders env_var_name) endpoint

-- `0x` and 42 bytes in all; what follows the prefix is not looked at.
abbrev pub is_address_like : Text → Bool
is_address_like address = starts_with hex_prefix address && length address == 42

unfoldable pub validate_each : List Text → Result Error (Unit {0})
unfolding starts_with
validate_each [] = ok tt
validate_each (address ∷ addresses) = do
  guard (is_address_like address) invalid_address
  validate_each addresses

unfoldable pub validate_slasher_whitelist : List Text → Result Error (Unit {0})
unfolding validate_each
validate_slasher_whitelist slasher_whitelist = do
  guard (not (is_empty slasher_whitelist)) empty_whitelist
  validate_each slasher_whitelist

module _ ⦃x : Crates⦄ where
  unfoldable pub parse_bls_key : Text → Result Error (Bytes × Bytes)
  parse_bls_key hex_str = do
    key_bytes ← parse_hex_bytes hex_str 32
    guard (x.blst_secret_key_valid key_bytes) invalid_private_key
    ok (key_bytes, x.blst_public_key key_bytes)

  -- `SigningConfig::load`
  unfoldable pub load_signing : Environment → Result Error SigningConfig
  unfolding parse_bls_key
  load_signing env = do
    private_key_hex ← ok_or (env (text "COMMITTER_PRIVATE_KEY")) missing_variable
    ecdsa_private_key ← parse_private_key private_key_hex
    bls_hex ← ok_or (env (text "BLS_PRIVATE_KEY")) missing_variable
    bls ← parse_bls_key bls_hex
    ok (record {
      ecdsa_private_key = ecdsa_private_key;
      bls_private_key = bls.0;
      bls_public_key = bls.1;
      committer_address = ecdsa_to_address ecdsa_private_key;
    })

  -- `Config::load`
  unfoldable pub load : SigningConfig → Environment → ConfigFile → Result Error Config
  load default_signing env file = do
    read ← load_from_file default_signing file
    signing ← load_signing env
    let config = record (substitute_env_vars env read) { signing = signing }
    validate_beacon_endpoint config.beacon_api.primary_endpoint
    validate_endpoint config.reth.endpoint reth_variable
    validate_endpoint config.constraints_api.relay_endpoint constraints_variable
    validate_slasher_whitelist config.slasher_whitelist
    ok config
