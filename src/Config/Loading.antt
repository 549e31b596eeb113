-- ===== src/Config/Loading.antt =====
-- Theorems on the configuration that src/config.rs lets the gateway start with.
use preconfirmation_gateway.Common.{
  ◌≡◌, refl, sym, ap, subst, arith, Bool, true, false, not, ◌||◌, List, [], ◌∷◌, some, any,
  is_empty, All, ok, guard, ok_or, ◌>>=◌, >>=-eq-ok, guard-eq-ok, ok_or-eq-ok, ok-injective,
}
use preconfirmation_gateway.Types.{Text}
use preconfirmation_gateway.Error.{
  empty_endpoint, placeholder_endpoint, not_http, empty_whitelist, invalid_address,
  missing_variable,
}
use preconfirmation_gateway.Crates.{Crates}
use preconfirmation_gateway.Crypto.{parse_private_key, ecdsa_to_address}
use preconfirmation_gateway.Config.{
  Config, SigningConfig, Environment, ConfigFile, missing, unreadable, unparsable, parsed, text,
  starts_with, contains, substitute_env_vars, check_endpoint, validate_beacon_endpoint,
  validate_endpoint, validate_each, validate_slasher_whitelist, is_address_like,
  beacon_placeholders, service_placeholders, reth_variable, constraints_variable, load_from_file,
  load_signing, parse_bls_key, load,
}

-- An endpoint that can be called: a URL of http or https, with none of the placeholders left in it.
pub record IsEndpoint (placeholders : List Text) (endpoint : Text) : Type 0 where
  pub no_placeholder : any (λ part. contains part endpoint) placeholders ≡ false
  pub has_scheme :
      (starts_with (text "http://") endpoint || starts_with (text "https://") endpoint) ≡ true

not-eq-true : (b : Bool) → not b ≡ true → b ≡ false
not-eq-true b h = ground arith

check_endpoint-ok :
    (placeholders : List Text) (endpoint : Text) {u : Unit}
    → check_endpoint placeholders endpoint ≡ ok u
    → IsEndpoint placeholders endpoint
unfolding check_endpoint
check_endpoint-ok placeholders endpoint h =
    let held = any (λ part. contains part endpoint) placeholders in
    let scheme = starts_with (text "http://") endpoint || starts_with (text "https://") endpoint in
    let (u, p, h1) =
      >>=-eq-ok (guard (not (is_empty endpoint)) empty_endpoint)
        (λ _. guard (not held) placeholder_endpoint >>= λ _. guard scheme not_http) h in
    let (v, q, h2) =
      >>=-eq-ok (guard (not held) placeholder_endpoint) (λ _. guard scheme not_http) h1 in
    record {
      no_placeholder = not-eq-true held (guard-eq-ok (not held) placeholder_endpoint q);
      has_scheme = guard-eq-ok scheme not_http h2;
    }

validate_each-ok :
    (addresses : List Text) {u : Unit}
    → validate_each addresses ≡ ok u
    → All (λ address. is_address_like address ≡ true) addresses
unfolding validate_each
validate_each-ok [] h = tt
validate_each-ok (address ∷ addresses) h =
    let (u, p, h1) =
      >>=-eq-ok (guard (is_address_like address) invalid_address) (λ _. validate_each addresses)
        h in
    (guard-eq-ok (is_address_like address) invalid_address p, validate_each-ok addresses h1)

-- A whitelist that is not empty and whose entries have the length of an address.
pub record IsWhitelist (addresses : List Text) : Type 0 where
  pub not_empty : is_empty addresses ≡ false
  pub entries : All (λ address. is_address_like address ≡ true) addresses

validate_slasher_whitelist-ok :
    (addresses : List Text) {u : Unit}
    → validate_slasher_whitelist addresses ≡ ok u
    → IsWhitelist addresses
unfolding validate_slasher_whitelist
validate_slasher_whitelist-ok addresses h =
    let (u, p, h1) =
      >>=-eq-ok (guard (not (is_empty addresses)) empty_whitelist) (λ _. validate_each addresses)
        h in
    record {
      not_empty = not-eq-true (is_empty addresses) (guard-eq-ok _ empty_whitelist p);
      entries = validate_each-ok addresses h1;
    }

module _ ⦃x : Crates⦄ where
  -- The keys of the environment, and the address that belongs to the key of the commitments.
  pub record IsSigning (env : Environment) (s : SigningConfig) : Type 0 where
    pub ecdsa_hex : Text
    pub ecdsa_set : env (text "COMMITTER_PRIVATE_KEY") ≡ some ecdsa_hex
    pub ecdsa_key : parse_private_key ecdsa_hex ≡ ok s.ecdsa_private_key
    pub address_of_key : s.committer_address ≡ ecdsa_to_address s.ecdsa_private_key
    pub bls_hex : Text
    pub bls_set : env (text "BLS_PRIVATE_KEY") ≡ some bls_hex
    pub bls_key : parse_bls_key bls_hex ≡ ok (s.bls_private_key, s.bls_public_key)

  load_signing-ok :
      (env : Environment) (s : SigningConfig) → load_signing env ≡ ok s → IsSigning env s
  unfolding load_signing
  load_signing-ok env s h =
      let (ecdsa_hex, p, h1) =
        >>=-eq-ok (ok_or (env (text "COMMITTER_PRIVATE_KEY")) missing_variable) _ h in
      let (key, q, h2) = >>=-eq-ok (parse_private_key ecdsa_hex) _ h1 in
      let (bls_hex, r, h3) =
        >>=-eq-ok (ok_or (env (text "BLS_PRIVATE_KEY")) missing_variable) _ h2 in
      let (bls, t, h4) = >>=-eq-ok (parse_bls_key bls_hex) _ h3 in
      subst (IsSigning env) (ok-injective h4) (record {
        ecdsa_hex = ecdsa_hex;
        ecdsa_set = ok_or-eq-ok (env (text "COMMITTER_PRIVATE_KEY")) missing_variable p;
        ecdsa_key = q;
        address_of_key = refl;
        bls_hex = bls_hex;
        bls_set = ok_or-eq-ok (env (text "BLS_PRIVATE_KEY")) missing_variable r;
        bls_key = t;
      })

  -- A configuration that the gateway starts with.
  pub record IsLoaded (env : Environment) (file : ConfigFile) (c : Config) : Type 0 where
    pub read : Config
    pub from_file : file ≡ parsed read
    pub substituted : c ≡ record (substitute_env_vars env read) { signing = c.signing }
    pub beacon : IsEndpoint beacon_placeholders c.beacon_api.primary_endpoint
    pub reth : IsEndpoint (service_placeholders reth_variable) c.reth.endpoint
    pub relay :
        IsEndpoint (service_placeholders constraints_variable) c.constraints_api.relay_endpoint
    pub whitelist : IsWhitelist c.slasher_whitelist
    pub signing : IsSigning env c.signing

  -- A whitelist that passes is not that of the defaults, so the file was there.
  file-parsed :
      (default_signing : SigningConfig) (file : ConfigFile) (read : Config)
      → load_from_file default_signing file ≡ ok read
      → IsWhitelist read.slasher_whitelist
      → file ≡ parsed read
  unfolding load_from_file
  file-parsed default_signing missing read h w =
      let same : [] ≡ read.slasher_whitelist =
        ap (λ (c : Config). c.slasher_whitelist) (ok-injective h) in
      let full = subst (λ (l : List Text). is_empty l ≡ false) (sym same) w.not_empty in cc
  file-parsed default_signing unreadable read h w = cc
  file-parsed default_signing unparsable read h w = cc
  file-parsed default_signing (parsed c) read h w = ap parsed (ok-injective h)

  -- The gateway starts only with a configuration from a file, never with the defaults alone: its three
  -- endpoints, after the substitution from the environment, are URLs of http or https without a placeholder; the
  -- whitelist of slashers is not empty, with entries of the length of an address; the keys are those of
  -- the environment, and the committer address belongs to the key that signs the commitments.
  pub load-IsLoaded :
      (default_signing : SigningConfig) (env : Environment) (file : ConfigFile) (c : Config)
      → load default_signing env file ≡ ok c
      → IsLoaded env file c
  unfolding load
  load-IsLoaded default_signing env file c h =
      let (read, p, h1) = >>=-eq-ok (load_from_file default_signing file) _ h in
      let (signing, q, h2) = >>=-eq-ok (load_signing env) _ h1 in
      let config : Config = record (substitute_env_vars env read) { signing = signing } in
      let (u0, r, h3) =
        >>=-eq-ok (validate_beacon_endpoint config.beacon_api.primary_endpoint) _ h2 in
      let (u1, s, h4) = >>=-eq-ok (validate_endpoint config.reth.endpoint reth_variable) _ h3 in
      let (u2, t, h5) =
        >>=-eq-ok (validate_endpoint config.constraints_api.relay_endpoint constraints_variable) _
          h4 in
      let (u3, v, h6) = >>=-eq-ok (validate_slasher_whitelist config.slasher_whitelist) _ h5 in
      let whitelist = validate_slasher_whitelist-ok config.slasher_whitelist v in
      subst (IsLoaded env file) (ok-injective h6) (record {
        read = read;
        from_file =
            file-parsed default_signing file read p (unfold substitute_env_vars in whitelist);
        substituted = refl;
        beacon =
            unfold validate_beacon_endpoint in
            check_endpoint-ok beacon_placeholders config.beacon_api.primary_endpoint r;
        reth =
            unfold validate_endpoint in
            check_endpoint-ok (service_placeholders reth_variable) config.reth.endpoint s;
        relay =
            unfold validate_endpoint in
            check_endpoint-ok (service_placeholders constraints_variable)
              config.constraints_api.relay_endpoint t;
        whitelist = whitelist;
        signing = load_signing-ok env signing q;
      })
