-- ===== src/Startup/Ready.antt =====
-- Theorems on a gateway that src/main.rs has started.
use preconfirmation_gateway.Common.{
  ◌≡◌, refl, subst, true, [], ◌∷◌, ◌≤◌, All, ok, guard, >>=-eq-ok, ok-injective,
}
use preconfirmation_gateway.Types.{Bytes}
use preconfirmation_gateway.Error.{database_failure, startup_failure}
use preconfirmation_gateway.Float.{F64}
use preconfirmation_gateway.Crates.{Crates, IsHexCodec, IsSecp}
use preconfirmation_gateway.Crypto.{ecdsa_to_address, verify_commitment_signature}
use preconfirmation_gateway.Crypto.Signatures.{verify-sign_commitment}
use preconfirmation_gateway.Bls.{new_manager}
use preconfirmation_gateway.Beacon.{BeaconJson}
use preconfirmation_gateway.Commitments.{CommitmentRow, CommitmentTable, to_signed}
use preconfirmation_gateway.Delegations.{DelegationTable}
use preconfirmation_gateway.Congestion.Table.{CongestionTable}
use preconfirmation_gateway.Pricing.{FeeConfig}
use preconfirmation_gateway.Config.{Config, SigningConfig, Environment, ConfigFile, load}
use preconfirmation_gateway.Config.Loading.{IsLoaded, IsWhitelist, load-IsLoaded}
use preconfirmation_gateway.Relay.Client.{new_client}
use preconfirmation_gateway.Relay.Client.Limits.{new_client-ok}
use preconfirmation_gateway.Startup.{
  Outside, Started, start, new_reth_client, new_beacon_client, new_fee_engine, new_context,
  submission_config,
}
use preconfirmation_gateway.Rpc.{RpcContext}
use preconfirmation_gateway.Gateway.{Gateway, Reach}
use preconfirmation_gateway.Gateway.Authentic.{IsAuthenticRow, Reach-AllAuthentic}

-- A row that anyone can check against a public key.
abbrev pub Verifies : ⦃x : Crates⦄ → Bytes → CommitmentRow → Type 0
Verifies ⦃x⦄ key row =
    verify_commitment_signature (to_signed row).commitment row.signature (x.secp_public_key key)
    ≡ ok true

module _ {ℓ} {F : Type ℓ} ⦃f : F64 F⦄ ⦃x : Crates⦄ where
  -- The parts of a started gateway agree with one another and with the configuration.
  pub record IsReady (env : Environment) (file : ConfigFile) (s : Started F) : Type 0 where
    pub config : Config
    pub loaded : IsLoaded env file config
    pub address_of_key : s.context.committer_address ≡ ecdsa_to_address s.context.ecdsa_private_key
    pub same_address : s.submission.committer_address ≡ s.context.committer_address
    pub same_bls_key : s.our_bls_pubkey ≡ s.submission.bls_public_key
    pub whitelist : IsWhitelist s.context.slasher_whitelist
    pub manager_of : new_manager s.context.domain_application_gateway ≡ ok s.manager
    pub same_genesis : s.submission.genesis_time ≡ s.context.fee_engine.genesis_time
    pub few_retries : s.submission.max_retries ≤ 10

  -- A gateway starts only if its configuration was loaded, and then its parts fit together: the
  -- address that it announces belongs to the key that signs commitments, and is the submission service's; the
  -- polling and the submission service have the same BLS key; the whitelist is not empty; the
  -- manager that a request creates anew is the one of the start, so that it can be created; slots are counted from
  -- one genesis; and a submission has at most ten attempts.
  pub start-IsReady :
      (default_signing : SigningConfig) (env : Environment) (file : ConfigFile)
      (fee_config : FeeConfig F) (json : BeaconJson) (outside : Outside) (s : Started F)
      → start default_signing env file fee_config json outside ≡ ok s
      → IsReady env file s
  unfolding start new_context submission_config new_fee_engine
  start-IsReady default_signing env file fee_config json outside s h =
      let (config, p0, h0) = >>=-eq-ok (load default_signing env file) _ h in
      let (u1, p1, h1) = >>=-eq-ok (guard outside.logging startup_failure) _ h0 in
      let (u2, p2, h2) = >>=-eq-ok (guard outside.pool database_failure) _ h1 in
      let (u3, p3, h3) = >>=-eq-ok (guard outside.connection database_failure) _ h2 in
      let (reth, p4, h4) = >>=-eq-ok (new_reth_client outside.http_client config.reth) _ h3 in
      let (beacon, p5, h5) =
        >>=-eq-ok (new_beacon_client outside.http_client config.beacon_api) _ h4 in
      let (relay, p6, h6) =
        >>=-eq-ok (new_client outside.http_client config.constraints_api) _ h5 in
      let (u7, p7, h7) = >>=-eq-ok (guard outside.polling_scheduler startup_failure) _ h6 in
      let domain = config.delegation.domain_application_gateway in
      let (polling, p8, h8) = >>=-eq-ok (new_manager domain) _ h7 in
      let (u9, p9, h9) = >>=-eq-ok (guard outside.polling_started startup_failure) _ h8 in
      let (manager, p10, h10) = >>=-eq-ok (new_manager domain) _ h9 in
      let (u11, p11, h11) = >>=-eq-ok (guard outside.submission_scheduler startup_failure) _ h10 in
      let (u12, p12, h12) = >>=-eq-ok (guard outside.submission_started startup_failure) _ h11 in
      let (u13, p13, h13) = >>=-eq-ok (guard outside.metrics startup_failure) _ h12 in
      let loaded = load-IsLoaded default_signing env file config p0 in
      let (is_config, few) = new_client-ok outside.http_client config.constraints_api relay p6 in
      subst (IsReady env file) (ok-injective h13) (record {
        config = config;
        loaded = loaded;
        address_of_key = loaded.signing.address_of_key;
        same_address = refl;
        same_bls_key = refl;
        whitelist = loaded.whitelist;
        manager_of = p10;
        same_genesis = refl;
        few_retries = subst (λ c. c.max_retries ≤ 10) is_config few;
      })

  -- The tables before the first request, and no task that holds anything.
  abbrev pub fresh : DelegationTable → CongestionTable F → Gateway F
  fresh delegations congestion = record {
    tables = record { commitments = []; delegations = delegations; congestion = congestion };
    signed = [];
    accepted = [];
  }

  rows-Verifies :
      (context : RpcContext F) (codec : IsHexCodec x) (secp : IsSecp x) (t : CommitmentTable)
      → All (IsAuthenticRow context) t
      → All (Verifies context.ecdsa_private_key) t
  unfolding to_signed
  rows-Verifies context codec secp [] rows = tt
  rows-Verifies context codec secp (row ∷ t) rows = (
    verify-sign_commitment codec secp (to_signed row).commitment context.ecdsa_private_key
        row.signature rows.0.signed,
    rows-Verifies context codec secp t rows.1,
  )

  -- From a start without commitments, whatever its tasks do, every commitment that the gateway stores verifies
  -- under the public key whose address it announces as its committer address.
  pub start-Reach-Verifies :
      (codec : IsHexCodec x) (secp : IsSecp x) (default_signing : SigningConfig) (env : Environment)
      (file : ConfigFile) (fee_config : FeeConfig F) (json : BeaconJson) (outside : Outside)
      (s : Started F) (delegations : DelegationTable) (congestion : CongestionTable F)
      (g : Gateway F)
      → start default_signing env file fee_config json outside ≡ ok s
      → Reach s.context s.manager s.submission s.our_bls_pubkey (fresh delegations congestion) g
      → (s.context.committer_address ≡ ecdsa_to_address s.context.ecdsa_private_key)
        × All (Verifies s.context.ecdsa_private_key) g.tables.commitments
  start-Reach-Verifies codec secp default_signing env file fee_config json outside s delegations
        congestion g h r =
      let ready = start-IsReady default_signing env file fee_config json outside s h in
      let own =
        Reach-AllAuthentic s.context s.manager s.submission s.our_bls_pubkey r
          (record { in_flight = tt; stored = tt }) in
      (ready.address_of_key, rows-Verifies s.context codec secp g.tables.commitments own.stored)
