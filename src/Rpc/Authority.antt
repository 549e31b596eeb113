-- ===== src/Rpc/Authority.antt =====
-- Theorems on `verify_delegation_authority` of src/rpc/handlers.rs.
use preconfirmation_gateway.Common.{
  ℕ, ◌≡◌, ◌∙◌, ap, true, find, some, List, bytes_eq, bytes_eq→eq, ok, guard, ok_or, >>=-eq-ok,
  guard-eq-ok, ok_or-eq-ok, ok-injective,
}
use preconfirmation_gateway.Types.{Text, SignedDelegation, ValidatorDuty}
use preconfirmation_gateway.Error.{no_delegation, invalid_delegation_signature, committer_mismatch}
use preconfirmation_gateway.Float.{F64}
use preconfirmation_gateway.Crates.{Crates}
use preconfirmation_gateway.Bls.{new_manager, verify_delegation_signature}
use preconfirmation_gateway.Delegations.{DelegationTable, get_delegations_for_slot}
use preconfirmation_gateway.Beacon.{get_proposer_for_slot, parse_pubkey}
use preconfirmation_gateway.Rpc.{
  RpcContext, World, is_for, verify_proposer, verify_delegation_authority,
}

module _ {ℓ} {F : Type ℓ} ⦃f : F64 F⦄ ⦃x : Crates⦄ (context : RpcContext F) (world : World F) where
  -- The delegation that lets the gateway commit for a slot in the name of an address.
  pub record IsAuthority (slot : ℕ) (slasher : Text) (table : DelegationTable)
      (d : SignedDelegation) : Type 0 where
    pub stored : List SignedDelegation
    pub fetched : get_delegations_for_slot world.oracle.pool slot table ≡ ok stored
    pub listed : find (is_for slot slasher) stored ≡ some d
    pub verified : verify_delegation_signature d ≡ ok true
    pub duty : ValidatorDuty
    pub scheduled :
        get_proposer_for_slot context.beacon_json world.net context.beacon slot ≡ ok (some duty)
    pub proposes : parse_pubkey duty ≡ ok d.message.proposer

  proposer-scheduled :
      (slot : ℕ) (d : SignedDelegation) {u : Unit}
      → verify_proposer context world slot d ≡ ok u
      → (duty : ValidatorDuty) × (get_proposer_for_slot context.beacon_json world.net context.beacon
            slot
          ≡ ok (some duty))
        × (parse_pubkey duty ≡ ok d.message.proposer)
  unfolding verify_proposer
  proposer-scheduled slot d h =
      let (scheduled, p, h1) =
        >>=-eq-ok (get_proposer_for_slot context.beacon_json world.net context.beacon slot) _ h in
      let (duty, q, h2) = >>=-eq-ok (ok_or scheduled no_delegation) _ h1 in
      let (key, r, h3) = >>=-eq-ok (parse_pubkey duty) _ h2 in
      let same = guard-eq-ok (bytes_eq key d.message.proposer) committer_mismatch h3 in
      (
        duty,
        p ∙ ap ok (ok_or-eq-ok scheduled no_delegation q),
        r ∙ ap ok (bytes_eq→eq key d.message.proposer same),
      )

  -- Where the check of the authority succeeds, it names the committer of such a delegation.
  pub verify_delegation_authority-ok :
      (slot : ℕ) (slasher committer : Text) (table : DelegationTable)
      → verify_delegation_authority context world slot slasher table ≡ ok committer
      → (d : SignedDelegation) × IsAuthority slot slasher table d
        × (d.message.committer ≡ committer)
  unfolding verify_delegation_authority
  verify_delegation_authority-ok slot slasher committer table h =
      let (stored, p, h1) = >>=-eq-ok (get_delegations_for_slot world.oracle.pool slot table) _ h in
      let (d, q, h2) = >>=-eq-ok (ok_or (find (is_for slot slasher) stored) no_delegation) _ h1 in
      let (manager, r, h3) = >>=-eq-ok (new_manager context.domain_application_gateway) _ h2 in
      let (valid, s, h4) = >>=-eq-ok (verify_delegation_signature d) _ h3 in
      let (u, v, h5) = >>=-eq-ok (guard valid invalid_delegation_signature) _ h4 in
      let (w, z, h6) = >>=-eq-ok (verify_proposer context world slot d) _ h5 in
      let (duty, a, b) = proposer-scheduled slot d z in
      (
        d,
        record {
          stored = stored;
          fetched = p;
          listed = ok_or-eq-ok (find (is_for slot slasher) stored) no_delegation q;
          verified = s ∙ ap ok (guard-eq-ok valid invalid_delegation_signature v);
          duty = duty;
          scheduled = a;
          proposes = b;
        },
        ok-injective h6,
      )
