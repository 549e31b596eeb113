-- ===== src/Rpc/Requests.antt =====
-- Theorems on the checks of `commitment_request_handler` of src/rpc/handlers.rs.
use preconfirmation_gateway.Common.{
  ℕ, ◌≡◌, ◌∙◌, refl, ap, subst, arith, Bool, true, false, not, any, some, ok, guard, map_err,
  >>=-eq-ok, guard-eq-ok, map_err-eq-ok, ok-injective, ◌==◌, Result-cases, Option-cases, inl, inr,
  ==_iff,
}
use preconfirmation_gateway.Types.{
  Bytes, Text, CommitmentRequest, SignedCommitment, SignedDelegation,
}
use preconfirmation_gateway.Error.{
  invalid_params, invalid_request, committer_mismatch, invalid_address,
}
use preconfirmation_gateway.Float.{F64}
use preconfirmation_gateway.Crates.{Crates}
use preconfirmation_gateway.Crypto.{generate_request_hash, sign_commitment}
use preconfirmation_gateway.Payload.{extract_slot}
use preconfirmation_gateway.Commitments.{commitment_exists, save_commitment}
use preconfirmation_gateway.Rpc.{
  RpcContext, Tables, World, same_address, validate_slasher_address, find_signing_key_for_committer,
  verify_delegation_authority, sign_request, save_request, track_gas, commitment_for,
  commitment_request_handler, validate_and_extract_slot, refused, malformed, internal,
}
use preconfirmation_gateway.Rpc.Authority.{IsAuthority, verify_delegation_authority-ok}

not-eq-true : (b : Bool) → not b ≡ true → b ≡ false
not-eq-true b h = ground arith

module _ {ℓ} {F : Type ℓ} ⦃f : F64 F⦄ ⦃x : Crates⦄ (context : RpcContext F) (world : World F) where
  -- What the gateway has made sure of when it signs: the type, the whitelist, the slot, a new request
  -- hash, the authority, and that the key is the one of the delegation's committer.
  pub record IsSigned (request : CommitmentRequest) (tables : Tables F) (slot : ℕ)
      (sc : SignedCommitment) : Type ℓ where
    pub type_one : request.commitment_type ≡ 1
    pub whitelisted :
        any (λ listed. same_address listed request.slasher) context.slasher_whitelist ≡ true
    pub slot_of : extract_slot request.commitment_type request.payload ≡ ok slot
    pub hash_of : generate_request_hash request ≡ ok sc.commitment.request_hash
    pub answers : sc.commitment ≡ commitment_for context world request sc.commitment.request_hash
    pub is_new :
        commitment_exists world.oracle.pool sc.commitment.request_hash tables.commitments ≡ ok false
    pub delegation : SignedDelegation
    pub authority :
        IsAuthority context world slot request.slasher
          (world.before_delegations tables).delegations
          delegation
    pub is_committer : same_address delegation.message.committer context.committer_address ≡ true
    pub signed : sign_commitment sc.commitment context.ecdsa_private_key ≡ ok sc.signature

  key-committer :
      (committer : Text) (key : Bytes)
      → find_signing_key_for_committer context committer ≡ ok key
      → (same_address committer context.committer_address ≡ true)
        × (context.ecdsa_private_key ≡ key)
  unfolding find_signing_key_for_committer
  key-committer committer key h =
      let same = same_address committer context.committer_address in
      let (u, p, e) = >>=-eq-ok (guard same committer_mismatch) _ h in
      (guard-eq-ok same committer_mismatch p, ok-injective e)

  pub sign_request-ok :
      (request : CommitmentRequest) (tables : Tables F) (slot : ℕ) (sc : SignedCommitment)
      → sign_request context world request tables ≡ ok (slot, sc)
      → IsSigned request tables slot sc
  unfolding sign_request validate_slasher_address validate_and_extract_slot
  sign_request-ok request tables slot sc h =
      let t' = (world.before_delegations tables).delegations in
      let listed = any (λ listed. same_address listed request.slasher) context.slasher_whitelist in
      let (u0, p0, h0) = >>=-eq-ok (guard (request.commitment_type == 1) invalid_params) _ h in
      let (u1, p1, h1) =
        >>=-eq-ok (map_err (refused context world) (guard listed invalid_address)) _ h0 in
      let slot_result = extract_slot request.commitment_type request.payload in
      let (s, p2, h2) = >>=-eq-ok (map_err (malformed context world) slot_result) _ h1 in
      let hash_result = generate_request_hash request in
      let (hash, p3, h3) = >>=-eq-ok (map_err (internal context world) hash_result) _ h2 in
      let exists_result = commitment_exists world.oracle.pool hash tables.commitments in
      let (exists, p4, h4) = >>=-eq-ok (map_err (internal context world) exists_result) _ h3 in
      let (u5, p5, h5) = >>=-eq-ok (guard (not exists) invalid_request) _ h4 in
      let authority = verify_delegation_authority context world s request.slasher t' in
      let (committer, p6, h6) = >>=-eq-ok (map_err (refused context world) authority) _ h5 in
      let key_result = find_signing_key_for_committer context committer in
      let (key, p7, h7) = >>=-eq-ok (map_err (refused context world) key_result) _ h6 in
      let signing = sign_commitment (commitment_for context world request hash) key in
      let (signature, p8, h8) = >>=-eq-ok (map_err (internal context world) signing) _ h7 in
      let (d, is_authority, same) =
        verify_delegation_authority-ok context world s request.slasher committer t'
          (map_err-eq-ok (refused context world) authority p6) in
      let (is_committer, is_key) =
        key-committer committer key (map_err-eq-ok (refused context world) key_result p7) in
      subst (λ r. IsSigned request tables r.0 r.1) (ok-injective h8)
        (record {
          type_one = (==_iff request.commitment_type 1).0 (guard-eq-ok _ invalid_params p0);
          whitelisted =
              guard-eq-ok listed invalid_address
                (map_err-eq-ok (refused context world) (guard listed invalid_address) p1);
          slot_of = map_err-eq-ok (malformed context world) slot_result p2;
          hash_of = map_err-eq-ok (internal context world) hash_result p3;
          answers = refl;
          is_new =
              map_err-eq-ok (internal context world) exists_result p4
              ∙ ap ok (not-eq-true exists (guard-eq-ok (not exists) invalid_request p5));
          delegation = d;
          authority = is_authority;
          is_committer = rw same is_committer;
          signed =
              ap (sign_commitment (commitment_for context world request hash)) is_key
              ∙ map_err-eq-ok (internal context world) signing p8;
        })

  track_gas-commitments :
      (slot : ℕ) (sc answer : SignedCommitment) (tables : Tables F)
      → (track_gas context world slot sc tables).0 ≡ ok answer
      → answer ≡ sc
  unfolding track_gas
  track_gas-commitments slot sc answer tables h = ground (arith, h)

  save_request-ok :
      (slot : ℕ) (sc answer : SignedCommitment) (tables : Tables F)
      → (save_request context world slot sc tables).0 ≡ ok answer
      → (answer ≡ sc)
        × ((id : ℕ) × ((save_commitment world.oracle.pool world.commitment_id sc
                tables.commitments).0
              ≡ ok (some id)))
  unfolding save_request
  save_request-ok slot sc answer tables h =
      let saved = save_commitment world.oracle.pool world.commitment_id sc tables.commitments in
      elim (Result-cases saved.0) [
        | inr (e, p) ↦ (let h' = rw (save_request, p) at h in cc)
        | inl (o, p) ↦ elim (Option-cases o) [
          | inl q ↦ (let h' = rw (save_request, p, q) at h in cc)
          | inr (id, q) ↦ (
            track_gas-commitments slot sc answer
                (world.before_fee (record tables { commitments = saved.1 }))
                (rw (save_request, p, q) at h),
            (id, p ∙ ap ok q),
          )
        ]
      ]

  -- The two stages of a request that is answered with a commitment.
  pub commitment_request-stages :
      (request : CommitmentRequest) (tables : Tables F) (answer : SignedCommitment)
      → (commitment_request_handler context world request tables).0 ≡ ok answer
      → (slot : ℕ) × (sign_request context world request tables ≡ ok (slot, answer))
        × ((id : ℕ) × ((save_commitment world.oracle.pool world.commitment_id answer
                (world.before_save (world.before_delegations tables)).commitments).0
              ≡ ok (some id)))
  unfolding commitment_request_handler
  commitment_request-stages request tables answer h =
      elim (Result-cases (sign_request context world request tables)) [
        | inr (e, p) ↦ (let h' = rw (commitment_request_handler, p) at h in cc)
        | inl ((slot, sc), p) ↦
            (let (same, (id, q)) =
                save_request-ok slot sc answer (world.before_save (world.before_delegations tables))
                  (rw (commitment_request_handler, p) at h) in
              (slot, rw same p, (id, rw same q)))
      ]

  -- A request that is answered with a commitment has passed every check, and the answer was inserted:
  -- its type is 1 and its slasher is on the whitelist; a stored delegation for the slot of its payload,
  -- with a valid signature of the proposer that the beacon chain has scheduled, names a committer that
  -- is both the slasher and the gateway's own address; and the answer repeats the request, with its
  -- hash, under a signature of the gateway's key.
  pub commitment_request-authorised :
      (request : CommitmentRequest) (tables : Tables F) (answer : SignedCommitment)
      → (commitment_request_handler context world request tables).0 ≡ ok answer
      → (slot : ℕ) × IsSigned request tables slot answer
        × ((id : ℕ) × ((save_commitment world.oracle.pool world.commitment_id answer
                (world.before_save (world.before_delegations tables)).commitments).0
              ≡ ok (some id)))
  commitment_request-authorised request tables answer h =
      let (slot, p, q) = commitment_request-stages request tables answer h in
      (slot, sign_request-ok request tables slot answer p, q)
