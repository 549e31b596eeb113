-- ===== src/Gateway/Authentic.antt =====
-- Where the rows of the running gateway's table of commitments come from.
use preconfirmation_gateway.Common.{
  ℕ, ◌≡◌, ◌∙◌, sym, ap, subst, arith, true, List, [], ◌∷◌, ◌++◌, map, any, find-passes, All,
  All-append, ok, inl, inr, Bool-cases,
}
use preconfirmation_gateway.Types.{
  Bytes, Text, CommitmentRequest, Commitment, SignedCommitment, SignedDelegation, is_valid_for_slot,
}
use preconfirmation_gateway.Float.{F64}
use preconfirmation_gateway.Crates.{Crates}
use preconfirmation_gateway.Crypto.{generate_request_hash, sign_commitment}
use preconfirmation_gateway.Bls.{BlsManager, verify_delegation_signature}
use preconfirmation_gateway.Payload.{extract_slot}
use preconfirmation_gateway.Sql.{PgPool, mark_processed}
use preconfirmation_gateway.Commitments.{
  CommitmentRow, CommitmentTable, to_signed, to_row, save_commitment, mark_row,
  mark_commitments_as_processed,
}
use preconfirmation_gateway.Submission.{SubmissionConfig}
use preconfirmation_gateway.Rpc.{RpcContext, Tables, World, is_for, same_address, sign_request}
use preconfirmation_gateway.Rpc.Requests.{sign_request-ok}
use preconfirmation_gateway.Gateway.{
  Gateway, Step, sign, save, quote, charge, poll, expire, deactivate, submit, mark, restart, Reach,
  here, next,
}
use preconfirmation_gateway.Gateway.Ledger.{save_commitment-cases}

abbrev pub request_of : Commitment → CommitmentRequest
request_of c = record {
  commitment_type = c.commitment_type;
  payload = c.payload;
  slasher = c.slasher;
}

to_signed-mark :
    (hashes : List Text) (row : CommitmentRow) → to_signed (mark_row hashes row) ≡ to_signed row
unfolding to_signed mark_row
to_signed-mark hashes row = ground arith

All-split {ℓ κ} :
    {A : Type ℓ} (P : A → Type κ) (front back : List A) (a : A)
    → All P (front ++ a ∷ back)
    → All P front × P a × All P back
All-split P [] back a h = (tt, h.0, h.1)
All-split P (x ∷ front) back a h =
    let (before, new, after) = All-split P front back a h.1 in ((h.0, before), new, after)

module _ {ℓ} {F : Type ℓ} ⦃f : F64 F⦄ ⦃x : Crates⦄ (context : RpcContext F) where
  -- A commitment that the gateway itself has made: an inclusion commitment to a slasher on the whitelist,
  -- for a slot for which a proposer has delegated to the gateway's address, with the hash of its own
  -- content and a signature of the gateway's key.
  pub record IsAuthentic (sc : SignedCommitment) : Type 0 where
    pub type_one : sc.commitment.commitment_type ≡ 1
    pub whitelisted :
        any (λ listed. same_address listed sc.commitment.slasher) context.slasher_whitelist ≡ true
    pub slot : ℕ
    pub slot_of : extract_slot sc.commitment.commitment_type sc.commitment.payload ≡ ok slot
    pub delegation : SignedDelegation
    pub for_slot : is_valid_for_slot delegation slot ≡ true
    pub verified : verify_delegation_signature delegation ≡ ok true
    pub to_slasher : same_address delegation.message.committer sc.commitment.slasher ≡ true
    pub to_us : same_address delegation.message.committer context.committer_address ≡ true
    pub hash_of : generate_request_hash (request_of sc.commitment) ≡ ok sc.commitment.request_hash
    pub signed : sign_commitment sc.commitment context.ecdsa_private_key ≡ ok sc.signature

  sign_request-IsAuthentic :
      (world : World F) (request : CommitmentRequest) (tables : Tables F) (slot : ℕ)
      (sc : SignedCommitment)
      → sign_request context world request tables ≡ ok (slot, sc)
      → IsAuthentic sc
  sign_request-IsAuthentic world request tables slot sc h =
      let s = sign_request-ok context world request tables slot sc h in
      let a = s.authority in
      let e_type = ap (λ (c : Commitment). c.commitment_type) s.answers in
      let e_payload = ap (λ (c : Commitment). c.payload) s.answers in
      let e_slasher = ap (λ (c : Commitment). c.slasher) s.answers in
      let e_request : request_of sc.commitment ≡ request = ap request_of s.answers in
      let is_listed = find-passes (is_for slot request.slasher) a.stored s.delegation a.listed in
      record {
        type_one = e_type ∙ s.type_one;
        whitelisted = rw e_slasher s.whitelisted;
        slot = slot;
        slot_of = rw (e_type, e_payload) s.slot_of;
        delegation = s.delegation;
        for_slot = ground (arith, is_listed);
        verified = a.verified;
        to_slasher = rw e_slasher (ground (arith, is_listed));
        to_us = s.is_committer;
        hash_of = rw e_request s.hash_of;
        signed = s.signed;
      }

  abbrev pub IsAuthenticRow : CommitmentRow → Type 0
  IsAuthenticRow row = IsAuthentic (to_signed row)

  save-IsAuthentic :
      (pool : PgPool) (id : ℕ) (sc : SignedCommitment) (t : CommitmentTable)
      → All IsAuthenticRow t
      → IsAuthentic sc
      → All IsAuthenticRow (save_commitment pool id sc t).1
  unfolding to_signed to_row
  save-IsAuthentic pool id sc t rows new = elim (save_commitment-cases pool id sc t) [
    | inl unchanged ↦ rw unchanged rows
    | inr (appended, free) ↦
        subst (All IsAuthenticRow) (sym appended)
          (All-append IsAuthenticRow t (to_row id sc ∷ []) rows (new, tt))
  ]

  map-mark-IsAuthentic :
      (hashes : List Text) (t : CommitmentTable)
      → All IsAuthenticRow t
      → All IsAuthenticRow (map (mark_row hashes) t)
  map-mark-IsAuthentic hashes [] rows = tt
  map-mark-IsAuthentic hashes (row ∷ t) rows = (
    subst IsAuthentic (sym (to_signed-mark hashes row)) rows.0,
    map-mark-IsAuthentic hashes t rows.1,
  )

  mark-IsAuthentic :
      (pool : PgPool) (hashes : List Text) (t : CommitmentTable)
      → All IsAuthenticRow t
      → All IsAuthenticRow (mark_commitments_as_processed pool hashes t).1
  unfolding mark_commitments_as_processed
  mark-IsAuthentic pool [] t rows = rows
  mark-IsAuthentic pool (hash ∷ hashes) t rows = elim (Bool-cases (pool mark_processed)) [
    | inl down ↦ rw (mark_commitments_as_processed, down) rows
    | inr up ↦ rw (mark_commitments_as_processed, up) (map-mark-IsAuthentic (hash ∷ hashes) t rows)
  ]

  -- What is in flight or stored is the gateway's own.
  pub record AllAuthentic (g : Gateway F) : Type ℓ where
    pub in_flight : All IsAuthentic g.signed
    pub stored : All IsAuthenticRow g.tables.commitments

  module _ (manager : BlsManager) (config : SubmissionConfig) (our_bls_pubkey : Bytes) where
    Step-AllAuthentic :
        {g g' : Gateway F}
        → Step context manager config our_bls_pubkey g g'
        → AllAuthentic g
        → AllAuthentic g'
    Step-AllAuthentic (sign world request earlier slot sc e h) v = record {
      in_flight = (sign_request-IsAuthentic world request earlier slot sc h, v.in_flight);
      stored = v.stored;
    }
    Step-AllAuthentic {g} (save pool id front back sc e) v =
        let (before, new, after) =
          All-split IsAuthentic front back sc (subst (All IsAuthentic) e v.in_flight) in
        record {
          in_flight = All-append IsAuthentic front back before after;
          stored = save-IsAuthentic pool id sc g.tables.commitments v.stored new;
        }
    Step-AllAuthentic (quote oracle commitment_type payload slot) v = record {
      in_flight = v.in_flight;
      stored = v.stored;
    }
    Step-AllAuthentic (charge oracle slot gas) v = record {
      in_flight = v.in_flight;
      stored = v.stored;
    }
    Step-AllAuthentic (poll fetched statuses pool ids) v = record {
      in_flight = v.in_flight;
      stored = v.stored;
    }
    Step-AllAuthentic (expire pool current_slot) v = record {
      in_flight = v.in_flight;
      stored = v.stored;
    }
    Step-AllAuthentic (deactivate statuses pool n row) v = record {
      in_flight = v.in_flight;
      stored = v.stored;
    }
    Step-AllAuthentic (submit replies pool d slot status constraints hashes e h) v = record {
      in_flight = v.in_flight;
      stored = v.stored;
    }
    Step-AllAuthentic {g} (mark pool front back hashes e) v = record {
      in_flight = v.in_flight;
      stored = mark-IsAuthentic pool hashes g.tables.commitments v.stored;
    }
    Step-AllAuthentic restart v = record { in_flight = tt; stored = v.stored }

    -- If the commitments that are stored and in flight are the gateway's own at first, as where there are
    -- none, they are so after any run: each is of type 1, to a slasher on the whitelist, for a slot with a
    -- signed delegation to the gateway's address, which is the slasher's too, under the hash of its own
    -- content and a signature of the gateway's key.
    pub Reach-AllAuthentic :
        {g g' : Gateway F}
        → Reach context manager config our_bls_pubkey g g'
        → AllAuthentic g
        → AllAuthentic g'
    Reach-AllAuthentic here v = v
    Reach-AllAuthentic (next r st) v = Step-AllAuthentic st (Reach-AllAuthentic r v)
