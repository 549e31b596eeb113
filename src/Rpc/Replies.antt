-- ===== src/Rpc/Replies.antt =====
-- Theorems on what `commitment_request_handler` of src/rpc/handlers.rs leaves behind.
use preconfirmation_gateway.Common.{
  ℕ, ◌≡◌, ◌≢◌, ◌∙◌, refl, sym, arith, true, false, any, some, ok, ok-injective, Result-cases,
  Option-cases, inl, inr,
}
use preconfirmation_gateway.Types.{Text, CommitmentRequest, SignedCommitment}
use preconfirmation_gateway.Float.{F64}
use preconfirmation_gateway.Crates.{Crates}
use preconfirmation_gateway.Crypto.{generate_request_hash}
use preconfirmation_gateway.Sql.{PgPool, commitment_by_hash}
use preconfirmation_gateway.Commitments.{has_hash, save_commitment}
use preconfirmation_gateway.Commitments.Store.{
  IsTable, save_commitment-IsTable, get-save_commitment, save_commitment-absent,
}
use preconfirmation_gateway.Pricing.{calculate_fee_for_commitment}
use preconfirmation_gateway.Rpc.{
  RpcContext, Tables, World, sign_request, save_request, track_gas, commitment_request_handler,
  commitment_result_handler,
}
use preconfirmation_gateway.Rpc.Requests.{commitment_request-authorised, commitment_request-stages}

module _ {ℓ} {F : Type ℓ} ⦃f : F64 F⦄ ⦃x : Crates⦄ (context : RpcContext F) (world : World F) where
  -- Other tasks leave the commitments as they are.
  abbrev pub Keeps : (Tables F → Tables F) → Type ℓ
  Keeps others = (t : Tables F) → (others t).commitments ≡ t.commitments

  track_gas-Keeps :
      (slot : ℕ) (sc : SignedCommitment) (tables : Tables F)
      → Keeps world.before_update
      → (track_gas context world slot sc tables).1.commitments ≡ tables.commitments
  unfolding track_gas
  track_gas-Keeps slot sc tables keep =
      let fee =
        calculate_fee_for_commitment context.fee_engine world.oracle sc.commitment.commitment_type
          sc.commitment.payload slot tables.congestion in
      ground (arith, keep (record tables { congestion = fee.1 }))

  -- A signed commitment that is inserted can be fetched by its hash from then on, whether the fee that
  -- is computed after it can be or not, while no other task changes the commitments.
  save_request-fetched :
      (slot : ℕ) (sc : SignedCommitment) (tables : Tables F) (id : ℕ) (later : PgPool)
      → Keeps world.before_fee
      → Keeps world.before_update
      → later commitment_by_hash ≡ false
      → (save_commitment world.oracle.pool world.commitment_id sc tables.commitments).0
        ≡ ok (some id)
      → commitment_result_handler later sc.commitment.request_hash
          (save_request context world slot sc tables).1.commitments
        ≡ ok sc
  unfolding save_request commitment_result_handler
  save_request-fetched slot sc tables id later keep keep' up h =
      let saved = save_commitment world.oracle.pool world.commitment_id sc tables.commitments in
      let after_save : Tables F = record tables { commitments = saved.1 } in
      rw
        (
          save_request,
          h,
          track_gas-Keeps slot sc (world.before_fee after_save) keep',
          keep after_save,
        )
        (rw
          (get-save_commitment world.oracle.pool world.commitment_id id sc tables.commitments later
            up h).0
          refl)

  -- A request that is answered with a commitment can be looked up by the hash of the answer, which finds
  -- just that answer, while no other task changes the commitments after the insertion.
  pub commitment_request-result :
      (request : CommitmentRequest) (tables : Tables F) (answer : SignedCommitment) (later : PgPool)
      → Keeps world.before_fee
      → Keeps world.before_update
      → later commitment_by_hash ≡ false
      → (commitment_request_handler context world request tables).0 ≡ ok answer
      → commitment_result_handler later answer.commitment.request_hash
          (commitment_request_handler context world request tables).1.commitments
        ≡ ok answer
  unfolding commitment_request_handler
  commitment_request-result request tables answer later keep keep' up h =
      let (slot, p, (id, q)) = commitment_request-stages context world request tables answer h in
      rw (commitment_request_handler, p)
        (save_request-fetched slot answer (world.before_save (world.before_delegations tables)) id
          later keep keep' up q)

  -- A request hash is answered once: where a commitment with the hash of the request stands in the
  -- table when the handler saves, by whatever race it came there, the handler returns no commitment.
  pub commitment_request-once :
      (request : CommitmentRequest) (tables : Tables F) (hash : Text) (answer : SignedCommitment)
      → generate_request_hash request ≡ ok hash
      → any (has_hash hash) (world.before_save (world.before_delegations tables)).commitments ≡ true
      → (commitment_request_handler context world request tables).0 ≢ ok answer
  commitment_request-once request tables hash answer p taken h =
      let (slot, signed, (id, q)) =
        commitment_request-authorised context world request tables answer h in
      let same = ok-injective (sym p ∙ signed.hash_of) in
      let absent =
        save_commitment-absent world.oracle.pool world.commitment_id id answer
          (world.before_save (world.before_delegations tables)).commitments q in
      let taken' = rw same at taken in cc

  save_request-IsTable :
      (slot : ℕ) (sc : SignedCommitment) (tables : Tables F)
      → Keeps world.before_fee
      → Keeps world.before_update
      → IsTable tables.commitments
      → IsTable (save_request context world slot sc tables).1.commitments
  unfolding save_request
  save_request-IsTable slot sc tables keep keep' v =
      let saved = save_commitment world.oracle.pool world.commitment_id sc tables.commitments in
      let after_save : Tables F = record tables { commitments = saved.1 } in
      let valid =
        save_commitment-IsTable world.oracle.pool world.commitment_id sc tables.commitments v in
      elim (Result-cases saved.0) [
        | inr (e, p) ↦ rw (save_request, p) valid
        | inl (o, p) ↦ elim (Option-cases o) [
          | inl q ↦ rw (save_request, p, q) valid
          | inr (id, q) ↦
              rw
                (
                  save_request,
                  p,
                  q,
                  track_gas-Keeps slot sc (world.before_fee after_save) keep',
                  keep after_save,
                )
                valid
        ]
      ]

  -- The handler keeps the table of commitments valid, whatever it answers, if the other tasks do.
  pub commitment_request-IsTable :
      (request : CommitmentRequest) (tables : Tables F)
      → ((t : Tables F) → IsTable t.commitments → IsTable (world.before_delegations t).commitments)
      → ((t : Tables F) → IsTable t.commitments → IsTable (world.before_save t).commitments)
      → Keeps world.before_fee
      → Keeps world.before_update
      → IsTable tables.commitments
      → IsTable (commitment_request_handler context world request tables).1.commitments
  unfolding commitment_request_handler
  commitment_request-IsTable request tables valid valid' keep keep' v =
      elim (Result-cases (sign_request context world request tables)) [
        | inr (e, p) ↦ rw (commitment_request_handler, p) v
        | inl ((slot, sc), p) ↦
            rw (commitment_request_handler, p)
              (save_request-IsTable slot sc (world.before_save (world.before_delegations tables))
                keep keep' (valid' (world.before_delegations tables) (valid tables v)))
      ]
