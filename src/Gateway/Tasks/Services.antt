-- ===== src/Gateway/Tasks/Services.antt =====
-- Runs of the gateway between tables, and a quote of src/rpc/handlers.rs as such a run.
use preconfirmation_gateway.Common.{List, Result-cases, inl, inr}
use preconfirmation_gateway.Types.{Bytes, Text, CommitmentRequest, SignedCommitment}
use preconfirmation_gateway.Float.{F64}
use preconfirmation_gateway.Crates.{Crates}
use preconfirmation_gateway.Bls.{BlsManager}
use preconfirmation_gateway.Pricing.{Oracle}
use preconfirmation_gateway.Submission.{SubmissionConfig}
use preconfirmation_gateway.Rpc.{RpcContext, Tables, fee_handler, fee_slot}
use preconfirmation_gateway.Gateway.{Gateway, quote, here, next, Reach-trans}
use preconfirmation_gateway.Gateway.Tasks.{Run, at}

module _ {ℓ} {F : Type ℓ} ⦃f : F64 F⦄ ⦃x : Crates⦄ (context : RpcContext F) (manager : BlsManager)
    (config : SubmissionConfig) (our_bls_pubkey : Bytes) (signed : List SignedCommitment)
    (accepted : List (List Text)) where
  -- The gateway with some tables, and whatever its tasks hold.
  abbrev pub holding : Tables F → Gateway F
  holding tables = at context manager config our_bls_pubkey tables signed accepted

  abbrev pub Runs : Tables F → Tables F → Type ℓ
  Runs before after = Run context manager config our_bls_pubkey (holding before) (holding after)

  pub Runs-trans : {t t' t'' : Tables F} → Runs t t' → Runs t' t'' → Runs t t''
  Runs-trans r s = Reach-trans context manager config our_bls_pubkey r s

  pub fee_handler-Run :
      (oracle : Oracle) (request : CommitmentRequest) (tables : Tables F)
      → Runs tables (record tables {
        congestion = (fee_handler context.fee_engine oracle request tables.congestion).1;
      })
  unfolding fee_handler
  fee_handler-Run oracle request tables =
      elim (Result-cases (fee_slot context.fee_engine oracle.now request)) [
        | inr (e, p) ↦ rw (fee_handler, p) here
        | inl (slot, p) ↦
            rw (fee_handler, p)
              (next here (quote oracle request.commitment_type request.payload slot))
      ]
