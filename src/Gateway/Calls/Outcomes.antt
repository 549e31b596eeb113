-- ===== src/Gateway/Calls/Outcomes.antt =====
-- The ends of a call of `commitment_request_handler` of src/rpc/handlers.rs.
use preconfirmation_gateway.Types.{CommitmentRequest, SignedCommitment}
use preconfirmation_gateway.Error.{Error}
use preconfirmation_gateway.Float.{F64}
use preconfirmation_gateway.Crates.{Crates}
use preconfirmation_gateway.Rpc.{RpcContext, Tables, World}
use preconfirmation_gateway.Gateway.Calls.{at_save, at_fee}

module _ {ℓ} {F : Type ℓ} ⦃f : F64 F⦄ ⦃x : Crates⦄ (context : RpcContext F) (world : World F)
    (request : CommitmentRequest) (tables : Tables F) where
  -- The tables in which the call saves, and those in which it computes the fee.
  abbrev saved_in : Tables F
  saved_in = at_save context world request tables

  abbrev fee_in : SignedCommitment → Tables F
  fee_in = at_fee context world request tables
