-- ===== src/Gateway.antt =====
-- The running gateway: the tasks of src/main.rs and src/server.rs over one database. A step is one
-- operation on a table by one task, and the steps of the tasks are interleaved in any order.
pub mod Validity
pub mod Ledger
pub mod Authentic
pub mod Tasks
pub mod Calls
pub mod Slots
use preconfirmation_gateway.Common.{ℕ, ◌≡◌, List, [], ◌∷◌, ◌++◌, Result, ok}
use preconfirmation_gateway.Types.{
  Bytes, Text, CommitmentRequest, SignedCommitment, SignedDelegation, Constraint,
}
use preconfirmation_gateway.Error.{Error}
use preconfirmation_gateway.Float.{F64}
use preconfirmation_gateway.Crates.{Crates}
use preconfirmation_gateway.Bls.{BlsManager}
use preconfirmation_gateway.Sql.{PgPool}
use preconfirmation_gateway.Commitments.{
  CommitmentTable, save_commitment, mark_commitments_as_processed,
}
use preconfirmation_gateway.Delegations.{DelegationTable, deactivate_expired_delegations}
use preconfirmation_gateway.Congestion.Table.{CongestionTable}
use preconfirmation_gateway.Pricing.{Oracle, calculate_fee_for_commitment, apply_gas_usage_to_slot}
use preconfirmation_gateway.Submission.{
  SubmissionConfig, Replies, create_constraints_from_commitments, submit_for,
}
use preconfirmation_gateway.Polling.{Statuses, poll_delegations_for_slot, deactivate_ineligible}
use preconfirmation_gateway.Rpc.{RpcContext, Tables, World, sign_request}

-- The tables, and what the tasks hold between two of their statements: commitments that are signed and
-- not yet saved, and the hashes of commitments that the relay has accepted and that are not yet marked.
pub record Gateway {ℓ} (F : Type ℓ) : Type ℓ where
  pub tables : Tables F
  pub signed : List SignedCommitment
  pub accepted : List (List Text)

abbrev pub with_commitments {ℓ} : {F : Type ℓ} → Gateway F → CommitmentTable → Gateway F
with_commitments g t = record g { tables = record (g.tables) { commitments = t } }

abbrev pub with_delegations {ℓ} : {F : Type ℓ} → Gateway F → DelegationTable → Gateway F
with_delegations g t = record g { tables = record (g.tables) { delegations = t } }

abbrev pub with_congestion {ℓ} : {F : Type ℓ} → Gateway F → CongestionTable F → Gateway F
with_congestion g t = record g { tables = record (g.tables) { congestion = t } }

module _ {ℓ} {F : Type ℓ} ⦃f : F64 F⦄ ⦃x : Crates⦄ (context : RpcContext F) (manager : BlsManager)
    (config : SubmissionConfig) (our_bls_pubkey : Bytes) where
  pub data Step (g : Gateway F) : Gateway F → Type ℓ where
    -- A request passes its checks and is signed. It may have looked for its hash in earlier tables.
    sign :
        (world : World F) (request : CommitmentRequest) (earlier : Tables F) (slot : ℕ)
        (sc : SignedCommitment)
        → world.before_delegations earlier ≡ g.tables
        → sign_request context world request earlier ≡ ok (slot, sc)
        → Step g (record g { signed = sc ∷ g.signed })
    -- A signed commitment is saved, or refused.
    save :
        (pool : PgPool) (id : ℕ) (front back : List SignedCommitment) (sc : SignedCommitment)
        → g.signed ≡ front ++ sc ∷ back
        → Step g (record (with_commitments g (save_commitment pool id sc g.tables.commitments).1) {
          signed = front ++ back;
        })
    -- A fee is computed, for a request or for a commitment, which may create the row of the slot.
    quote :
        (oracle : Oracle) (commitment_type : ℕ) (payload : Bytes) (slot : ℕ)
        → Step g (
            with_congestion g
              (calculate_fee_for_commitment context.fee_engine oracle commitment_type payload slot
                g.tables.congestion).1)
    -- The gas of a commitment is added to its slot.
    charge :
        (oracle : Oracle) (slot gas : ℕ)
        → Step g (
            with_congestion g
              (apply_gas_usage_to_slot context.fee_engine oracle slot gas g.tables.congestion).1)
    -- The delegations for a slot are fetched and stored.
    poll :
        (fetched : Result Error (List SignedDelegation)) (statuses : Statuses) (pool : PgPool)
        (ids : ℕ → ℕ)
        → Step g (
            with_delegations g
              (poll_delegations_for_slot fetched statuses pool ids our_bls_pubkey
                g.tables.delegations).1)
    -- The two parts of a cleanup: the expired delegations, and a row of an ineligible validator.
    expire :
        (pool : PgPool) (current_slot : ℕ)
        → Step g (
            with_delegations g
              (deactivate_expired_delegations pool current_slot g.tables.delegations).1)
    deactivate :
        (statuses : Statuses) (pool : PgPool) (n : ℕ) (row : ℕ × Bytes)
        → Step g (
            with_delegations g
              (deactivate_ineligible statuses pool n (row ∷ []) g.tables.delegations).1)
    -- Waiting commitments become constraints, which the relay accepts.
    submit :
        (replies : Replies) (pool : PgPool) (delegation : SignedDelegation) (slot status : ℕ)
        (constraints : List Constraint) (hashes : List Text)
        → create_constraints_from_commitments pool slot delegation.message.committer
            g.tables.commitments
          ≡ ok (constraints, hashes)
        → submit_for manager config replies delegation slot constraints ≡ ok status
        → Step g (record g { accepted = hashes ∷ g.accepted })
    -- The commitments of an accepted submission are marked.
    mark :
        (pool : PgPool) (front back : List (List Text)) (hashes : List Text)
        → g.accepted ≡ front ++ hashes ∷ back
        → Step g
            (record (with_commitments g
              (mark_commitments_as_processed pool hashes g.tables.commitments).1) {
                accepted = front ++ back;
              })
    -- The process is restarted: the tables stay, and what the tasks held is lost.
    restart : Step g (record g { signed = []; accepted = [] })

  pub data Reach (g : Gateway F) : Gateway F → Type ℓ where
    here : Reach g g
    next : {g' g'' : Gateway F} → Reach g g' → Step g' g'' → Reach g g''

  pub Reach-trans : {g g' g'' : Gateway F} → Reach g g' → Reach g' g'' → Reach g g''
  Reach-trans r here = r
  Reach-trans r (next s st) = next (Reach-trans r s) st
