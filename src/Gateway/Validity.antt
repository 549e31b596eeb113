-- ===== src/Gateway/Validity.antt =====
-- The validity of the tables of the running gateway, under every interleaving of its tasks.
use preconfirmation_gateway.Common.{
  ℕ, ◌≡◌, Bool, true, List, [], ◌∷◌, map, bytes_eq, Result, All, Result-cases, inl, inr, arith,
}
use preconfirmation_gateway.Types.{Bytes, SignedDelegation}
use preconfirmation_gateway.Error.{Error}
use preconfirmation_gateway.Float.{F64, IsIeee}
use preconfirmation_gateway.Crates.{Crates}
use preconfirmation_gateway.Bls.{BlsManager}
use preconfirmation_gateway.Sql.{PgPool}
use preconfirmation_gateway.Commitments.Store
use preconfirmation_gateway.Delegations.{
  DelegationRow, DelegationTable, has_id, deactivate_if, is_expired, deactivate_expired_delegations,
}
use preconfirmation_gateway.Delegations.Saving
use preconfirmation_gateway.Delegations.Expiry.{map-deactivate-IsTable}
use preconfirmation_gateway.Congestion.Table.{CongestionTable}
use preconfirmation_gateway.Congestion.Table.Rows
use preconfirmation_gateway.Pricing.{
  FeePricingEngine, Oracle, calculate_fee_for_commitment, apply_gas_usage_to_slot, fee_at,
  estimate_gas_for_commitment, gas_price_as_u64_clamped,
}
use preconfirmation_gateway.Submission.{SubmissionConfig}
use preconfirmation_gateway.Polling.{Statuses, poll_delegations_for_slot, deactivate_ineligible}
use preconfirmation_gateway.Polling.Admitted.{May, poll_delegations_for_slot-IsAdmitted}
use preconfirmation_gateway.Rpc.{RpcContext}
use preconfirmation_gateway.Gateway.{
  Gateway, Step, sign, save, quote, charge, poll, expire, deactivate, submit, mark, restart, Reach,
  here, next,
}

module _ (our_bls_pubkey : Bytes) where
  -- The delegation of the row is one to the gateway's key.
  abbrev pub IsOurs : DelegationRow → Type 0
  IsOurs row = bytes_eq row.delegate_pubkey our_bls_pubkey ≡ true

  map-deactivate-IsOurs :
      (p : DelegationRow → Bool) (t : DelegationTable)
      → All IsOurs t
      → All IsOurs (map (deactivate_if p) t)
  unfolding deactivate_if
  map-deactivate-IsOurs p [] h = tt
  map-deactivate-IsOurs p (row ∷ t) h = (ground (arith, h.0), map-deactivate-IsOurs p t h.1)

  -- A valid table of delegations that are all to the gateway's key.
  abbrev pub IsOwn : ⦃x : Crates⦄ → DelegationTable → Type 0
  IsOwn t = Saving.IsTable t × All IsOurs t

  module _ ⦃x : Crates⦄ where
    May-IsOurs :
        (statuses : Statuses) (t : DelegationTable)
        → All (May statuses our_bls_pubkey IsOurs) t
        → All IsOurs t
    May-IsOurs statuses [] h = tt
    May-IsOurs statuses (row ∷ t) h =
        (elim h.0 [ inl old ↦ old | inr admitted ↦ admitted.ours ], May-IsOurs statuses t h.1)

    poll-IsOwn :
        (fetched : Result Error (List SignedDelegation)) (statuses : Statuses) (pool : PgPool)
        (ids : ℕ → ℕ) (t : DelegationTable)
        → IsOwn t
        → IsOwn (poll_delegations_for_slot fetched statuses pool ids our_bls_pubkey t).1
    poll-IsOwn fetched statuses pool ids t v =
        let (valid, may) =
          poll_delegations_for_slot-IsAdmitted statuses our_bls_pubkey fetched pool ids t IsOurs v.0
            v.1 in
        (valid, May-IsOurs statuses _ may)

    expire-IsOwn :
        (pool : PgPool) (current_slot : ℕ) (t : DelegationTable)
        → IsOwn t
        → IsOwn (deactivate_expired_delegations pool current_slot t).1
    unfolding deactivate_expired_delegations
    expire-IsOwn pool current_slot t v = ground (
      arith,
      map-deactivate-IsTable (is_expired current_slot) t v.0,
      map-deactivate-IsOurs (is_expired current_slot) t v.1,
    )

    deactivate_ineligible-IsOwn :
        (statuses : Statuses) (pool : PgPool) (n : ℕ) (row : ℕ × Bytes) (t : DelegationTable)
        → IsOwn t
        → IsOwn (deactivate_ineligible statuses pool n (row ∷ []) t).1
    unfolding deactivate_ineligible
    deactivate_ineligible-IsOwn statuses pool n row t v = ground (
      arith,
      map-deactivate-IsTable (has_id row.0) t v.0,
      map-deactivate-IsOurs (has_id row.0) t v.1,
    )

module _ {ℓ} {F : Type ℓ} ⦃f : F64 F⦄ ⦃x : Crates⦄ (laws : IsIeee F) where
  fee-IsTable :
      (engine : FeePricingEngine F) (oracle : Oracle) (commitment_type : ℕ) (payload : Bytes)
      (slot : ℕ) (t : CongestionTable F)
      → Rows.IsTable t
      → Rows.IsTable (calculate_fee_for_commitment engine oracle commitment_type payload slot t).1
  unfolding calculate_fee_for_commitment fee_at
  fee-IsTable engine oracle commitment_type payload slot t v =
      elim (Result-cases oracle.gas_price) [
        | inr (e, p) ↦ rw (calculate_fee_for_commitment, p) v
        | inl (price, p) ↦
            elim (Result-cases (estimate_gas_for_commitment commitment_type payload)) [
              | inr (e, q) ↦ rw (calculate_fee_for_commitment, p, q) v
              | inl (gas, q) ↦
                  rw (calculate_fee_for_commitment, p, q)
                    (Rows.congestion-IsTable laws oracle.pool oracle.now oracle.id slot
                      (gas_price_as_u64_clamped price) engine.fee_config.default_gas_limit
                      engine.genesis_time gas engine.fee_config.scaling_factor t v).0
            ]
      ]

  module _ (context : RpcContext F) (manager : BlsManager) (config : SubmissionConfig)
      (our_bls_pubkey : Bytes) where
    -- The tables are valid, and every delegation is to the gateway's key.
    pub record IsValid (g : Gateway F) : Type ℓ where
      pub commitments : Store.IsTable g.tables.commitments
      pub delegations : IsOwn our_bls_pubkey g.tables.delegations
      pub congestion : Rows.IsTable g.tables.congestion

    Step-IsValid :
        {g g' : Gateway F}
        → Step context manager config our_bls_pubkey g g'
        → IsValid g
        → IsValid g'
    unfolding apply_gas_usage_to_slot
    Step-IsValid (sign world request earlier slot sc e h) v = record {
      commitments = v.commitments;
      delegations = v.delegations;
      congestion = v.congestion;
    }
    Step-IsValid {g} (save pool id front back sc e) v = record {
      commitments = Store.save_commitment-IsTable pool id sc g.tables.commitments v.commitments;
      delegations = v.delegations;
      congestion = v.congestion;
    }
    Step-IsValid {g} (quote oracle commitment_type payload slot) v = record {
      commitments = v.commitments;
      delegations = v.delegations;
      congestion =
          fee-IsTable context.fee_engine oracle commitment_type payload slot g.tables.congestion
            v.congestion;
    }
    Step-IsValid {g} (charge oracle slot gas) v = record {
      commitments = v.commitments;
      delegations = v.delegations;
      congestion =
          (Rows.congestion-IsTable laws oracle.pool oracle.now 0 slot 0 0 0 gas
            context.fee_engine.fee_config.scaling_factor g.tables.congestion v.congestion).1;
    }
    Step-IsValid {g} (poll fetched statuses pool ids) v = record {
      commitments = v.commitments;
      delegations =
          poll-IsOwn our_bls_pubkey fetched statuses pool ids g.tables.delegations v.delegations;
      congestion = v.congestion;
    }
    Step-IsValid {g} (expire pool current_slot) v = record {
      commitments = v.commitments;
      delegations =
          expire-IsOwn our_bls_pubkey pool current_slot g.tables.delegations v.delegations;
      congestion = v.congestion;
    }
    Step-IsValid {g} (deactivate statuses pool n row) v = record {
      commitments = v.commitments;
      delegations =
          deactivate_ineligible-IsOwn our_bls_pubkey statuses pool n row g.tables.delegations
            v.delegations;
      congestion = v.congestion;
    }
    Step-IsValid (submit replies pool d slot status constraints hashes e h) v = record {
      commitments = v.commitments;
      delegations = v.delegations;
      congestion = v.congestion;
    }
    Step-IsValid {g} (mark pool front back hashes e) v = record {
      commitments = Store.mark_commitments-IsTable pool hashes g.tables.commitments v.commitments;
      delegations = v.delegations;
      congestion = v.congestion;
    }
    Step-IsValid restart v = record {
      commitments = v.commitments;
      delegations = v.delegations;
      congestion = v.congestion;
    }

    -- Whatever the tasks of the gateway do, in whatever order and however often it is restarted, valid
    -- tables stay valid: no request hash, no delegation and no slot of congestion stands twice, every row
    -- passes the checks of the migrations, every multiplier lies in [1, 100], and every delegation is to the
    -- gateway's key under a valid signature of its proposer.
    pub Reach-IsValid :
        {g g' : Gateway F}
        → Reach context manager config our_bls_pubkey g g'
        → IsValid g
        → IsValid g'
    Reach-IsValid here v = v
    Reach-IsValid (next r st) v = Step-IsValid st (Reach-IsValid r v)
