-- ===== src/Gateway/Slots.antt =====
-- The rows of congestion over the runs of the gateway.
use preconfirmation_gateway.Common.{ℕ, ◌≤◌, ◌≡◌, refl, arith, some, find, u64_max}
use preconfirmation_gateway.Types.{Bytes}
use preconfirmation_gateway.Float.{F64}
use preconfirmation_gateway.Crates.{Crates}
use preconfirmation_gateway.Bls.{BlsManager}
use preconfirmation_gateway.Congestion.{SlotCongestion}
use preconfirmation_gateway.Congestion.Table.{has_slot}
use preconfirmation_gateway.Pricing.{apply_gas_usage_to_slot}
use preconfirmation_gateway.Submission.{SubmissionConfig}
use preconfirmation_gateway.Rpc.{RpcContext}
use preconfirmation_gateway.Gateway.{
  Gateway, Step, sign, save, quote, charge, poll, expire, deactivate, submit, mark, restart, Reach,
  here, next,
}
use preconfirmation_gateway.Congestion.Table.Growth.{Grown, fee-Grown, update-Grown}

module _ {ℓ} {F : Type ℓ} ⦃f : F64 F⦄ ⦃x : Crates⦄ (context : RpcContext F) (manager : BlsManager)
    (config : SubmissionConfig) (our_bls_pubkey : Bytes) (slot : ℕ) (row : SlotCongestion F) where
  Step-Grown :
      {g g' : Gateway F}
      → Step context manager config our_bls_pubkey g g'
      → Grown slot row g.tables.congestion
      → Grown slot row g'.tables.congestion
  unfolding apply_gas_usage_to_slot
  Step-Grown (sign world request earlier at sc e h) v = v
  Step-Grown (save pool id front back sc e) v = v
  Step-Grown {g} (quote oracle commitment_type payload at) v =
      fee-Grown slot row context.fee_engine oracle commitment_type payload at g.tables.congestion v
  Step-Grown {g} (charge oracle at gas) v =
      update-Grown slot row oracle.pool oracle.now at gas
        context.fee_engine.fee_config.scaling_factor g.tables.congestion v
  Step-Grown (poll fetched statuses pool ids) v = v
  Step-Grown (expire pool current_slot) v = v
  Step-Grown (deactivate statuses pool n r) v = v
  Step-Grown (submit replies pool d at status constraints hashes e h) v = v
  Step-Grown (mark pool front back hashes e) v = v
  Step-Grown restart v = v

  Reach-later :
      {g g' : Gateway F}
      → Reach context manager config our_bls_pubkey g g'
      → Grown slot row g.tables.congestion
      → Grown slot row g'.tables.congestion
  Reach-later here v = v
  Reach-later (next r st) v = Step-Grown st (Reach-later r v)

  -- Over any run of the gateway a slot that has a row of congestion keeps one, with the same base price
  -- and gas limit, and its preconfirmed gas, which fits a `u64`, never falls.
  pub Reach-Grown :
      {g g' : Gateway F}
      → Reach context manager config our_bls_pubkey g g'
      → find (has_slot slot) g.tables.congestion ≡ some row
      → row.preconfirmed_gas ≤ u64_max
      → Grown slot row g'.tables.congestion
  Reach-Grown r h fits = Reach-later r (record {
    later = row;
    found = h;
    same_base = refl;
    same_limit = refl;
    no_less = omega arith;
    is_word = fits;
  })
