-- ===== src/Tests/Runs.antt =====
-- A run of the gateway: a request is signed and saved, its constraint accepted, and it is marked.
use preconfirmation_gateway.Common.{
  ℕ, ◌≡◌, refl, arith, true, some, none, List, [], ◌∷◌, All, any, find, bytes_eq, ok,
}
use preconfirmation_gateway.Types.{from_inclusion_commitment, SignedCommitment, Text}
use preconfirmation_gateway.Float.{Fixed, fixed_f64, Fixed-IsIeee}
use preconfirmation_gateway.Crates.Sample.{sample, repeat}
use preconfirmation_gateway.Crypto.{strip_prefix}
use preconfirmation_gateway.Sql.{matches_hex, all_hex, is_hex_digit}
use preconfirmation_gateway.Bls.{parse_authorized_builders}
use preconfirmation_gateway.Payload.{
  extract_slot, parse_inclusion_payload, parse_inclusion_payload_rlp,
}
use preconfirmation_gateway.Commitments.{
  CommitmentRow, save_commitment, row_checks, to_row, to_signed, mark_commitments_as_processed,
  mark_row, get_commitment_by_hash,
}
use preconfirmation_gateway.Congestion.{SlotCongestion}
use preconfirmation_gateway.Congestion.Table.{has_slot}
use preconfirmation_gateway.Pricing.{apply_gas_usage_to_slot}
use preconfirmation_gateway.Relay.{submit_constraints, attempts, judge}
use preconfirmation_gateway.Submission.{submit_for, process_pending_constraints}
use preconfirmation_gateway.Rpc.{Tables, commitment_request_handler}
use preconfirmation_gateway.Gateway.{
  Gateway, Step, here, next, sign, save, charge, submit, mark, Reach-trans,
}
use preconfirmation_gateway.Gateway.Validity.{IsValid, Reach-IsValid}
use preconfirmation_gateway.Gateway.Ledger.{Move, Step-Move, ledger}
use preconfirmation_gateway.Gateway.Ledger.Lives.{Advances, Reach-Advances, Reach-get_commitment}
use preconfirmation_gateway.Gateway.Authentic.{AllAuthentic, IsAuthenticRow, Reach-AllAuthentic}
use preconfirmation_gateway.Congestion.Table.Growth.{Grown}
use preconfirmation_gateway.Gateway.Slots.{Reach-Grown}
use preconfirmation_gateway.Gateway.Tasks.{Run, at, AreRuns}
use preconfirmation_gateway.Gateway.Calls.{commitment_request-IsAuthentic}
use preconfirmation_gateway.Gateway.Tasks.Rounds.{process_pending-Run}
use preconfirmation_gateway.Tests.Data.{
  slasher, all_up, context, engine, world_at, tables, request, answer, delegation,
}
use preconfirmation_gateway.Tests.Requests.{signed}
use preconfirmation_gateway.Tests.Tables.{stored_verified}
use preconfirmation_gateway.Tests.Submission.{row, created, manager, config, replies}

abbrev key : List ℕ
key = repeat 48 2

abbrev holding : Tables Fixed → List SignedCommitment → List (List Text) → Gateway Fixed
holding t = at context manager config key t

abbrev with_row : CommitmentRow → Tables Fixed
with_row r = record tables { commitments = r ∷ [] }

abbrev hashes : List Text
hashes = answer.commitment.request_hash ∷ []

abbrev marked : CommitmentRow
marked = record row { constraint_processed = true }

saving : Run context manager config key (holding tables [] []) (holding (with_row row) [] [])
unfolding save_commitment row_checks matches_hex all_hex is_hex_digit strip_prefix to_row any
    extract_slot parse_inclusion_payload parse_inclusion_payload_rlp
saving =
    next (next here (sign (world_at (ok 7)) request tables 5 answer refl (signed (ok 7))))
      (save all_up 1 [] [] answer refl)

sent :
    submit_for manager config replies delegation 5
      (from_inclusion_commitment answer.commitment.payload ∷ [])
    ≡ ok 202
unfolding submit_for submit_constraints attempts judge parse_authorized_builders
sent = refl

marking :
    Run context manager config key (holding (with_row row) [] []) (holding (with_row marked) [] [])
unfolding mark_commitments_as_processed mark_row any bytes_eq
marking =
    next
      (next here (
        submit replies all_up delegation 5 202
          (from_inclusion_commitment answer.commitment.payload ∷ []) hashes created sent))
      (mark all_up [] [] hashes refl)

abbrev whole :
    Run context manager config key (holding tables [] []) (holding (with_row marked) [] [])
whole = Reach-trans context manager config key saving marking

valid : IsValid Fixed-IsIeee context manager config key (holding tables [] [])
unfolding bytes_eq
valid = record { commitments = tt; delegations = (stored_verified, (refl, tt)); congestion = tt }

Reach-IsValid_example :
    IsValid Fixed-IsIeee context manager config key (holding (with_row marked) [] [])
Reach-IsValid_example = Reach-IsValid Fixed-IsIeee context manager config key whole valid

abbrev after_save : Tables Fixed
after_save = record tables { commitments = (save_commitment all_up 1 answer []).1 }

save-Step :
    Step context manager config key (holding tables (answer ∷ []) []) (holding after_save [] [])
save-Step = save all_up 1 [] [] answer refl

Step-Move_example :
    Move
      (answer ∷ [])
      []
      (ledger context manager config key (holding tables (answer ∷ []) []))
      (ledger context manager config key (holding after_save [] []))
Step-Move_example = Step-Move context manager config key save-Step

Reach-Advances_example :
    Advances
      (ledger context manager config key (holding (with_row row) [] []) slasher)
      (ledger context manager config key (holding (with_row marked) [] []) slasher)
Reach-Advances_example = Reach-Advances context manager config key slasher marking

fetched : get_commitment_by_hash all_up answer.commitment.request_hash (row ∷ []) ≡ ok (some answer)
unfolding get_commitment_by_hash find bytes_eq to_signed
fetched = refl

Reach-get_commitment_example :
    get_commitment_by_hash all_up answer.commitment.request_hash (marked ∷ []) ≡ ok (some answer)
Reach-get_commitment_example =
    Reach-get_commitment context manager config key answer.commitment.request_hash all_up all_up
      answer marking fetched refl

Reach-AllAuthentic_example : AllAuthentic context (holding (with_row marked) [] [])
Reach-AllAuthentic_example =
    Reach-AllAuthentic context manager config key whole (record { in_flight = tt; stored = tt })

-- A row of slot 5, and a run that adds gas to it.
abbrev busy : SlotCongestion Fixed
busy = record {
  id = some 1;
  slot = 5;
  preconfirmed_gas = 100000;
  total_gas_limit = 30000000;
  gas_used_ratio = some 3;
  base_gas_price = 7;
  calculated_fee_multiplier = some 1000;
  current_tx_price = 7;
  slot_start_time = 1060;
  last_updated = none;
  created_at = none;
}

abbrev busy_tables : Tables Fixed
busy_tables = record { commitments = []; delegations = []; congestion = busy ∷ [] }

found : find (has_slot 5) (busy ∷ []) ≡ some busy
unfolding find
found = refl

abbrev charged : Tables Fixed
charged = record busy_tables {
  congestion = (apply_gas_usage_to_slot engine (world_at (ok 7)).oracle 5 21000 (busy ∷ [])).1;
}

charging : Run context manager config key (holding busy_tables [] []) (holding charged [] [])
charging = next here (charge (world_at (ok 7)).oracle 5 21000)

Reach-Grown_example : Grown 5 busy charged.congestion
Reach-Grown_example = Reach-Grown context manager config key 5 busy charging found (omega arith)

nothing_else : AreRuns context manager config key (λ t. t)
nothing_else t s a = here

commitment_request-IsAuthentic_example :
    All
      (IsAuthenticRow context)
      (commitment_request_handler context (world_at (ok 7)) request tables).1.commitments
commitment_request-IsAuthentic_example =
    commitment_request-IsAuthentic context (world_at (ok 7)) request tables manager config key
      nothing_else nothing_else nothing_else nothing_else tt

process_pending-Run_example : Run context manager config key (holding (with_row row) [] []) (
    holding
      (record tables {
        commitments =
            process_pending_constraints manager config replies 1050
              (λ slot. 1050)
              (λ slot. all_up)
              (λ slot n. all_up)
              tables.delegations
              (row ∷ []);
      })
      []
      [])
process_pending-Run_example =
    process_pending-Run context manager config key [] [] replies 1050 (λ slot. 1050)
      (λ slot. all_up) (λ slot n. all_up) (with_row row)
