-- ===== src/Types.antt =====
-- src/types/rpc.rs, src/types/delegation.rs, src/types/payload.rs: the data that the parts exchange.
-- A string is the list of its bytes, and so is a key, a signature and a payload.
use preconfirmation_gateway.Common.{ℕ, List, Bool, ◌==◌}

abbrev pub Bytes : Type 0
Bytes = List ℕ

abbrev pub Text : Type 0
Text = List ℕ

pub record CommitmentRequest : Type 0 where
  pub commitment_type : ℕ
  pub payload : Bytes
  pub slasher : Text

pub record Commitment : Type 0 where
  pub commitment_type : ℕ
  pub payload : Bytes
  pub request_hash : Text
  pub slasher : Text

pub record SignedCommitment : Type 0 where
  pub commitment : Commitment
  pub signature : Text

pub record Offering : Type 0 where
  pub chain_id : ℕ
  pub commitment_types : List ℕ

pub record SlotInfo : Type 0 where
  pub slot : ℕ
  pub offerings : List Offering

pub record FeeInfo : Type 0 where
  pub payload : Bytes
  pub commitment_type : ℕ

pub record InclusionPayload : Type 0 where
  pub slot : ℕ
  pub signed_tx : Bytes

pub record ExecutionPayload : Type 0 where
  pub slot : ℕ
  pub transaction : Bytes
  pub expected_state_root : Bytes

abbrev pub BlsPublicKey : Type 0
BlsPublicKey = Bytes

abbrev pub BlsSignature : Type 0
BlsSignature = Bytes

pub record DelegationMessage : Type 0 where
  pub proposer : BlsPublicKey
  pub delegate : BlsPublicKey
  pub committer : Text
  pub slot : ℕ

pub record SignedDelegation : Type 0 where
  pub message : DelegationMessage
  pub signature : BlsSignature

unfoldable pub is_valid_for_slot : SignedDelegation → ℕ → Bool
is_valid_for_slot d slot = d.message.slot == slot

pub record Constraint : Type 0 where
  pub constraint_type : ℕ
  pub payload : Bytes

unfoldable pub from_inclusion_commitment : Bytes → Constraint
from_inclusion_commitment payload = record { constraint_type = 1; payload = payload }

pub record ConstraintsMessage : Type 0 where
  pub proposer : BlsPublicKey
  pub delegate : BlsPublicKey
  pub slot : ℕ
  pub constraints : List Constraint
  pub receivers : List BlsPublicKey

pub record SignedConstraints : Type 0 where
  pub message : ConstraintsMessage
  pub signature : BlsSignature

pub record ValidatorDuty : Type 0 where
  pub validator_index : Text
  pub pubkey : Text
  pub slot : Text

pub record ValidatorInfo : Type 0 where
  pub is_active : Bool
  pub is_slashed : Bool
  pub validator_index : ℕ

pub record ValidatorDetails : Type 0 where
  pub pubkey : Text
  pub slashed : Bool

pub record ValidatorData : Type 0 where
  pub index : Text
  pub status : Text
  pub validator : ValidatorDetails
