-- ===== src/Bls.antt =====
-- src/crypto/bls.rs: the domain-separated BLS signatures of delegations and constraints.
pub mod Domains
use preconfirmation_gateway.Common.{
  ℕ, Bool, List, [], ◌∷◌, ◌++◌, ◌==◌, length, Result, ok, err, ◌>>=◌, ◌>>◌, ok_or, guard,
}
use preconfirmation_gateway.Types.{
  Bytes, Text, Constraint, ConstraintsMessage, DelegationMessage, SignedDelegation,
}
use preconfirmation_gateway.Error.{
  Error, invalid_hex, wrong_length, invalid_public_key, invalid_signature,
}
use preconfirmation_gateway.Crates.{Crates, Token, Tokens, end, token}
use preconfirmation_gateway.Crypto.{strip_0x, parse_hex_bytes, strip_prefix}

abbrev pub delegation_domain_separator : Bytes
delegation_domain_separator = 0x00 ∷ 0x44 ∷ 0x65 ∷ 0x6c ∷ []

-- `BLS_SIG_BLS12381G2_XMD:SHA-256_SSWU_RO_POP_`
abbrev pub bls_pop_dst : Bytes
bls_pop_dst =
    b'B' ∷ b'L' ∷ b'S' ∷ b'_' ∷ b'S' ∷ b'I' ∷ b'G' ∷ b'_' ∷ b'B' ∷ b'L' ∷ b'S' ∷ b'1' ∷ b'2' ∷ b'3'
    ∷ b'8' ∷ b'1' ∷ b'G' ∷ b'2' ∷ b'_' ∷ b'X' ∷ b'M' ∷ b'D' ∷ b':' ∷ b'S' ∷ b'H' ∷ b'A' ∷ b'-'
    ∷ b'2' ∷ b'5' ∷ b'6' ∷ b'_' ∷ b'S' ∷ b'S' ∷ b'W' ∷ b'U' ∷ b'_' ∷ b'R' ∷ b'O' ∷ b'_' ∷ b'P'
    ∷ b'O' ∷ b'P' ∷ b'_' ∷ []

pub record BlsManager : Type 0 where
  pub application_gateway_domain : Bytes

unfoldable pub constraint_tokens : List Constraint → Tokens
constraint_tokens [] = end
constraint_tokens (c ∷ cs) =
    token (Token.tuple (token (Token.uint c.constraint_type) (token (Token.bytes c.payload) end)))
      (constraint_tokens cs)

unfoldable pub receiver_tokens : List Bytes → Tokens
receiver_tokens [] = end
receiver_tokens (r ∷ rs) = token (Token.bytes r) (receiver_tokens rs)

module _ ⦃x : Crates⦄ where
  unfoldable pub parse_application_gateway_domain : Text → Result Error Bytes
  parse_application_gateway_domain hex_str = do
    domain ← ok_or (x.hex_decode (strip_0x hex_str)) invalid_hex
    guard (length domain == 4) wrong_length
    ok domain

  -- `BlsManager::new`
  unfoldable pub new_manager : Text → Result Error BlsManager
  unfolding parse_application_gateway_domain
  new_manager domain_hex = do
    domain ← parse_application_gateway_domain domain_hex
    ok (record { application_gateway_domain = domain })

  unfoldable pub parse_committer : Text → Result Error Bytes
  parse_committer address_str = do
    decoded ← ok_or (x.hex_decode (strip_0x address_str)) invalid_hex
    guard (length decoded == 20) wrong_length
    ok decoded

  unfoldable pub abi_encode_delegation_message : DelegationMessage → Result Error Bytes
  unfolding parse_committer
  abi_encode_delegation_message message = do
    committer ← parse_committer message.committer
    ok (
        x.abi_encode (
          token (Token.bytes message.proposer) (
            token (Token.bytes message.delegate)
              (token (Token.address committer) (token (Token.uint message.slot) end)))))

  unfoldable pub abi_encode_constraints_message : ConstraintsMessage → Bytes
  unfolding constraint_tokens receiver_tokens
  abi_encode_constraints_message message = x.abi_encode (
      token (Token.bytes message.proposer) (
        token (Token.bytes message.delegate) (
          token (Token.uint message.slot) (
            token (Token.array (constraint_tokens message.constraints))
              (token (Token.array (receiver_tokens message.receivers)) end)))))

  unfoldable pub calculate_signing_root : Bytes → Bytes → Bytes
  calculate_signing_root message domain = x.keccak (domain ++ message)

  unfoldable pub verify_delegation_signature : SignedDelegation → Result Error Bool
  verify_delegation_signature delegation = do
    encoded ← abi_encode_delegation_message delegation.message
    guard (x.blst_public_key_valid delegation.message.proposer) invalid_public_key
    guard (x.blst_signature_valid delegation.signature) invalid_signature
    ok (
        x.blst_verify (calculate_signing_root encoded delegation_domain_separator) bls_pop_dst
          delegation.message.proposer delegation.signature)

  unfoldable pub sign_constraints_message : BlsManager → ConstraintsMessage → Bytes → Bytes
  unfolding abi_encode_constraints_message calculate_signing_root
  sign_constraints_message manager message private_key =
      x.blst_sign
        (calculate_signing_root (abi_encode_constraints_message message)
          manager.application_gateway_domain)
        bls_pop_dst private_key

  unfoldable pub parse_authorized_builders : List Text → Result Error (List Bytes)
  parse_authorized_builders [] = ok []
  parse_authorized_builders (key ∷ keys) = do
    first ← parse_hex_bytes key 48
    rest ← parse_authorized_builders keys
    ok (first ∷ rest)
