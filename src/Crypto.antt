-- ===== src/Crypto.antt =====
-- src/crypto/mod.rs and src/utils/address.rs: hex strings, addresses, request hashes and the ECDSA
-- signatures of commitments.
pub mod Hex
pub mod Signatures
pub mod Addresses
use preconfirmation_gateway.Common.{
  ℕ, zero, suc, ◌+◌, ◌-◌, Bool, not, ◌&&◌, Option, none, some, List, [], ◌∷◌, ◌++◌, map, leb, ◌==◌,
  if◌then◌else◌, length, Result, ok, err, ◌>>=◌, ◌>>◌, ok_or, guard,
}
use preconfirmation_gateway.Types.{Bytes, Text, CommitmentRequest, Commitment}
use preconfirmation_gateway.Error.{
  Error, invalid_hex, wrong_length, invalid_message, invalid_signature, invalid_private_key,
}
use preconfirmation_gateway.Crates.{Crates, Token, uint, bytes, fixed_bytes, address, end, token}

-- `str::strip_prefix`
unfoldable pub strip_prefix : Text → Text → Option Text
strip_prefix [] s = some s
strip_prefix (c ∷ p) [] = none
strip_prefix (c ∷ p) (d ∷ s) = if c == d then strip_prefix p s else none

abbrev pub hex_prefix : Text
hex_prefix = b'0' ∷ b'x' ∷ []

abbrev pub upper_prefix : Text
upper_prefix = b'0' ∷ b'X' ∷ []

abbrev pub unwrap_or : Option Text → Text → Text
unwrap_or (some s) d = s
unwrap_or none d = d

abbrev pub strip_0x : Text → Text
strip_0x s = unwrap_or (strip_prefix hex_prefix s) s

-- `to_ascii_lowercase`
unfoldable pub to_lower : ℕ → ℕ
to_lower c = if leb b'A' c && leb c b'Z' then c + 32 else c

abbrev pub or_else : Option Text → Option Text → Option Text
or_else (some s) t = some s
or_else none t = t

unfoldable pub normalize_address : Text → Text
unfolding strip_prefix
normalize_address addr =
    map to_lower
      (unwrap_or (or_else (strip_prefix hex_prefix addr) (strip_prefix upper_prefix addr)) addr)

-- `&b[..n]` and `&b[n..]`
abbrev pub split_at : ℕ → Bytes → Bytes × Bytes
split_at zero bs = ([], bs)
split_at (suc n) [] = ([], [])
split_at (suc n) (b ∷ bs) = (b ∷ (split_at n bs).0, (split_at n bs).1)

abbrev pub first_or : Bytes → ℕ → ℕ
first_or [] d = d
first_or (b ∷ bs) d = b

-- Ethereum writes 27 and 28 for the recovery ids 0 and 1.
unfoldable pub recovery_id_of : ℕ → ℕ
recovery_id_of v = if leb 27 v then v - 27 else v

module _ ⦃x : Crates⦄ where
  unfoldable pub parse_hex_bytes : Text → ℕ → Result Error Bytes
  parse_hex_bytes hex_str expected_len = do
    decoded ← ok_or (x.hex_decode (strip_0x hex_str)) invalid_hex
    guard (length decoded == expected_len) wrong_length
    ok decoded

  -- `format!("0x{}", hex::encode(b))`
  abbrev pub to_hex : Bytes → Text
  to_hex b = hex_prefix ++ x.hex_encode b

  unfoldable pub parse_ethereum_address : Text → Result Error Bytes
  parse_ethereum_address address_str = parse_hex_bytes address_str 20

  unfoldable pub parse_private_key : Text → Result Error Bytes
  unfolding parse_hex_bytes
  parse_private_key hex_str = do
    key_bytes ← parse_hex_bytes hex_str 32
    guard (x.secp_secret_key_valid key_bytes) invalid_private_key
    ok key_bytes

  -- The last 20 bytes of the hash of the public key, without the tag of its encoding.
  unfoldable pub ecdsa_to_address : Bytes → Text
  ecdsa_to_address private_key =
      let public_key_bytes = x.secp_public_key_uncompressed private_key in
      to_hex (split_at 12 (x.keccak (split_at 1 public_key_bytes).1)).1

  unfoldable pub abi_encode_commitment_request : CommitmentRequest → Result Error Bytes
  abi_encode_commitment_request request = do
    slasher ← parse_ethereum_address request.slasher
    ok (
        x.abi_encode (
          token (uint request.commitment_type)
            (token (bytes request.payload) (token (address slasher) end))))

  unfoldable pub generate_request_hash : CommitmentRequest → Result Error Text
  unfolding abi_encode_commitment_request
  generate_request_hash request = do
    encoded ← abi_encode_commitment_request request
    ok (to_hex (x.keccak encoded))

  unfoldable pub abi_encode_commitment : Commitment → Result Error Bytes
  abi_encode_commitment commitment = do
    request_hash ← parse_hex_bytes commitment.request_hash 32
    slasher ← parse_ethereum_address commitment.slasher
    ok (
        x.abi_encode (
          token (uint commitment.commitment_type) (
            token (bytes commitment.payload)
              (token (fixed_bytes request_hash) (token (address slasher) end)))))

  -- `Message::from_slice`: a digest has 32 bytes.
  abbrev pub message_of : Bytes → Result Error Bytes
  message_of hash = do guard (length hash == 32) invalid_message; ok hash

  -- The 65 bytes r, s and v, where Ethereum's v is 27 or 28.
  unfoldable pub recoverable_bytes : Bytes → Bytes → Bytes
  recoverable_bytes message private_key =
      (x.sign_recoverable message private_key).0
      ++ ((x.sign_recoverable message private_key).1 + 27) ∷ []

  unfoldable pub sign_commitment : Commitment → Bytes → Result Error Text
  sign_commitment commitment private_key = do
    encoded ← abi_encode_commitment commitment
    message ← message_of (x.keccak encoded)
    ok (to_hex (recoverable_bytes message private_key))

  -- `RecoveryId::from_i32` and `RecoverableSignature::from_compact`, and the verification.
  unfoldable pub verify_parts : Bytes → Bytes → ℕ → Bytes → Result Error Bool
  verify_parts message compact v public_key = do
    guard (leb (recovery_id_of v) 3) invalid_signature
    guard (x.secp_signature_valid compact (recovery_id_of v)) invalid_signature
    ok (x.secp_verify message compact public_key)

  unfoldable pub verify_commitment_signature : Commitment → Text → Bytes → Result Error Bool
  unfolding verify_parts
  verify_commitment_signature commitment signature_hex public_key = do
    encoded ← abi_encode_commitment commitment
    message ← message_of (x.keccak encoded)
    signature_bytes ← parse_hex_bytes signature_hex 65
    let parts = split_at 64 signature_bytes
    verify_parts message parts.0 (first_or parts.1 0) public_key
