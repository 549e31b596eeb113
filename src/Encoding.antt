-- ===== src/Encoding.antt =====
-- How byte strings stand in JSON: src/types/hex_serde.rs, and the keys and signatures of
-- src/types/delegation.rs; and the keys that src/crypto/bls.rs parses.
pub mod RoundTrip
use preconfirmation_gateway.Common.{ℕ, ◌==◌, length, Result, ok, err, ◌>>=◌, ◌>>◌, ok_or, guard}
use preconfirmation_gateway.Types.{Bytes, Text, BlsPublicKey, BlsSignature}
use preconfirmation_gateway.Error.{
  Error, invalid_hex, wrong_length, invalid_private_key, invalid_public_key,
}
use preconfirmation_gateway.Crates.{Crates}
use preconfirmation_gateway.Crypto.{strip_0x, to_hex}

module _ ⦃x : Crates⦄ where
  -- `hex_serde`: payloads of any length.
  unfoldable pub serialize : Bytes → Text
  serialize bytes = to_hex bytes

  unfoldable pub deserialize : Text → Result Error Bytes
  deserialize s = ok_or (x.hex_decode (strip_0x s)) invalid_hex

  -- The byte strings of a fixed length, from their text.
  unfoldable pub deserialize_fixed : ℕ → Text → Result Error Bytes
  deserialize_fixed expected_len hex_str = do
    decoded ← ok_or (x.hex_decode (strip_0x hex_str)) invalid_hex
    guard (length decoded == expected_len) wrong_length
    ok decoded

  unfoldable pub serialize_public_key : BlsPublicKey → Text
  serialize_public_key key = to_hex key

  unfoldable pub deserialize_public_key : Text → Result Error BlsPublicKey
  unfolding deserialize_fixed
  deserialize_public_key hex_str = deserialize_fixed 48 hex_str

  unfoldable pub serialize_signature : BlsSignature → Text
  serialize_signature signature = to_hex signature

  unfoldable pub deserialize_signature : Text → Result Error BlsSignature
  unfolding deserialize_fixed
  deserialize_signature hex_str = deserialize_fixed 96 hex_str

  -- `BlsManager::parse_private_key` and `BlsManager::parse_public_key`
  unfoldable pub parse_private_key : Text → Result Error Bytes
  unfolding deserialize_fixed
  parse_private_key hex_str = do
    decoded ← deserialize_fixed 32 hex_str
    guard (x.blst_secret_key_valid decoded) invalid_private_key
    ok decoded

  unfoldable pub parse_public_key : Text → Result Error Bytes
  unfolding deserialize_fixed
  parse_public_key hex_str = do
    decoded ← deserialize_fixed 48 hex_str
    guard (x.blst_public_key_valid decoded) invalid_public_key
    ok decoded
