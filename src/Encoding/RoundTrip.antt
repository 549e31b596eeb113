-- ===== src/Encoding/RoundTrip.antt =====
-- Theorems on the codecs of src/types/hex_serde.rs and src/types/delegation.rs.
use preconfirmation_gateway.Common.{
  ℕ, ◌≡◌, ◌∙◌, refl, sym, ap, arith, ◌==◌, ==_iff, length, ok, guard, ok_or, >>=-eq-ok, guard-eq-ok,
  ok-injective,
}
use preconfirmation_gateway.Types.{Bytes, Text, BlsPublicKey, BlsSignature}
use preconfirmation_gateway.Error.{invalid_hex, wrong_length}
use preconfirmation_gateway.Crates.{Crates, IsHexCodec}
use preconfirmation_gateway.Crypto.{strip_0x, to_hex}
use preconfirmation_gateway.Crypto.Hex.{strip_0x-prefix}
use preconfirmation_gateway.Encoding.{
  serialize, deserialize, deserialize_fixed, serialize_public_key, deserialize_public_key,
  serialize_signature, deserialize_signature,
}

fixed-length :
    ⦃x : Crates⦄ (n : ℕ) (s : Text) (b : Bytes) → deserialize_fixed n s ≡ ok b → length b ≡ n
unfolding deserialize_fixed
fixed-length ⦃x⦄ n s b h =
    let (decoded, p, h1) = >>=-eq-ok (ok_or (x.hex_decode (strip_0x s)) invalid_hex) _ h in
    let (u, q, h2) = >>=-eq-ok (guard (length decoded == n) wrong_length) (λ _. ok decoded) h1 in
    let fits = (==_iff (length decoded) n).0 (guard-eq-ok (length decoded == n) wrong_length q) in
    ap length (sym (ok-injective h2)) ∙ fits

module _ ⦃x : Crates⦄ (codec : IsHexCodec x) where
  decode-to_hex : (b : Bytes) → ok_or (x.hex_decode (strip_0x (to_hex b))) invalid_hex ≡ ok b
  decode-to_hex b = rw (strip_0x-prefix (x.hex_encode b), codec.decode-encode b) refl

  fixed-to_hex : (n : ℕ) (b : Bytes) → length b ≡ n → deserialize_fixed n (to_hex b) ≡ ok b
  unfolding deserialize_fixed
  fixed-to_hex n b h = rw (decode-to_hex b) (ground (arith, h))

  -- Byte strings survive their way through JSON: a payload of any length, a public key of 48 bytes and a
  -- signature of 96 are read back as they were written, and a key or a signature that is read always has
  -- its length.
  pub deserialize-serialize :
      (payload : Bytes) (key : BlsPublicKey) (signature : BlsSignature) (received : Text)
      → length key ≡ 48
      → length signature ≡ 96
      → (deserialize (serialize payload) ≡ ok payload)
        × (deserialize_public_key (serialize_public_key key) ≡ ok key)
        × (deserialize_signature (serialize_signature signature) ≡ ok signature)
        × ((k : BlsPublicKey) → deserialize_public_key received ≡ ok k → length k ≡ 48)
        × ((s : BlsSignature) → deserialize_signature received ≡ ok s → length s ≡ 96)
  unfolding serialize deserialize serialize_public_key deserialize_public_key serialize_signature
      deserialize_signature
  deserialize-serialize payload key signature received h k = (
    decode-to_hex payload,
    fixed-to_hex 48 key h,
    fixed-to_hex 96 signature k,
    (λ key' e. fixed-length 48 received key' e),
    (λ signature' e. fixed-length 96 received signature' e),
  )
