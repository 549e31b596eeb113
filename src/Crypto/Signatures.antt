-- ===== src/Crypto/Signatures.antt =====
-- Theorems on the signatures of commitments, of src/crypto/mod.rs.
use preconfirmation_gateway.Common.{
  ℕ, zero, suc, ◌+◌, ◌≡◌, refl, ap, arith, [], ◌∷◌, ◌++◌, length, length-append, ok, true,
  >>=-eq-ok, le→leb, ok-injective,
}
use preconfirmation_gateway.Types.{Bytes, Text, Commitment}
use preconfirmation_gateway.Crates.{Crates, IsHexCodec, IsSecp}
use preconfirmation_gateway.Crypto.{
  sign_commitment, verify_commitment_signature, split_at, parse_hex_bytes, message_of,
  abi_encode_commitment, recovery_id_of, recoverable_bytes, verify_parts, to_hex,
}
use preconfirmation_gateway.Crypto.Hex.{parse_hex_bytes-to_hex}

split_at-append : (n : ℕ) (bs cs : Bytes) → length bs ≡ n → split_at n (bs ++ cs) ≡ (bs, cs)
split_at-append zero [] cs h = refl
split_at-append zero (b ∷ bs) cs h = absurd (omega arith)
split_at-append (suc n) [] cs h = absurd (omega arith)
split_at-append (suc n) (b ∷ bs) cs h =
    ap (λ p. (b ∷ p.0, p.1)) (split_at-append n bs cs (omega arith))

recovery_id_of-add : (n : ℕ) → recovery_id_of (n + 27) ≡ n
unfolding recovery_id_of
recovery_id_of-add n = ground arith

module _ ⦃x : Crates⦄ (codec : IsHexCodec x) (secp : IsSecp x) where
  length-recoverable_bytes : (m k : Bytes) → length (recoverable_bytes m k) ≡ 65
  unfolding recoverable_bytes
  length-recoverable_bytes m k = omega (
    arith,
    length-append {0} (x.sign_recoverable m k).0 (((x.sign_recoverable m k).1 + 27) ∷ []),
    secp.signature_length m k,
  )

  verify_parts-sign :
      (m k : Bytes)
      → verify_parts m
          (x.sign_recoverable m k).0
          ((x.sign_recoverable m k).1 + 27)
          (x.secp_public_key k)
        ≡ ok true
  unfolding verify_parts
  verify_parts-sign m k =
      rw (recovery_id_of-add, le→leb _ _ (secp.recovery_id-le m k), secp.signature_valid m k)
        (ap ok (secp.verify-sign m k))

  parse-recoverable_bytes :
      (m k : Bytes)
      → parse_hex_bytes (to_hex (recoverable_bytes m k)) 65 ≡ ok (recoverable_bytes m k)
  parse-recoverable_bytes m k =
      rw (length-recoverable_bytes m k) at (parse_hex_bytes-to_hex codec (recoverable_bytes m k)).0

  split-recoverable_bytes :
      (m k : Bytes)
      → split_at 64 (recoverable_bytes m k)
        ≡ ((x.sign_recoverable m k).0, ((x.sign_recoverable m k).1 + 27) ∷ [])
  unfolding recoverable_bytes
  split-recoverable_bytes m k = split_at-append 64 _ _ (secp.signature_length m k)

  verify-recoverable_bytes :
      (c : Commitment) (encoded m k : Bytes)
      → abi_encode_commitment c ≡ ok encoded
      → message_of (x.keccak encoded) ≡ ok m
      → verify_commitment_signature c (to_hex (recoverable_bytes m k)) (x.secp_public_key k)
        ≡ ok true
  unfolding verify_commitment_signature
  verify-recoverable_bytes c encoded m k p q =
      rw (p, q, parse-recoverable_bytes m k, split-recoverable_bytes m k) (verify_parts-sign m k)

  -- A signature that `sign_commitment` returns verifies under the public key of the key that signed,
  -- as a string of 65 bytes in hex with Ethereum's recovery byte.
  pub verify-sign_commitment :
      (c : Commitment) (key : Bytes) (signature : Text)
      → sign_commitment c key ≡ ok signature
      → verify_commitment_signature c signature (x.secp_public_key key) ≡ ok true
  unfolding sign_commitment
  verify-sign_commitment c key signature h =
      let (encoded, p, rest) = >>=-eq-ok (abi_encode_commitment c) _ h in
      let (m, q, e) = >>=-eq-ok (message_of (x.keccak encoded)) _ rest in
      rw (← ok-injective e) (verify-recoverable_bytes c encoded m key p q)
