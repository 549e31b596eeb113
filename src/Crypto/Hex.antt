-- ===== src/Crypto/Hex.antt =====
-- Theorems on `parse_hex_bytes` of src/crypto/mod.rs.
use preconfirmation_gateway.Common.{ℕ, ◌≡◌, ◌≢◌, refl, arith, [], ◌∷◌, ◌++◌, length, ok}
use preconfirmation_gateway.Types.{Bytes, Text}
use preconfirmation_gateway.Crates.{Crates, IsHexCodec, x_char}
use preconfirmation_gateway.Crypto.{parse_hex_bytes, strip_prefix, strip_0x, hex_prefix, to_hex}

pub strip_0x-prefix : (s : Text) → strip_0x (hex_prefix ++ s) ≡ s
unfolding strip_prefix
strip_0x-prefix s = refl

strip_0x-ne :
    (s : Text) → ((c d : ℕ) (rest : Text) → s ≡ c ∷ d ∷ rest → d ≢ x_char) → strip_0x s ≡ s
unfolding strip_prefix
strip_0x-ne [] h = refl
strip_0x-ne (c ∷ []) h = ground arith
strip_0x-ne (c ∷ d ∷ rest) h = ground (arith, h c d rest refl)

module _ ⦃x : Crates⦄ (codec : IsHexCodec x) where
  decoded :
      (b : Bytes) (s : Text) → strip_0x s ≡ x.hex_encode b → parse_hex_bytes s (length b) ≡ ok b
  unfolding parse_hex_bytes
  decoded b s h = rw (h, codec.decode-encode b) (ground arith)

  -- The hex string of some bytes parses, at their number, to the same bytes: both as the program writes
  -- it, behind `0x`, and without the prefix.
  pub parse_hex_bytes-to_hex :
      (b : Bytes)
      → (parse_hex_bytes (to_hex b) (length b) ≡ ok b)
        × (parse_hex_bytes (x.hex_encode b) (length b) ≡ ok b)
  parse_hex_bytes-to_hex b = (
    decoded b (to_hex b) (strip_0x-prefix (x.hex_encode b)),
    decoded b (x.hex_encode b) (strip_0x-ne (x.hex_encode b) (codec.encode_no_x b)),
  )
