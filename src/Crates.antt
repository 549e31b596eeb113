-- ===== src/Crates.antt =====
-- The third-party libraries that the program calls, as interfaces: hex, serde_json, rlp, ethabi,
-- tiny-keccak, secp256k1 and blst. Each record holds the functions that the program uses.
pub mod Sample
use preconfirmation_gateway.Common.{
  ℕ, ◌≡◌, ◌≢◌, ◌≤◌, Bool, Option, some, List, [], ◌∷◌, length, zero, suc, u64_max,
}
use preconfirmation_gateway.Types.{Bytes, Text, InclusionPayload, ExecutionPayload}

-- `ethabi::Token`
mutual
  pub data Token : Type 0 where
    uint : ℕ → Token
    bytes : Bytes → Token
    fixed_bytes : Bytes → Token
    address : Bytes → Token
    array : Tokens → Token
    tuple : Tokens → Token

  pub data Tokens : Type 0 where
    end : Tokens
    token : Token → Tokens → Tokens

-- What is appended to an `rlp::RlpStream`: a `u64`, or the bytes of a `Vec<u8>`.
pub data RlpItem : Type 0 where
  number : ℕ → RlpItem
  string : Bytes → RlpItem

-- `rlp::Rlp` over a payload: whether it is a list, how many items it has, and its items.
pub record RlpView : Type 0 where
  pub is_list : Bool
  pub item_count : Option ℕ
  pub u64_at : ℕ → Option ℕ
  pub bytes_at : ℕ → Option Bytes

pub record Crates : Type 0 where
  pub hex_encode : Bytes → Text
  pub hex_decode : Text → Option Bytes
  pub json_inclusion : Bytes → Option InclusionPayload
  pub json_execution : Bytes → Option ExecutionPayload
  pub rlp : Bytes → RlpView
  -- what a stream puts out that was opened for a list of so many items and got these
  pub rlp_out : ℕ → List RlpItem → Bytes
  pub abi_encode : Tokens → Bytes
  pub keccak : Bytes → Bytes
  -- the 64 bytes and the recovery id of a recoverable signature of a digest under a key
  pub sign_recoverable : Bytes → Bytes → Bytes × ℕ
  pub secp_secret_key_valid : Bytes → Bool
  pub secp_public_key : Bytes → Bytes
  -- whether 64 bytes and a recovery id make a signature, and its verification under a public key
  pub secp_signature_valid : Bytes → ℕ → Bool
  pub secp_verify : Bytes → Bytes → Bytes → Bool
  -- the 65 bytes of the uncompressed public key
  pub secp_public_key_uncompressed : Bytes → Bytes
  pub blst_secret_key_valid : Bytes → Bool
  pub blst_public_key : Bytes → Bytes
  pub blst_public_key_valid : Bytes → Bool
  pub blst_signature_valid : Bytes → Bool
  -- the message, its tag, the key and the signature
  pub blst_verify : Bytes → Bytes → Bytes → Bytes → Bool
  pub blst_sign : Bytes → Bytes → Bytes → Bytes

-- What `hex` documents: decoding inverts encoding, and an encoding has two characters a byte, none of
-- them an `x`. What the others document: rlp and serde_json read back what they wrote.
abbrev pub x_char : ℕ
x_char = b'x'

pub record IsHexCodec (x : Crates) : Type 0 where
  pub decode-encode : (b : Bytes) → x.hex_decode (x.hex_encode b) ≡ some b
  pub encode_no_x : (b : Bytes) (c d : ℕ) (rest : Text) → x.hex_encode b ≡ c ∷ d ∷ rest → d ≢ x_char

-- The item at a position.
abbrev pub item_at : ℕ → List RlpItem → Option RlpItem
item_at n [] = Option.none
item_at zero (item ∷ items) = some item
item_at (suc n) (item ∷ items) = item_at n items

-- A stream that got as many items as it was opened for puts out a list of them.
pub record IsRlpCodec (x : Crates) : Type 0 where
  pub is_list-out :
      (items : List RlpItem) → (x.rlp (x.rlp_out (length items) items)).is_list ≡ Bool.true
  pub item_count-out :
      (items : List RlpItem)
      → (x.rlp (x.rlp_out (length items) items)).item_count ≡ some (length items)
  pub u64_at-out :
      (items : List RlpItem) (i n : ℕ)
      → n ≤ u64_max
      → item_at i items ≡ some (number n)
      → (x.rlp (x.rlp_out (length items) items)).u64_at i ≡ some n
  pub bytes_at-out :
      (items : List RlpItem) (i : ℕ) (b : Bytes)
      → item_at i items ≡ some (string b)
      → (x.rlp (x.rlp_out (length items) items)).bytes_at i ≡ some b
  -- a list's first byte is at least 0xc0, and no JSON text begins so
  pub not_json :
      (items : List RlpItem) → x.json_inclusion (x.rlp_out (length items) items) ≡ Option.none

-- What secp256k1 documents: a signature has 64 bytes and a recovery id of at most 3, it is well formed,
-- and it verifies under the public key of the key that made it.
pub record IsSecp (x : Crates) : Type 0 where
  pub signature_length : (m k : Bytes) → length (x.sign_recoverable m k).0 ≡ 64
  pub recovery_id-le : (m k : Bytes) → (x.sign_recoverable m k).1 ≤ 3
  pub signature_valid :
      (m k : Bytes)
      → x.secp_signature_valid (x.sign_recoverable m k).0 (x.sign_recoverable m k).1 ≡ Bool.true
  pub verify-sign :
      (m k : Bytes) → x.secp_verify m (x.sign_recoverable m k).0 (x.secp_public_key k) ≡ Bool.true
