-- ===== src/Rpc/LittleEndian.antt =====
-- Reading the little-endian numbers that `fee_handler` of src/rpc/handlers.rs writes.
use preconfirmation_gateway.Common.{
  ℕ, zero, suc, ◌+◌, ◌*◌, ◌/◌, ◌<◌, ◌≡◌, refl, ap, arith, [], ◌∷◌, length,
}
use preconfirmation_gateway.Types.{Bytes}
use preconfirmation_gateway.Crypto.{split_at}
use preconfirmation_gateway.Rpc.{le_bytes}

-- `u64::from_le_bytes`
abbrev pub from_le_bytes : Bytes → ℕ
from_le_bytes [] = 0
from_le_bytes (b ∷ bs) = b + 256 * from_le_bytes bs

abbrev pub span : ℕ → ℕ
span zero = 1
span (suc k) = 256 * span k

pub length-le_bytes : (k n : ℕ) → length (le_bytes k n) ≡ k
unfolding le_bytes
length-le_bytes zero n = refl
length-le_bytes (suc k) n = ap suc (length-le_bytes k (n / 256))

pub from_le_bytes-le_bytes : (k n : ℕ) → n < span k → from_le_bytes (le_bytes k n) ≡ n
unfolding le_bytes
from_le_bytes-le_bytes zero n h = omega arith
from_le_bytes-le_bytes (suc k) n h = omega (arith, from_le_bytes-le_bytes k (n / 256) (omega arith))

-- The bytes from a position on, for so many.
abbrev pub slice : ℕ → ℕ → Bytes → Bytes
slice start count bs = (split_at count (split_at start bs).1).0
