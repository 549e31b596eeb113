-- ===== src/Crypto/Addresses.antt =====
-- Theorems on `normalize_address` of src/utils/address.rs.
use preconfirmation_gateway.Common.{ℕ, ◌≡◌, refl, arith, [], ◌∷◌, map}
use preconfirmation_gateway.Types.{Text}
use preconfirmation_gateway.Crypto.{to_lower, normalize_address}

to_lower-to_lower : (c : ℕ) → to_lower (to_lower c) ≡ to_lower c
unfolding to_lower
to_lower-to_lower c = ground arith

map-to_lower-to_lower : (s : Text) → map to_lower (map to_lower s) ≡ map to_lower s
map-to_lower-to_lower [] = refl
map-to_lower-to_lower (c ∷ s) = cc (to_lower-to_lower c, map-to_lower-to_lower s)

-- Lower-casing an address first, the `X` of its prefix included, does not change its normal form: two
-- spellings of an address that differ only in case have one normal form.
pub normalize_address-to_lower :
    (addr : Text) → normalize_address (map to_lower addr) ≡ normalize_address addr
unfolding normalize_address
normalize_address-to_lower [] = refl
normalize_address-to_lower (c ∷ []) =
    unfold to_lower in ground (arith, map-to_lower-to_lower (c ∷ []))
normalize_address-to_lower (c ∷ d ∷ rest) =
    unfold to_lower in
    ground (arith, map-to_lower-to_lower (c ∷ d ∷ rest), map-to_lower-to_lower rest)
