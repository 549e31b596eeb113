-- ===== src/Float/Laws.antt =====
-- The operations on `f64` that the fee code calls, and the laws of them that its bounds rest on.
use preconfirmation_gateway.Common.{
  ℕ, ◌*◌, ◌^◌, ◌≤◌, ◌<◌, ◌≡◌, Bool, true, false, not, if◌then◌else◌, u64_max,
}

pub record F64 {ℓ} (F : Type ℓ) : Type ℓ where
  pub of_u64 : ℕ → F
  pub to_u64 : F → ℕ
  pub le : F → F → Bool
  pub lt : F → F → Bool
  pub is_finite : F → Bool
  pub mul : F → F → F
  pub div : F → F → F
  pub sub : F → F → F
  pub powf : F → F → F
  pub ceil : F → F

module _ {ℓ} {F : Type ℓ} ⦃f : F64 F⦄ where
  -- The literals `0.0`, `1.0` and so on are whole numbers.
  abbrev pub lit : ℕ → F
  lit n = f.of_u64 n

  -- `f64::max` and `f64::min`: where one argument is NaN the result is the other.
  abbrev pub fmax : F → F → F
  fmax x y = if f.le x x then (if f.le y y then (if f.lt x y then y else x) else x) else y

  abbrev pub fmin : F → F → F
  fmin x y = if f.le x x then (if f.le y y then (if f.lt y x then y else x) else x) else y

  -- `f64::clamp`
  abbrev pub clamp : F → F → F → F
  clamp lo hi x = let y = if f.lt x lo then lo else x in if f.lt hi y then hi else y

infix 4 ◌≼◌
abbrev pub ◌≼◌ {ℓ} : {F : Type ℓ} ⦃f : F64 F⦄ → F → F → Type 0
◌≼◌ ⦃f⦄ x y = f.le x y ≡ true

abbrev pub Finite {ℓ} : {F : Type ℓ} ⦃f : F64 F⦄ → F → Type 0
Finite ⦃f⦄ x = f.is_finite x ≡ true

-- What IEEE 754 and Rust's reference say of these operations. Integers up to 2^53 are exact.
pub record IsIeee {ℓ} (F : Type ℓ) ⦃f : F64 F⦄ : Type ℓ where
  pub of_u64_finite : (n : ℕ) → n ≤ u64_max → Finite (f.of_u64 n)
  pub of_u64_mono : (m n : ℕ) → m ≤ n → f.of_u64 m ≼ f.of_u64 n
  pub to_u64-of_u64 : (n : ℕ) → n ≤ 2 ^ 53 → f.to_u64 (f.of_u64 n) ≡ n
  pub to_u64_mono : (x y : F) → x ≼ y → f.to_u64 x ≤ f.to_u64 y
  pub to_u64-le : (x : F) → f.to_u64 x ≤ u64_max
  pub le_trans : (x y z : F) → x ≼ y → y ≼ z → x ≼ z
  pub le_refl : (x : F) → Finite x → x ≼ x
  pub lt-eq-not-le : (x y : F) → Finite x → Finite y → f.lt x y ≡ not (f.le y x)
  pub le_total : (x y : F) → Finite x → Finite y → f.le x y ≡ false → y ≼ x
  pub finite_of_le : (x y : F) → f.of_u64 0 ≼ x → x ≼ y → Finite y → Finite x
  pub le-ceil : (x : F) → Finite x → x ≼ f.ceil x
  pub ceil_mono : (x y : F) → x ≼ y → f.ceil x ≼ f.ceil y
  pub ceil-of_u64 : (n : ℕ) → f.ceil (f.of_u64 n) ≡ f.of_u64 n
  pub mul_mono :
      (x a b : F) → f.of_u64 0 ≼ x → a ≼ b → Finite x → Finite a → Finite b → f.mul x a ≼ f.mul x b
  pub mul_one : (x : F) → f.mul x (f.of_u64 1) ≡ x
  pub mul-of_u64 : (a b : ℕ) → a * b ≤ 2 ^ 53 → f.mul (f.of_u64 a) (f.of_u64 b) ≡ f.of_u64 (a * b)
  pub div_finite : (a d : F) → Finite a → f.of_u64 1 ≼ d → Finite (f.div a d)
  pub div_nonneg : (a d : F) → f.of_u64 0 ≼ a → f.of_u64 1 ≼ d → Finite d → f.of_u64 0 ≼ f.div a d
  pub div_mono : (a b d : F) → a ≼ b → f.of_u64 1 ≼ d → Finite d → f.div a d ≼ f.div b d
  pub div_self : (n : ℕ) → 0 < n → n ≤ u64_max → f.div (f.of_u64 n) (f.of_u64 n) ≡ f.of_u64 1
