-- ===== src/Float/FixedPoint.antt =====
-- An instance of `F64` for the examples: thousandths, with `none` for infinity, and its laws.
use native.Mathlib.Nat.{mul-div_right, le-div_iff_mul-le, div-mul-le_self, mul-le-mul_left}
use preconfirmation_gateway.Common.{
  ℕ, ◌+◌, ◌-◌, ◌*◌, ◌/◌, ◌≤◌, ◌<◌, min, ◌≡◌, refl, ap, Bool, true, false, not, Option, none, some,
  arith, leb, ◌==◌, if◌then◌else◌, u64_max,
}
use preconfirmation_gateway.Float.Laws.{F64, IsIeee, ◌≼◌, Finite}

abbrev pub Fixed : Type 0
Fixed = Option ℕ

abbrev pub fixed_le : Fixed → Fixed → Bool
fixed_le (some a) (some b) = leb a b
fixed_le (some a) none = true
fixed_le none (some b) = false
fixed_le none none = true

abbrev pub fixed_to_u64 : Fixed → ℕ
fixed_to_u64 (some a) = min (a / 1000) u64_max
fixed_to_u64 none = u64_max

abbrev pub fixed_is_finite : Fixed → Bool
fixed_is_finite (some a) = true
fixed_is_finite none = false

abbrev pub fixed_mul : Fixed → Fixed → Fixed
fixed_mul (some a) (some b) = some (a * b / 1000)
fixed_mul (some a) none = none
fixed_mul none b = none

abbrev pub fixed_div : Fixed → Fixed → Fixed
fixed_div (some a) (some b) = if b == 0 then none else some (a * 1000 / b)
fixed_div (some a) none = some 0
fixed_div none b = none

abbrev pub fixed_sub : Fixed → Fixed → Fixed
fixed_sub (some a) (some b) = some (a - b)
fixed_sub (some a) none = some 0
fixed_sub none b = none

-- The square, whatever the exponent: the examples use 2.0.
abbrev pub fixed_powf : Fixed → Fixed → Fixed
fixed_powf a k = fixed_mul a a

abbrev pub fixed_ceil : Fixed → Fixed
fixed_ceil (some a) = some ((a + 999) / 1000 * 1000)
fixed_ceil none = none

instance abbrev pub fixed_f64 : F64 Fixed
fixed_f64 = record {
  of_u64 = λ n. some (n * 1000);
  to_u64 = fixed_to_u64;
  le = fixed_le;
  lt = λ x y. not (fixed_le y x);
  is_finite = fixed_is_finite;
  mul = fixed_mul;
  div = fixed_div;
  sub = fixed_sub;
  powf = fixed_powf;
  ceil = fixed_ceil;
}

div_mono_left : (a b d : ℕ) → a ≤ b → 0 < d → a / d ≤ b / d
div_mono_left a b d h p = (le-div_iff_mul-le p).1 (grind (arith, div-mul-le_self a d))

to_u64_mono : (x y : Fixed) → x ≼ y → fixed_to_u64 x ≤ fixed_to_u64 y
to_u64_mono (some a) (some b) h = ground (arith, div_mono_left a b 1000)
to_u64_mono (some a) none h = omega arith
to_u64_mono none (some b) h = cc
to_u64_mono none none h = omega arith

fixed_le_trans : (x y z : Fixed) → x ≼ y → y ≼ z → x ≼ z
fixed_le_trans (some a) (some b) (some c) h k = ground arith
fixed_le_trans x none (some c) h k = cc
fixed_le_trans none (some b) z h k = cc
fixed_le_trans (some a) y none h k = refl
fixed_le_trans none none none h k = refl

fixed_div_mono :
    (a b d : Fixed) → a ≼ b → fixed_f64.of_u64 1 ≼ d → Finite d → fixed_div a d ≼ fixed_div b d
fixed_div_mono (some a) (some b) (some d) h p q =
    ground (arith, div_mono_left (a * 1000) (b * 1000) d)
fixed_div_mono (some a) none (some d) h p q = ground arith
fixed_div_mono none (some b) d h p q = cc
fixed_div_mono none none d h p q = refl
fixed_div_mono a b none h p q = cc

fixed_mul_mono : (x a b : Fixed) → a ≼ b → Finite x → Finite b → fixed_mul x a ≼ fixed_mul x b
fixed_mul_mono (some x) (some a) (some b) h p q =
    ground (arith, div_mono_left (x * a) (x * b) 1000 (mul-le-mul_left x (ground arith)))
fixed_mul_mono none a b h p q = cc
fixed_mul_mono (some x) none (some b) h p q = cc
fixed_mul_mono (some x) a none h p q = cc

fixed_of_le : (x y : Fixed) → x ≼ y → Finite y → Finite x
fixed_of_le (some a) y h p = refl
fixed_of_le none (some b) h p = cc
fixed_of_le none none h p = cc

fixed_ceil_mono : (x y : Fixed) → x ≼ y → fixed_ceil x ≼ fixed_ceil y
fixed_ceil_mono (some a) (some b) h = ground arith
fixed_ceil_mono (some a) none h = refl
fixed_ceil_mono none (some b) h = cc
fixed_ceil_mono none none h = refl

fixed_le_total : (x y : Fixed) → Finite x → Finite y → fixed_le x y ≡ false → y ≼ x
fixed_le_total (some a) (some b) p q h = ground arith
fixed_le_total none y p q h = cc
fixed_le_total (some a) none p q h = cc

fixed_mul_one : (x : Fixed) → fixed_mul x (some 1000) ≡ x
fixed_mul_one (some a) = ground arith
fixed_mul_one none = refl

fixed_mul-of_u64 : (a b : ℕ) → a * 1000 * (b * 1000) / 1000 ≡ a * b * 1000
fixed_mul-of_u64 a b = omega arith

fixed_div-Finite : (a d : Fixed) → Finite a → some 1000 ≼ d → Finite (fixed_div a d)
fixed_div-Finite (some a) (some d) p h = ground arith
fixed_div-Finite (some a) none p h = refl
fixed_div-Finite none d p h = cc

fixed_nonneg : (x : Fixed) → some 0 ≼ x
fixed_nonneg (some a) = ground arith
fixed_nonneg none = refl

fixed_div_self : (n : ℕ) → 0 < n → fixed_div (some (n * 1000)) (some (n * 1000)) ≡ some 1000
fixed_div_self n h = ground (arith, mul-div_right 1000 {m = n * 1000} (omega arith))

pub Fixed-IsIeee : IsIeee Fixed
Fixed-IsIeee = record {
  of_u64_finite = λ n h. refl;
  of_u64_mono = λ m n h. ground arith;
  to_u64-of_u64 = λ n h. omega arith;
  to_u64_mono = to_u64_mono;
  to_u64-le = elim [ some a ↦ omega arith | none ↦ omega arith ];
  le_trans = fixed_le_trans;
  le_refl = elim [ some a ↦ λ h. ground arith | none ↦ λ h. refl ];
  lt-eq-not-le = λ x y h k. refl;
  le_total = fixed_le_total;
  finite_of_le = λ x y _. fixed_of_le x y;
  le-ceil = elim [ some a ↦ λ h. ground arith | none ↦ λ h. refl ];
  ceil_mono = fixed_ceil_mono;
  ceil-of_u64 = λ n. ground arith;
  mul_mono = λ x a b _ h p _ q. fixed_mul_mono x a b h p q;
  mul_one = fixed_mul_one;
  mul-of_u64 = λ a b _. ap some (fixed_mul-of_u64 a b);
  div_finite = fixed_div-Finite;
  div_nonneg = λ a d _ _ _. fixed_nonneg (fixed_div a d);
  div_mono = fixed_div_mono;
  div_self = λ n h _. fixed_div_self n h;
}
