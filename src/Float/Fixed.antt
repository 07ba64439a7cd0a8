-- ===== src/Float/Fixed.antt =====
-- A number format that meets the IEEE 754 laws: whole thousandths without rounding or overflow, and
-- one NaN. The tests run the code on it; `sin` and `cos` are those of the angle 0.
use native.Mathlib.Nat.{
  pow-suc, div-mul-le_self, mul-le-mul, le_refl, le-div_iff_mul-le, le_of_mul-le-mul_right,
}
use robot_brain.Base.{
  zero, suc, ◌≤◌, ◌<◌, refl, ℕ, ◌*◌, ◌/◌, ◌^◌, ◌≡◌, Bool, true, false, Option, none, some, arith,
}
use robot_brain.Base.Int.{
  ℤ, pos, negsuc, sub_ℕ, ◌+ℤ◌, ◌-ℤ◌, ◌*ℤ◌, quot_ℕ, ltb_ℤ, leb_ℤ, pos_part, neg_part,
}
use robot_brain.Float.{Float, Convert, IsIeee}

abbrev pub Fixed : Type 0
Fixed = Option ℤ

abbrev pub milli : ℤ → Fixed
milli = some

abbrev on_numbers : (ℤ → ℤ → ℤ) → Fixed → Fixed → Fixed
on_numbers g (some a) (some b) = some (g a b)
on_numbers g _ _ = none

abbrev on_tests : (ℤ → ℤ → Bool) → Fixed → Fixed → Bool
on_tests g (some a) (some b) = g a b
on_tests g _ _ = false

abbrev magnitude : ℤ → ℤ
magnitude (pos n) = pos n
magnitude (negsuc n) = sub_ℕ (neg_part (negsuc n)) 0

abbrev negate : ℤ → ℤ
negate a = sub_ℕ (neg_part a) (pos_part a)

abbrev with_sign : ℤ → ℤ → ℤ
with_sign m (pos n) = magnitude m
with_sign m (negsuc n) = negate (magnitude m)

abbrev on_number : (ℤ → ℤ) → Fixed → Fixed
on_number g none = none
on_number g (some a) = some (g a)

abbrev is_none : Fixed → Bool
is_none none = true
is_none (some a) = false

instance abbrev pub fixed_float : Float Fixed
fixed_float = record {
  lit = λ m k. some (pos (m * 1000 / 10 ^ k));
  of_int = λ n. some (n *ℤ pos 1000);
  add = on_numbers ◌+ℤ◌;
  sub = on_numbers ◌-ℤ◌;
  mul = on_numbers (λ a b. quot_ℕ (a *ℤ b) 1000);
  div = on_numbers (λ a b. with_sign (quot_ℕ (a *ℤ pos 1000) (pos_part (magnitude b))) b);
  neg = on_number negate;
  abs = on_number magnitude;
  copysign = on_numbers with_sign;
  fmod = on_numbers (λ a b. a);
  sin = on_number (λ a. pos 0);
  cos = on_number (λ a. pos 1000);
  lt = on_tests ltb_ℤ;
  le = on_tests leb_ℤ;
  is_nan = is_none;
  is_inf = λ x. false;
}

instance abbrev pub fixed_convert : Convert Fixed Fixed
fixed_convert = record { widen = λ x. x; narrow = λ x. x }

ten_pow_pos : (k : ℕ) → 0 < 10 ^ k
ten_pow_pos zero = omega arith
ten_pow_pos (suc k) = rw pow-suc (omega (arith, ten_pow_pos k))

-- Literals round towards zero, so in order.
scaled-le : (m n a b : ℕ) → 0 < a → 0 < b → m * b ≤ n * a → m * 1000 / a ≤ n * 1000 / b
scaled-le m n a b pa pb h =
    let q = m * 1000 / a in
    let low : q * a ≤ m * 1000 = div-mul-le_self (m * 1000) a in
    let step : q * a * b ≤ m * 1000 * b = mul-le-mul low (le_refl b) in
    (le-div_iff_mul-le pb).1 (le_of_mul-le-mul_right {k = a} (omega arith) pa)

scaled-pos : (m k : ℕ) → 0 < m → k ≤ 3 → 0 < m * 1000 / 10 ^ k
scaled-pos m zero h p = omega arith
scaled-pos m (suc zero) h p = omega arith
scaled-pos m (suc (suc zero)) h p = omega arith
scaled-pos m (suc (suc (suc zero))) h p = omega arith
scaled-pos m (suc (suc (suc (suc k)))) h p = absurd (omega arith)

mul_half :
    (x y : Fixed)
    → (is_none x ≡ false)
    → (on_tests leb_ℤ (some (pos 0)) x ≡ true)
    → (on_tests leb_ℤ (some (pos 0)) y ≡ true)
    → let p = on_numbers (λ a b. quot_ℕ (a *ℤ b) 1000) x y in
      (is_none p ≡ false) × (on_tests leb_ℤ (some (pos 0)) p ≡ true)
unfolding ◌*ℤ◌ quot_ℕ
mul_half none y n hx hy = cc
mul_half (some x) none n hx hy = cc
mul_half (some (pos a)) (some (pos b)) n hx hy = ground arith
mul_half (some (pos a)) (some (negsuc b)) n hx hy = ground arith
mul_half (some (negsuc a)) (some (pos b)) n hx hy = ground arith
mul_half (some (negsuc a)) (some (negsuc b)) n hx hy = ground arith

pub Fixed-IsIeee : IsIeee Fixed
unfolding ◌+ℤ◌ ◌-ℤ◌
Fixed-IsIeee = record {
  le_refl = λ x n. ground arith;
  le_trans = λ x y z p q. ground arith;
  le_num = λ x y p. ground arith;
  le_total = λ x y p q. ground arith;
  lt-eq-not-le = λ x y p q. ground arith;
  lt_num = λ x y p. ground arith;
  zero_finite = ground arith;
  add_num = λ x y p q. ground arith;
  sub_num = λ x y p q. ground arith;
  le-add = λ x c p q r. ground arith;
  add-neg-le = λ x c p q r. ground arith;
  sub-le = λ x c p q r. ground arith;
  add_le_of_lt_sub = λ x y c p q. ground arith;
  le_add_of_sub_lt = λ x y c p q. ground arith;
  abs_finite = λ x p. ground arith;
  abs_nonneg = λ x p. ground arith;
  abs_le = λ x p. ground arith;
  neg_anti = λ x y p. ground arith;
  neg_nonpos = λ x p. ground arith;
  lt_abs = λ c x p q. ground arith;
  copysign_pos = λ m x p. ground arith;
  copysign_neg = λ m x p. ground arith;
  lit_mono = λ m j n k h.
      ground (arith, scaled-le m n (10 ^ j) (10 ^ k) (ten_pow_pos j) (ten_pow_pos k) h);
  lit_pos = λ m k h p. ground (arith, scaled-pos m k h p);
  lit_finite = λ m k p. ground arith;
  of_int_finite = λ n p q. ground arith;
  div_num = λ x y p q r. ground arith;
  mul_half = λ x y p q r s. let (n, z) = mul_half x y p.0 q r in ((n, refl), z);
}
