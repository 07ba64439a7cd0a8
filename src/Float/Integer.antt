-- ===== src/Float/Integer.antt =====
-- The integers as a number format without rounding, for the formulas that want one. Literals are cut
-- to their whole part, and `sin` and `cos` are those of the angle 0.
use robot_brain.Base.{◌+◌, ◌/◌, ◌^◌, ◌≡◌, false, arith}
use robot_brain.Base.Int.{
  ℤ, pos, negsuc, sub_ℕ, ◌+ℤ◌, ◌-ℤ◌, ◌*ℤ◌, quot_ℕ, ltb_ℤ, leb_ℤ, pos_part, neg_part, +ℤ_parts,
  eq_of_parts,
}
use robot_brain.Float.{Float, Convert}
use robot_brain.Float.Exact.{IsExact}

abbrev negate : ℤ → ℤ
negate a = sub_ℕ (neg_part a) (pos_part a)

abbrev magnitude : ℤ → ℤ
magnitude a = sub_ℕ (pos_part a + neg_part a) 0

abbrev with_sign : ℤ → ℤ → ℤ
with_sign m (pos n) = magnitude m
with_sign m (negsuc n) = negate (magnitude m)

instance abbrev pub integer_float : Float ℤ
integer_float = record {
  lit = λ m k. pos (m / 10 ^ k);
  of_int = λ n. n;
  add = ◌+ℤ◌;
  sub = ◌-ℤ◌;
  mul = ◌*ℤ◌;
  div = λ a b. with_sign (quot_ℕ a (pos_part b + neg_part b)) b;
  neg = negate;
  abs = magnitude;
  copysign = with_sign;
  fmod = λ a b. a;
  sin = λ a. pos 0;
  cos = λ a. pos 1;
  lt = ltb_ℤ;
  le = leb_ℤ;
  is_nan = λ a. false;
  is_inf = λ a. false;
}

instance abbrev pub integer_convert : Convert ℤ ℤ
integer_convert = record { widen = λ a. a; narrow = λ a. a }

negate_parts : (a : ℤ) → (pos_part (negate a) ≡ neg_part a) × (neg_part (negate a) ≡ pos_part a)
negate_parts a = ground arith

mul_comm : (a b : ℤ) → a *ℤ b ≡ b *ℤ a
unfolding ◌*ℤ◌
mul_comm a b = ground arith

zero-mul : (a : ℤ) → pos 0 *ℤ a ≡ pos 0
unfolding ◌*ℤ◌
zero-mul a = ground arith

one-mul : (a : ℤ) → pos 1 *ℤ a ≡ a
unfolding ◌*ℤ◌
one-mul a = ground arith

two-mul : (a : ℤ) → pos 2 *ℤ a ≡ a +ℤ a
unfolding ◌*ℤ◌ ◌+ℤ◌
two-mul a = ground arith

neg-mul : (a b : ℤ) → negate a *ℤ b ≡ negate (a *ℤ b)
unfolding ◌*ℤ◌
neg-mul a b = ground arith

mul-neg : (a b : ℤ) → a *ℤ negate b ≡ negate (a *ℤ b)
unfolding ◌*ℤ◌
mul-neg a b = ground arith

add_assoc : (a b c : ℤ) → (a +ℤ b) +ℤ c ≡ a +ℤ (b +ℤ c)
add_assoc a b c = omega (arith, +ℤ_parts, eq_of_parts)

neg-add : (a b : ℤ) → negate (a +ℤ b) ≡ negate a +ℤ negate b
unfolding ◌+ℤ◌
neg-add a b = ground arith

pub integer-IsExact : IsExact ℤ
unfolding ◌+ℤ◌ ◌-ℤ◌
integer-IsExact = record {
  add_assoc = add_assoc;
  add_comm = λ a b. ground arith;
  zero-add = λ a. ground arith;
  add-neg = λ a. ground arith;
  neg-neg = λ a. ground arith;
  neg-zero = ground arith;
  neg-add = neg-add;
  sub_lem = λ a b. ground arith;
  mul_comm = mul_comm;
  zero-mul = zero-mul;
  one-mul = one-mul;
  two-mul = two-mul;
  neg-mul = neg-mul;
  mul-neg = mul-neg;
}
