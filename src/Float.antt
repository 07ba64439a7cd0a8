-- ===== src/Float.antt =====
-- Floating point: the machine's arithmetic, which the sources use and do not define. `float` and
-- `double` are type parameters with these operations; the laws are those of IEEE 754 arithmetic
-- with rounding to nearest.
pub mod Order
pub mod Fixed
pub mod Exact
pub mod Integer
use robot_brain.Base.{ℕ, ◌*◌, ◌^◌, ◌≤◌, ◌<◌, ◌≡◌, ◌⊎◌, Bool, true, false, not}
use robot_brain.Base.Int.{ℤ, pos_part, neg_part}

pub record Float (F : Type 0) : Type 0 where
  -- `lit m k` is the literal m / 10^k.
  pub lit : ℕ → ℕ → F
  pub of_int : ℤ → F
  pub add : F → F → F
  pub sub : F → F → F
  pub mul : F → F → F
  pub div : F → F → F
  pub neg : F → F
  pub abs : F → F
  pub copysign : F → F → F
  pub fmod : F → F → F
  pub sin : F → F
  pub cos : F → F
  pub lt : F → F → Bool
  pub le : F → F → Bool
  pub is_nan : F → Bool
  pub is_inf : F → Bool

-- The conversions between `float` and `double`.
pub record Convert (F D : Type 0) : Type 0 where
  pub widen : F → D
  pub narrow : D → F

module _ {F : Type 0} ⦃f : Float F⦄ where
  infix 4 ◌≼◌
  abbrev pub ◌≼◌ : F → F → Type 0
  ◌≼◌ x y = f.le x y ≡ true

  -- A value that is not NaN.
  abbrev pub Num : F → Type 0
  Num x = f.is_nan x ≡ false

  abbrev pub Finite : F → Type 0
  Finite x = (f.is_nan x ≡ false) × (f.is_inf x ≡ false)

module _ (F : Type 0) ⦃f : Float F⦄ where
  open f use {lit, of_int, add, sub, mul, div, neg, abs, copysign, lt, le}

  -- IEEE 754: comparisons order the values that are not NaN, rounding is monotone, and an operation on
  -- finite values is NaN only where the standard says so.
  pub record IsIeee : Type 0 where
    pub le_refl : (x : F) → Num x → x ≼ x
    pub le_trans : (x y z : F) → x ≼ y → y ≼ z → x ≼ z
    pub le_num : (x y : F) → x ≼ y → Num x × Num y
    pub le_total : (x y : F) → Num x → Num y → (x ≼ y) ⊎ (y ≼ x)
    pub lt-eq-not-le : (x y : F) → Num x → Num y → lt x y ≡ not (le y x)
    pub lt_num : (x y : F) → lt x y ≡ true → Num x × Num y
    pub zero_finite : Finite (lit 0 0)
    pub add_num : (x y : F) → Finite x → Finite y → Num (add x y)
    pub sub_num : (x y : F) → Finite x → Finite y → Num (sub x y)
    pub le-add : (x c : F) → Num x → Finite c → lit 0 0 ≼ c → x ≼ add x c
    pub add-neg-le : (x c : F) → Num x → Finite c → lit 0 0 ≼ c → add x (neg c) ≼ x
    pub sub-le : (x c : F) → Num x → Finite c → lit 0 0 ≼ c → sub x c ≼ x
    -- If the rounded x - y exceeds c, then x is at least the rounded y + c.
    pub add_le_of_lt_sub : (x y c : F) → lit 0 0 ≼ c → lt c (sub x y) ≡ true → add y c ≼ x
    pub le_add_of_sub_lt :
        (x y c : F) → lit 0 0 ≼ c → lt (sub x y) (neg c) ≡ true → x ≼ add y (neg c)
    pub abs_finite : (x : F) → Finite x → Finite (abs x)
    pub abs_nonneg : (x : F) → Num x → lit 0 0 ≼ abs x
    pub abs_le : (x : F) → lit 0 0 ≼ x → abs x ≼ x
    pub neg_anti : (x y : F) → x ≼ y → neg y ≼ neg x
    pub neg_nonpos : (x : F) → lit 0 0 ≼ x → neg x ≼ lit 0 0
    pub lt_abs :
        (c x : F) → lit 0 0 ≼ c → lt c (abs x) ≡ true → (lt c x ≡ true) ⊎ (lt x (neg c) ≡ true)
    pub copysign_pos : (m x : F) → lt (lit 0 0) x ≡ true → copysign m x ≡ abs m
    pub copysign_neg : (m x : F) → lt x (lit 0 0) ≡ true → copysign m x ≡ neg (abs m)
    -- Literals are rounded monotonically; those in use are finite, and a positive one stays positive.
    pub lit_mono : (m j n k : ℕ) → m * 10 ^ k ≤ n * 10 ^ j → lit m j ≼ lit n k
    pub lit_pos : (m k : ℕ) → 0 < m → k ≤ 3 → lt (lit 0 0) (lit m k) ≡ true
    pub lit_finite : (m k : ℕ) → m < 2 ^ 64 → Finite (lit m k)
    -- An `int64_t` converts to a finite value.
    pub of_int_finite : (n : ℤ) → pos_part n < 2 ^ 63 → neg_part n < 2 ^ 63 → Finite (of_int n)
    pub div_num : (x y : F) → Finite x → Finite y → lt (lit 0 0) y ≡ true → Num (div x y)
    pub mul_half :
        (x y : F)
        → Finite x
        → lit 0 0 ≼ x
        → lit 0 0 ≼ y
        → y ≼ lit 5 1
        → Finite (mul x y) × (lit 0 0 ≼ mul x y)
