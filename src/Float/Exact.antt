-- ===== src/Float/Exact.antt =====
-- Arithmetic without rounding, in which formulas of geometry can be compared: the laws of a
-- commutative ring that such comparisons need, and what follows from them for sums.
use robot_brain.Base.{◌≡◌, refl, sym, ◌∙◌}
use robot_brain.Float.{Float}

module _ (F : Type 0) ⦃f : Float F⦄ where
  open f use {lit, add, sub, mul, neg}

  pub record IsExact : Type 0 where
    pub add_assoc : (a b c : F) → add (add a b) c ≡ add a (add b c)
    pub add_comm : (a b : F) → add a b ≡ add b a
    pub zero-add : (a : F) → add (lit 0 0) a ≡ a
    pub add-neg : (a : F) → add a (neg a) ≡ lit 0 0
    pub neg-neg : (a : F) → neg (neg a) ≡ a
    pub neg-zero : neg (lit 0 0) ≡ lit 0 0
    pub neg-add : (a b : F) → neg (add a b) ≡ add (neg a) (neg b)
    pub sub_lem : (a b : F) → sub a b ≡ add a (neg b)
    pub mul_comm : (a b : F) → mul a b ≡ mul b a
    pub zero-mul : (a : F) → mul (lit 0 0) a ≡ lit 0 0
    pub one-mul : (a : F) → mul (lit 10 1) a ≡ a
    pub two-mul : (a : F) → mul (lit 20 1) a ≡ add a a
    pub neg-mul : (a b : F) → mul (neg a) b ≡ neg (mul a b)
    pub mul-neg : (a b : F) → mul a (neg b) ≡ neg (mul a b)

module _ {F : Type 0} ⦃f : Float F⦄ (e : IsExact F) where
  open f use {lit, add, neg}

  pub add-zero : (a : F) → add a (lit 0 0) ≡ a
  add-zero a = e.add_comm a (lit 0 0) ∙ e.zero-add a

  pub add_interchange : (a b c d : F) → add (add a b) (add c d) ≡ add (add a c) (add b d)
  add_interchange a b c d =
      rw (e.add_assoc a b (add c d), ← e.add_assoc b c d, e.add_comm b c, e.add_assoc c b d)
        (sym (e.add_assoc a c (add b d)))

  -- (s + s) - ((w + s) + z) is (s - w) - z.
  pub cancel : (s w z : F) → add (add s s) (neg (add (add w s) z)) ≡ add (add (neg w) s) (neg z)
  cancel s w z =
      rw
        (
          e.neg-add (add w s) z,
          e.neg-add w s,
          ← e.add_assoc (add s s) (add (neg w) (neg s)) (neg z),
          add_interchange s s (neg w) (neg s),
          e.add-neg s,
          add-zero (add s (neg w)),
          e.add_comm s (neg w),
        )
        refl
