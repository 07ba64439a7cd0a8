-- ===== src/Jitter/Sorting.antt =====
-- `std::sort` on samples that are not NaN.
use mathlib.Core.List.{Perm}
use mathlib.Core.List.Perm
use robot_brain.Base.{
  ℕ, zero, suc, ◌≤◌, ◌<◌, ◌≡◌, refl, ap, ◌∙◌, List, [], ◌∷◌, arith, length, get_or, All, true, inl,
  inr, Bool-cases,
}
use robot_brain.Float.{Float, IsIeee, ◌≼◌, Num}
use robot_brain.Float.Order.{le_of_not_lt}
use robot_brain.Jitter.{insert, sort}

module _ {D : Type 0} ⦃d : Float D⦄ where
  abbrev pub IsSorted : List D → Type 0
  IsSorted [] = Unit
  IsSorted (x ∷ xs) = All (λ y. x ≼ y) xs × IsSorted xs

  pub All-insert : (P : D → Type 0) (x : D) (ys : List D) → P x → All P ys → All P (insert x ys)
  unfolding insert
  All-insert P x [] p ps = (p, tt)
  All-insert P x (y ∷ ys) p ps = elim (Bool-cases (d.lt y x)) [
    | inl e ↦ rw e (ps.0, All-insert P x ys p ps.1)
    | inr e ↦ rw e (p, ps)
  ]

  pub All-sort : (P : D → Type 0) (xs : List D) → All P xs → All P (sort xs)
  unfolding sort
  All-sort P [] ps = tt
  All-sort P (x ∷ xs) ps = All-insert P x (sort xs) ps.0 (All-sort P xs ps.1)

  insert-perm : (x : D) (ys : List D) → Perm (insert x ys) (x ∷ ys)
  unfolding insert
  insert-perm x [] = Perm.refl _
  insert-perm x (y ∷ ys) = elim (Bool-cases (d.lt y x)) [
    | inl e ↦ rw e (Perm.trans (Perm.cons y (insert-perm x ys)) (Perm.swap x y ys))
    | inr e ↦ rw e (Perm.refl _)
  ]

  pub sort-perm : (xs : List D) → Perm (sort xs) xs
  unfolding sort
  sort-perm [] = Perm.refl _
  sort-perm (x ∷ xs) = Perm.trans (insert-perm x (sort xs)) (Perm.cons x (sort-perm xs))

  length-insert : (x : D) (ys : List D) → length (insert x ys) ≡ suc (length ys)
  unfolding insert
  length-insert x [] = refl
  length-insert x (y ∷ ys) = ground (arith, length-insert x ys)

  pub length-sort : (xs : List D) → length (sort xs) ≡ length xs
  unfolding sort
  length-sort [] = refl
  length-sort (x ∷ xs) = length-insert x (sort xs) ∙ ap suc (length-sort xs)

  pub get_or-All :
      (P : D → Type 0) (xs : List D) (i : ℕ) (z : D) → All P xs → i < length xs → P (get_or xs i z)
  get_or-All P [] i z ps h = absurd (omega arith)
  get_or-All P (x ∷ xs) zero z ps h = ps.0
  get_or-All P (x ∷ xs) (suc i) z ps h = get_or-All P xs i z ps.1 (omega arith)

  module _ (laws : IsIeee D) where
    All-le : (x y : D) (ys : List D) → x ≼ y → All (λ z. y ≼ z) ys → All (λ z. x ≼ z) ys
    All-le x y [] h ps = tt
    All-le x y (z ∷ ys) h ps = (laws.le_trans x y z h ps.0, All-le x y ys h ps.1)

    insert-IsSorted :
        (x : D) (ys : List D) → Num x → All Num ys → IsSorted ys → IsSorted (insert x ys)
    unfolding insert
    insert-IsSorted x [] nx ns s = (tt, tt)
    insert-IsSorted x (y ∷ ys) nx ns s = elim (Bool-cases (d.lt y x)) [
      | inl e ↦
          let below = (laws.lt-eq-not-le y x ns.0 nx) in
          rw e (All-insert (λ z. y ≼ z) x ys (y_le_x e) s.0, insert-IsSorted x ys nx ns.1 s.1)
      | inr e ↦ let h = le_of_not_lt laws y x ns.0 nx e in rw e ((h, All-le x y ys h s.0), s)
    ]
      where
        y_le_x : d.lt y x ≡ true → y ≼ x
        y_le_x e = ground (arith, laws.lt-eq-not-le y x ns.0 nx, laws.le_total y x ns.0 nx)

    -- Sorting samples that are not NaN puts them in order.
    pub sort-IsSorted : (xs : List D) → All Num xs → IsSorted (sort xs)
    unfolding sort
    sort-IsSorted [] ns = tt
    sort-IsSorted (x ∷ xs) ns =
        insert-IsSorted x (sort xs) ns.0 (All-sort Num xs ns.1) (sort-IsSorted xs ns.1)

    pub get_or-IsSorted :
        (xs : List D) (i j : ℕ) (z : D)
        → All Num xs
        → IsSorted xs
        → i ≤ j
        → j < length xs
        → get_or xs i z ≼ get_or xs j z
    get_or-IsSorted [] i j z ns s h k = absurd (omega arith)
    get_or-IsSorted (x ∷ xs) zero zero z ns s h k = laws.le_refl x ns.0
    get_or-IsSorted (x ∷ xs) zero (suc j) z ns s h k =
        get_or-All (λ y. x ≼ y) xs j z s.0 (omega arith)
    get_or-IsSorted (x ∷ xs) (suc i) zero z ns s h k = absurd (omega arith)
    get_or-IsSorted (x ∷ xs) (suc i) (suc j) z ns s h k =
        get_or-IsSorted xs i j z ns.1 s.1 (omega arith) (omega arith)
