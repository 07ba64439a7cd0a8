-- ===== src/Base/Lists.antt =====
-- Vectors as lists with native indices, and the counted loops that the code runs over them.
use Prim.Native.Nat.{ℕ, zero, suc, ◌+◌, ◌≤◌, ◌<◌}
use mathlib.Core.Path.{◌≡◌, refl, ap, ap₂}
use mathlib.Core.Logic.{◌≢◌}
use mathlib.Core.List.{List, [], ◌∷◌, ◌++◌}
use native.Mathlib.Omega.{arith}

module _ {ℓ} {A : Type ℓ} where
  abbrev pub length : List A → ℕ
  length [] = 0
  length (x ∷ xs) = suc (length xs)

  -- `v[i]`; the value past the end, which C++ leaves undefined, is the last argument.
  abbrev pub get_or : List A → ℕ → A → A
  get_or [] i d = d
  get_or (x ∷ xs) zero d = x
  get_or (x ∷ xs) (suc i) d = get_or xs i d

  -- `v[i] = a`; a write past the end changes nothing.
  abbrev pub set : List A → ℕ → A → List A
  set [] i v = []
  set (x ∷ xs) zero v = v ∷ xs
  set (x ∷ xs) (suc i) v = x ∷ set xs i v

  abbrev pub replicate : ℕ → A → List A
  replicate zero a = []
  replicate (suc n) a = a ∷ replicate n a

  abbrev pub take : ℕ → List A → List A
  take zero xs = []
  take (suc n) [] = []
  take (suc n) (x ∷ xs) = x ∷ take n xs

  abbrev pub All {κ} : (A → Type κ) → List A → Type κ
  All P [] = Unit
  All P (x ∷ xs) = P x × All P xs

  -- `for (i = 0; i < n; ++i) v[i] = g(i, v[i])`
  pub for_below : ℕ → (ℕ → A → A) → List A → List A
  for_below zero g xs = xs
  for_below (suc n) g [] = []
  for_below (suc n) g (x ∷ xs) = g 0 x ∷ for_below n (λ i. g (suc i)) xs

  -- `for (i = 0; i < n; ++i) v[at + i] = f(i)`
  pub write_range : ℕ → ℕ → (ℕ → A) → List A → List A
  write_range at zero f xs = xs
  write_range at (suc n) f xs = write_range (suc at) n (λ i. f (suc i)) (set xs at (f 0))

  pub length-append : (xs ys : List A) → length (xs ++ ys) ≡ length xs + length ys
  length-append [] ys = omega arith
  length-append (x ∷ xs) ys = omega (arith, length-append xs ys)

  pub length-set : (xs : List A) (i : ℕ) (v : A) → length (set xs i v) ≡ length xs
  length-set [] i v = refl
  length-set (x ∷ xs) zero v = refl
  length-set (x ∷ xs) (suc i) v = ap suc (length-set xs i v)

  pub get_or-set_self :
      (xs : List A) (i : ℕ) (v d : A) → i < length xs → get_or (set xs i v) i d ≡ v
  get_or-set_self [] i v d h = absurd (omega arith)
  get_or-set_self (x ∷ xs) zero v d h = refl
  get_or-set_self (x ∷ xs) (suc i) v d h = get_or-set_self xs i v d (omega arith)

  pub get_or-set_ne :
      (xs : List A) (i j : ℕ) (v d : A) → i ≢ j → get_or (set xs i v) j d ≡ get_or xs j d
  get_or-set_ne [] i j v d h = refl
  get_or-set_ne (x ∷ xs) zero zero v d h = absurd (h refl)
  get_or-set_ne (x ∷ xs) zero (suc j) v d h = refl
  get_or-set_ne (x ∷ xs) (suc i) zero v d h = refl
  get_or-set_ne (x ∷ xs) (suc i) (suc j) v d h = get_or-set_ne xs i j v d (λ e. h (ap suc e))

  pub length-replicate : (n : ℕ) (a : A) → length (replicate n a) ≡ n
  length-replicate zero a = refl
  length-replicate (suc n) a = ap suc (length-replicate n a)

  pub length-for_below :
      (n : ℕ) (g : ℕ → A → A) (xs : List A) → length (for_below n g xs) ≡ length xs
  unfolding for_below
  length-for_below zero g xs = refl
  length-for_below (suc n) g [] = refl
  length-for_below (suc n) g (x ∷ xs) = ap suc (length-for_below n (λ i. g (suc i)) xs)

  -- The loop has applied its body once at each index below the bound.
  pub get_or-for_below :
      (n : ℕ) (g : ℕ → A → A) (xs : List A) (i : ℕ) (d : A)
      → i < n
      → i < length xs
      → get_or (for_below n g xs) i d ≡ g i (get_or xs i d)
  unfolding for_below
  get_or-for_below zero g xs i d h k = absurd (omega arith)
  get_or-for_below (suc n) g [] i d h k = absurd (omega arith)
  get_or-for_below (suc n) g (x ∷ xs) zero d h k = refl
  get_or-for_below (suc n) g (x ∷ xs) (suc i) d h k =
      get_or-for_below n (λ j. g (suc j)) xs i d (omega arith) (omega arith)

  -- And has left every other element alone.
  pub get_or-for_below_above :
      (n : ℕ) (g : ℕ → A → A) (xs : List A) (i : ℕ) (d : A)
      → n ≤ i
      → get_or (for_below n g xs) i d ≡ get_or xs i d
  unfolding for_below
  get_or-for_below_above zero g xs i d h = refl
  get_or-for_below_above (suc n) g [] i d h = refl
  get_or-for_below_above (suc n) g (x ∷ xs) zero d h = absurd (omega arith)
  get_or-for_below_above (suc n) g (x ∷ xs) (suc i) d h =
      get_or-for_below_above n (λ j. g (suc j)) xs i d (omega arith)

  pub length-write_range :
      (at n : ℕ) (f : ℕ → A) (xs : List A) → length (write_range at n f xs) ≡ length xs
  unfolding write_range
  length-write_range at zero f xs = refl
  length-write_range at (suc n) f xs = omega (
    arith,
    length-write_range (suc at) n (λ i. f (suc i)) (set xs at (f 0)),
    length-set xs at (f 0),
  )

  pub get_or-write_range_below :
      (at n : ℕ) (f : ℕ → A) (xs : List A) (j : ℕ) (d : A)
      → j < at
      → get_or (write_range at n f xs) j d ≡ get_or xs j d
  unfolding write_range
  get_or-write_range_below at zero f xs j d h = refl
  get_or-write_range_below at (suc n) f xs j d h = rw (
    get_or-write_range_below (suc at) n (λ i. f (suc i)) (set xs at (f 0)) j d (omega arith),
    get_or-set_ne xs at j (f 0) d (omega arith),
  )

  pub get_or-write_range_above :
      (at n : ℕ) (f : ℕ → A) (xs : List A) (j : ℕ) (d : A)
      → at + n ≤ j
      → get_or (write_range at n f xs) j d ≡ get_or xs j d
  unfolding write_range
  get_or-write_range_above at zero f xs j d h = refl
  get_or-write_range_above at (suc n) f xs j d h = rw (
    get_or-write_range_above (suc at) n (λ i. f (suc i)) (set xs at (f 0)) j d (omega arith),
    get_or-set_ne xs at j (f 0) d (omega arith),
  )

  pub get_or-write_range :
      (at n : ℕ) (f : ℕ → A) (xs : List A) (i : ℕ) (d : A)
      → i < n
      → at + n ≤ length xs
      → get_or (write_range at n f xs) (at + i) d ≡ f i
  unfolding write_range
  get_or-write_range at zero f xs i d h k = absurd (omega arith)
  get_or-write_range at (suc n) f xs zero d h k =
      let e : at + 0 ≡ at = omega arith in
      rw (
        e,
        get_or-write_range_below (suc at) n (λ i. f (suc i)) (set xs at (f 0)) at d (omega arith),
        get_or-set_self xs at (f 0) d (omega arith),
      )
  get_or-write_range at (suc n) f xs (suc i) d h k =
      let e : at + suc i ≡ suc at + i = omega arith in
      rw e (
        get_or-write_range (suc at) n (λ i. f (suc i)) (set xs at (f 0)) i d (omega arith)
          (omega (arith, length-set xs at (f 0))))

  pub get_or-append_left :
      (xs ys : List A) (i : ℕ) (d : A) → i < length xs → get_or (xs ++ ys) i d ≡ get_or xs i d
  get_or-append_left [] ys i d h = absurd (omega arith)
  get_or-append_left (x ∷ xs) ys zero d h = refl
  get_or-append_left (x ∷ xs) ys (suc i) d h = get_or-append_left xs ys i d (omega arith)

  -- Two vectors of one length that agree at every index are the same.
  pub ext_get_or :
      (xs ys : List A) (d : A)
      → length xs ≡ length ys
      → ((i : ℕ) → i < length xs → get_or xs i d ≡ get_or ys i d)
      → xs ≡ ys
  ext_get_or [] [] d e h = refl
  ext_get_or [] (y ∷ ys) d e h = absurd (omega arith)
  ext_get_or (x ∷ xs) [] d e h = absurd (omega arith)
  ext_get_or (x ∷ xs) (y ∷ ys) d e h =
      ap₂ ◌∷◌ (h 0 (omega arith))
        (ext_get_or xs ys d (omega arith) (λ i k. h (suc i) (omega arith)))
