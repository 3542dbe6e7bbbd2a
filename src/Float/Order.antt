-- ===== src/Float/Order.antt =====
-- What the theorems need of the comparisons of floats. NaN is the value that is not `<=` itself.
use prime_jennie.Prelude.{arith, ℕ, ◌*◌, ◌^◌, ◌≤◌, ◌≡◌, true, false, not, ◌⊎◌, arith}
use prime_jennie.Prelude.Int.{ℤ, pos, ◌≤ℤ◌}
use prime_jennie.Float.{fmin, fmax, Float}

module _ {F : Type 0} ⦃num : Float F⦄ where
  open num use {lit, lt, le}

  infix 4 ◌≼◌ ◌≺◌
  abbrev pub ◌≼◌ : F → F → Type 0
  x ≼ y = le x y ≡ true

  abbrev pub ◌≺◌ : F → F → Type 0
  x ≺ y = lt x y ≡ true

  abbrev pub IsNumber : F → Type 0
  IsNumber x = x ≼ x

pub record IsOrdered {F : Type 0} (num : Float F) : Type 0 where
  pub refl_of_le : (x y : F) → num.le x y ≡ true → (num.le x x ≡ true) × (num.le y y ≡ true)
  pub le_trans : (x y z : F) → num.le x y ≡ true → num.le y z ≡ true → num.le x z ≡ true
  pub lt-eq-not-le :
      (x y : F) → num.le x x ≡ true → num.le y y ≡ true → num.lt x y ≡ not (num.le y x)
  pub le_total :
      (x y : F) → num.le x x ≡ true → num.le y y ≡ true → (num.le x y ≡ true) ⊎ (num.le y x ≡ true)
  -- rounding a literal keeps the order
  pub lit_mono : (m k n j : ℕ) → m * 10 ^ j ≤ n * 10 ^ k → num.le (num.lit m k) (num.lit n j) ≡ true
  pub neg_mono : (x y : F) → num.le x y ≡ true → num.le (num.neg y) (num.neg x) ≡ true

-- Rounded arithmetic keeps the order where the results are numbers.
pub record IsMonotone {F : Type 0} (num : Float F) : Type 0 where
  pub of_int_mono : (a b : ℤ) → a ≤ℤ b → num.le (num.of_int a) (num.of_int b) ≡ true
  pub zero_of_int : num.le (num.lit 0 0) (num.of_int (pos 0)) ≡ true
  pub one_of_int : num.lt (num.lit 0 0) (num.of_int (pos 1)) ≡ true
  pub add_mono :
      (c x y : F)
      → num.le x y ≡ true
      → num.le (num.add c x) (num.add c x) ≡ true
      → num.le (num.add c y) (num.add c y) ≡ true
      → num.le (num.add c x) (num.add c y) ≡ true
  pub add_nonneg :
      (c x : F)
      → num.le (num.lit 0 0) x ≡ true
      → num.le (num.add c x) (num.add c x) ≡ true
      → num.le c (num.add c x) ≡ true
  pub mul_mono :
      (c x y : F)
      → num.le (num.lit 0 0) c ≡ true
      → num.le x y ≡ true
      → num.le (num.mul c x) (num.mul c x) ≡ true
      → num.le (num.mul c y) (num.mul c y) ≡ true
      → num.le (num.mul c x) (num.mul c y) ≡ true
  pub div_mono :
      (d x y : F)
      → num.lt (num.lit 0 0) d ≡ true
      → num.le x y ≡ true
      → num.le (num.div x d) (num.div x d) ≡ true
      → num.le (num.div y d) (num.div y d) ≡ true
      → num.le (num.div x d) (num.div y d) ≡ true
  pub mul_nonneg :
      (x y : F)
      → num.le (num.lit 0 0) x ≡ true
      → num.le (num.lit 0 0) y ≡ true
      → num.le (num.mul x y) (num.mul x y) ≡ true
      → num.le (num.lit 0 0) (num.mul x y) ≡ true
  pub div_nonneg :
      (x d : F)
      → num.le (num.lit 0 0) x ≡ true
      → num.lt (num.lit 0 0) d ≡ true
      → num.le (num.div x d) (num.div x d) ≡ true
      → num.le (num.lit 0 0) (num.div x d) ≡ true

module _ {F : Type 0} {num : Float F} (laws : IsOrdered num) where
  -- a literal is a number, and so is its negation
  pub lit-IsNumber : (m k : ℕ) → num.le (num.lit m k) (num.lit m k) ≡ true
  lit-IsNumber m k = laws.lit_mono m k m k (omega arith)

  pub minus-IsNumber : (m k : ℕ) → num.le (num.neg (num.lit m k)) (num.neg (num.lit m k)) ≡ true
  minus-IsNumber m k = laws.neg_mono _ _ (lit-IsNumber m k)

  -- between numbers, what is not at most is above
  pub lt_of_not-le :
      (x y : F) → num.le x x ≡ true → num.le y y ≡ true → num.le x y ≡ false → num.lt y x ≡ true
  lt_of_not-le x y hx hy h = ground (arith, laws.lt-eq-not-le y x hy hx)

  pub le_of_not-lt :
      (x y : F) → num.le x x ≡ true → num.le y y ≡ true → num.lt x y ≡ false → num.le y x ≡ true
  le_of_not-lt x y hx hy h = ground (arith, laws.lt-eq-not-le x y hx hy)

  pub lt_of_lt-le :
      (x y z : F) → num.le x x ≡ true → num.lt x y ≡ true → num.le y z ≡ true → num.lt x z ≡ true
  lt_of_lt-le x y z hx h k =
      let (hy, hz) = laws.refl_of_le y z k in
      ground
        (arith, laws.lt-eq-not-le x y hx hy, laws.lt-eq-not-le x z hx hz, laws.le_trans y z x k)

-- the bounds of `max` and `min`
module _ {F : Type 0} ⦃num : Float F⦄ where
  module _ (laws : IsOrdered num) (x p : F) (nx : IsNumber x) (np : IsNumber p) where
    pub le-fmax_left : x ≼ fmax x p
    le-fmax_left = ground (arith, laws.lt-eq-not-le x p nx np, laws.le_total x p nx np)

    pub le-fmax_right : p ≼ fmax x p
    le-fmax_right = ground (arith, laws.lt-eq-not-le x p nx np, laws.le_total x p nx np)

    pub fmin-le_left : fmin x p ≼ x
    fmin-le_left = ground (arith, laws.lt-eq-not-le p x np nx, laws.le_total x p nx np)

    pub fmin-le_right : fmin x p ≼ p
    fmin-le_right = ground (arith, laws.lt-eq-not-le p x np nx, laws.le_total x p nx np)
