-- ===== src/Float/Scaling.antt =====
-- What the bounds of a rescaled value need of the arithmetic of floats: rounded arithmetic keeps the
-- bounds of operands that are far from an overflow, and `round(x, 1)` keeps those that are whole.
use prime_jennie.Prelude.{ℕ, ◌≤◌, ◌<◌, ◌*◌, ◌≡◌, true, false, List, All, length}
use prime_jennie.Prelude.Int.{pos}
use prime_jennie.Float.{Float}

module _ {F : Type 0} (num : Float F) where
  -- a number between -1000 and 1000
  abbrev pub IsSmall : F → Type 0
  IsSmall x = (num.le (num.neg (num.lit 1000 0)) x ≡ true) × (num.le x (num.lit 1000 0) ≡ true)

pub record IsScaling {F : Type 0} (num : Float F) : Type 0 where
  pub le_of_lt : (x y : F) → num.lt x y ≡ true → num.le x y ≡ true
  pub eq-lt : (x y : F) → num.lt x y ≡ true → num.eq y x ≡ false
  pub lit_lt : (m n : ℕ) → m < n → n ≤ 1000 → num.lt (num.lit m 0) (num.lit n 0) ≡ true
  pub minus-le-zero : (m k : ℕ) → num.le (num.neg (num.lit m k)) (num.lit 0 0) ≡ true
  pub add_nonneg :
      (x y : F)
      → num.le (num.lit 0 0) x ≡ true
      → num.le (num.lit 0 0) y ≡ true
      → num.le (num.lit 0 0) (num.add x y) ≡ true
  -- the literals of 0, with any number of places
  pub add_zero : (k : ℕ) (x y : F) → num.le x y ≡ true → num.le (num.add (num.lit 0 k) x) y ≡ true
  pub sub_zero : (k : ℕ) (x y : F) → num.le x y ≡ true → num.le (num.sub x (num.lit 0 k)) y ≡ true
  pub sub_bounds :
      (lo hi x : F)
      → IsSmall num lo
      → IsSmall num hi
      → num.le lo x ≡ true
      → num.le x hi ≡ true
      → (num.le (num.lit 0 0) (num.sub x lo) ≡ true)
        × (num.le (num.sub x lo) (num.sub hi lo) ≡ true)
  pub sub_pos :
      (lo hi : F)
      → IsSmall num lo
      → IsSmall num hi
      → num.lt lo hi ≡ true
      → (num.lt (num.lit 0 0) (num.sub hi lo) ≡ true)
        × (num.le (num.sub hi lo) (num.lit 2000 0) ≡ true)
  pub div_bounds :
      (x d : F)
      → num.le (num.lit 0 0) x ≡ true
      → num.le x d ≡ true
      → num.lt (num.lit 0 0) d ≡ true
      → num.le d (num.lit 2000 0) ≡ true
      → (num.le (num.lit 0 0) (num.div x d) ≡ true) × (num.le (num.div x d) (num.lit 1 0) ≡ true)
  pub mul_bounds :
      (r w : F)
      → num.le (num.lit 0 0) r ≡ true
      → num.le r (num.lit 1 0) ≡ true
      → num.le (num.lit 0 0) w ≡ true
      → num.le w (num.lit 2000 0) ≡ true
      → (num.le (num.lit 0 0) (num.mul r w) ≡ true) × (num.le (num.mul r w) w ≡ true)
  pub div_lit :
      (x : F) (m : ℕ)
      → num.le (num.lit 0 0) x ≡ true
      → 0 < m
      → m ≤ 10_000_000_000
      → num.le (num.lit 0 0) (num.div x (num.lit m 0)) ≡ true
  -- a literal with one decimal place, at most 100, and not 0
  pub mul_lit :
      (x : F) (m : ℕ)
      → num.le (num.lit 0 0) x ≡ true
      → 0 < m
      → m ≤ 1000
      → num.le (num.lit 0 0) (num.mul x (num.lit m 1)) ≡ true
  pub round₁_upper :
      (x : F) (n : ℕ)
      → n ≤ 1000
      → num.le x (num.lit n 0) ≡ true
      → num.le (num.round₁ x) (num.lit n 0) ≡ true
  pub round₁_lower :
      (x : F) → num.le (num.lit 0 0) x ≡ true → num.le (num.lit 0 0) (num.round₁ x) ≡ true
  -- the sum of a list of numbers between 0 and k
  pub sum_bounds :
      (k : ℕ) (xs : List F)
      → All (λ x. (num.le (num.lit 0 0) x ≡ true) × (num.le x (num.lit k 0) ≡ true)) xs
      → k * length xs ≤ 1000
      → (num.le (num.lit 0 0) (num.sum xs) ≡ true)
        × (num.le (num.sum xs) (num.lit (k * length xs) 0) ≡ true)
  pub of_int_bounds :
      (n : ℕ)
      → n ≤ 1000
      → (num.le (num.lit 0 0) (num.of_int (pos n)) ≡ true)
        × (num.le (num.of_int (pos n)) (num.lit 1000 0) ≡ true)
  pub truncate_bounds :
      (x : F) (n : ℕ)
      → n ≤ 1000
      → num.le (num.lit 0 0) x ≡ true
      → num.le x (num.lit n 0) ≡ true
      → (num.le (num.lit 0 0) (num.of_int (num.truncate x)) ≡ true)
        × (num.le (num.of_int (num.truncate x)) (num.lit n 0) ≡ true)
  pub sub_below :
      (x y : F)
      → IsSmall num x
      → num.le (num.lit 0 0) y ≡ true
      → num.le y (num.lit 1000 0) ≡ true
      → num.le (num.sub x y) x ≡ true
  pub add_above :
      (x y : F)
      → IsSmall num x
      → num.le (num.lit 0 0) y ≡ true
      → num.le y (num.lit 1000 0) ≡ true
      → num.le x (num.add x y) ≡ true
