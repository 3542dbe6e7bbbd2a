-- ===== src/Float.antt =====
-- Python's `float`, as the program uses it: literals, conversions, arithmetic and comparisons. The
-- carrier is a parameter of every model that computes with floats, so that nothing depends on how a
-- result is rounded; what a theorem needs of the arithmetic is one of the law records of `Order`.
pub mod Order
pub mod Scaling
pub mod Fixed
use prime_jennie.Prelude.{List, Option, ℕ, Bool, if◌then◌else◌}
use prime_jennie.Prelude.Int.{ℤ, pos}

pub record Float (F : Type 0) : Type 0 where
  -- `lit m k` is the literal m / 10^k, rounded
  pub lit : ℕ → ℕ → F
  pub of_int : ℤ → F
  -- `float(text)` on the code points of the text; `none` is the ValueError
  pub of_text : List ℕ → Option F
  -- `int(x)`, `math.floor(x)` and `math.ceil(x)`
  pub truncate : F → ℤ
  pub floor : F → ℤ
  pub ceil : F → ℤ
  -- `round(x, 1)` and `round(x, 2)`
  pub round₁ : F → F
  pub round₂ : F → F
  -- `sum(xs)`, however the sum of the list is rounded
  pub sum : List F → F
  pub neg : F → F
  pub add : F → F → F
  pub sub : F → F → F
  pub mul : F → F → F
  pub div : F → F → F
  pub lt : F → F → Bool
  pub le : F → F → Bool
  pub eq : F → F → Bool

module _ {F : Type 0} ⦃num : Float F⦄ where
  open num use {lit, of_int, neg, lt}

  -- the literal n.0
  abbrev pub whole : ℕ → F
  whole n = lit n 0

  abbrev pub minus : ℕ → ℕ → F
  minus m k = neg (lit m k)

  abbrev pub of_nat : ℕ → F
  of_nat n = of_int (pos n)

  -- Python's `min(a, b)` and `max(a, b)` keep the first argument unless the second is beyond it.
  abbrev pub fmin : F → F → F
  fmin a b = if lt b a then b else a

  abbrev pub fmax : F → F → F
  fmax a b = if lt a b then b else a
