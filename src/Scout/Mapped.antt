-- ===== src/Scout/Mapped.antt =====
-- The range of `_linear_map` of prime_jennie/services/scout/quant.py.
use prime_jennie.Prelude.{ℕ, ◌≤◌, ◌*◌, ◌^◌, ◌<◌, arith}
use prime_jennie.Float.{Float, whole, fmin, fmax}
use prime_jennie.Float.Order.{◌≼◌, ◌≺◌, IsOrdered, lt_of_lt-le, minus-IsNumber}
use prime_jennie.Float.Scaling.{IsSmall, IsScaling}
use prime_jennie.Scout.Factors.{linear_map}

module _ {F : Type 0} ⦃num : Float F⦄ (laws : IsOrdered num) (scaling : IsScaling num) where
  open num use {lit, neg, sub, div, mul, add}

  pub lit-IsSmall : (m k : ℕ) → m ≤ 1000 * 10 ^ k → IsSmall num (lit m k)
  lit-IsSmall m k h = (
    laws.le_trans (neg (lit 1000 0)) (lit 0 0) (lit m k) (scaling.minus-le-zero 1000 0)
        (laws.lit_mono 0 0 m k (omega arith)),
    laws.lit_mono m k 1000 0 (omega (arith, h)),
  )

  pub minus-IsSmall : (m k : ℕ) → m ≤ 1000 * 10 ^ k → IsSmall num (neg (lit m k))
  minus-IsSmall m k h = (
    laws.neg_mono (lit m k) (lit 1000 0) (laws.lit_mono m k 1000 0 (omega (arith, h))),
    laws.le_trans (neg (lit m k)) (lit 0 0) (lit 1000 0) (scaling.minus-le-zero m k)
        (laws.lit_mono 0 0 1000 0 (omega arith)),
  )

  minus-lt : (m k n : ℕ) → 0 < n → n ≤ 1000 → neg (lit m k) ≺ whole n
  minus-lt m k n h big = ground (
    arith,
    scaling.minus-le-zero m k,
    scaling.lit_lt 0 n h big,
    laws.lt-eq-not-le (neg (lit m k)) (whole n),
    laws.lt-eq-not-le (whole 0) (whole n),
    laws.refl_of_le (neg (lit m k)) (whole 0),
    laws.le_trans (whole n) (neg (lit m k)) (whole 0),
    laws.lit_mono n 0 n 0,
    laws.lit_mono 0 0 0 0,
  )

  pub minus-lt_lit : (m k n j i : ℕ) → 0 < i → i ≤ 1000 → i * 10 ^ j ≤ n → neg (lit m k) ≺ lit n j
  minus-lt_lit m k n j i h big le =
      lt_of_lt-le laws (neg (lit m k)) (whole i) (lit n j) (minus-IsNumber laws m k)
        (minus-lt m k i h big) (laws.lit_mono i 0 n j (omega (arith, le)))

  -- a value is brought between the bounds, whether it is a number or not
  pub clamped_bounds :
      (lo hi x : F) → lo ≼ hi → (lo ≼ fmax lo (fmin hi x)) × (fmax lo (fmin hi x) ≼ hi)
  clamped_bounds lo hi x h =
      let (nlo, nhi) = laws.refl_of_le lo hi h in
      ground (arith, nlo, nhi, scaling.le_of_lt x hi, scaling.le_of_lt lo x, scaling.le_of_lt lo hi)

  -- the difference of a literal and 0
  width :
      (m k n : ℕ)
      → m ≤ n * 10 ^ k
      → n ≤ 1000
      → IsSmall num (lit m k)
      → (whole 0 ≼ sub (lit m k) (lit 0 k)) × (sub (lit m k) (lit 0 k) ≼ whole n)
  width m k n top big sm = (
    (scaling.sub_bounds (lit 0 k) (lit m k) (lit m k) (lit-IsSmall 0 k (omega arith)) sm
        (laws.lit_mono 0 k m k (omega arith)) (laws.lit_mono m k m k (omega arith))).0,
    scaling.sub_zero k (lit m k) (whole n) (laws.lit_mono m k n 0 (omega (arith, top))),
  )

  -- a map of two small bounds to 0 and the literal m / 10^k, which is at most n
  pub linear_map_range :
      (lo hi x : F) (m k n : ℕ)
      → IsSmall num lo
      → IsSmall num hi
      → lo ≺ hi
      → m ≤ n * 10 ^ k
      → n ≤ 1000
      → IsSmall num (lit m k)
      → (whole 0 ≼ linear_map x lo hi (lit 0 k) (lit m k))
        × (linear_map x lo hi (lit 0 k) (lit m k) ≼ whole n)
  unfolding linear_map
  linear_map_range lo hi x m k n slo shi h top big sm =
      let c = fmax lo (fmin hi x) in
      let (c0, c1) = clamped_bounds lo hi x (scaling.le_of_lt lo hi h) in
      let (n0, n1) = scaling.sub_bounds lo hi c slo shi c0 c1 in
      let (d0, d1) = scaling.sub_pos lo hi slo shi h in
      let r = div (sub c lo) (sub hi lo) in
      let (r0, r1) = scaling.div_bounds (sub c lo) (sub hi lo) n0 n1 d0 d1 in
      let w = sub (lit m k) (lit 0 k) in
      let (w0, w1) = width m k n top big sm in
      let (m0, m1) =
        scaling.mul_bounds r w r0 r1 w0
          (laws.le_trans w (whole n) (whole 2000) w1 (laws.lit_mono n 0 2000 0 (omega arith))) in
      rw (scaling.eq-lt lo hi h) (
        scaling.add_nonneg (lit 0 k) (mul r w) (laws.lit_mono 0 0 0 k (omega arith)) m0,
        scaling.add_zero k (mul r w) (whole n) (laws.le_trans (mul r w) w (whole n) m1 w1),
      )
