-- ===== src/Float/Fixed.antt =====
-- A carrier that meets the laws: integers that count millionths, rounded towards zero.
use mathlib.Core.Option
use prime_jennie.Prelude.{
  List, [], ◌∷◌, Option, none, some, ◌==◌, ◌&&◌, ◌-◌, ◌≤◌, ◌<◌, zero, ℕ, suc, ◌+◌, ◌*◌, ◌/◌, ◌^◌,
  ◌≡◌, refl, Bool, true, arith, leb, All, length, if◌then◌else◌,
}
use prime_jennie.Prelude.Int.{
  ℤ, pos, negsuc, pos_part, neg_part, sub_ℕ, ◌+ℤ◌, ◌-ℤ◌, ltb_ℤ, leb_ℤ, eqb_ℤ,
}
use native.Mathlib.Nat.{
  le-div_iff_mul-le, le_of_mul-le-mul_right, mul-le-mul_left, mul-le-mul_right, div-mul-le_self,
  pow-suc, mul-suc,
}
use prime_jennie.Float.{Float}
use prime_jennie.Float.Order.{IsOrdered, IsMonotone}
use prime_jennie.Float.Scaling.{IsScaling}

abbrev pub Fixed : Type 0
Fixed = ℤ

abbrev unit : ℕ
unit = 1_000_000

abbrev abs : ℤ → ℕ
abs x = pos_part x + neg_part x

abbrev is_neg : ℤ → Bool
is_neg x = ltb_ℤ x (pos 0)

abbrev signed : Bool → ℕ → ℤ
signed s n = if s then sub_ℕ 0 n else pos n

abbrev opposite : Bool → Bool → Bool
opposite s t = if s then (if t then is_neg (pos 0) else s) else t

abbrev fixed_mul : ℤ → ℤ → ℤ
fixed_mul a b = signed (opposite (is_neg a) (is_neg b)) (abs a * abs b / unit)

abbrev fixed_div : ℤ → ℤ → ℤ
fixed_div a b = signed (opposite (is_neg a) (is_neg b)) (abs a * unit / abs b)

abbrev fixed_floor : ℤ → ℤ
fixed_floor (pos n) = pos (n / unit)
fixed_floor (negsuc n) = negsuc (n / unit)

abbrev fixed_ceil : ℤ → ℤ
fixed_ceil (pos n) = pos ((n + 999_999) / unit)
fixed_ceil (negsuc n) = sub_ℕ 0 (suc n / unit)

-- decimal digits, with the value of the next place after the point
abbrev digits : ℕ → ℕ → List ℕ → Option ℕ
digits acc place [] = some acc
digits acc place (c ∷ cs) =
    let rest = digits (acc * 10 + (c - b'0') * unit) 0 cs in
    let after = digits (acc + (c - b'0') * place) (place / 10) cs in
    if leb b'0' c && leb c b'9'
    then (if place == 0 then rest else after)
    else if c == b'.' && place == 0
    then digits acc 100_000 cs
    else none

abbrev parse : List ℕ → Option ℤ
parse [] = none
parse (c ∷ cs) = Option.map pos (digits 0 0 (c ∷ cs))

abbrev sum_of : List ℤ → ℤ
sum_of [] = pos 0
sum_of (x ∷ xs) = x +ℤ sum_of xs

instance abbrev pub fixed : Float Fixed
fixed = record {
  lit = λ m k. pos (m * unit / 10 ^ k);
  of_int = λ n. signed (is_neg n) (abs n * unit);
  of_text = parse;
  truncate = λ x. signed (is_neg x) (abs x / unit);
  floor = fixed_floor;
  ceil = fixed_ceil;
  round₁ = λ x. signed (is_neg x) ((abs x + 50_000) / 100_000 * 100_000);
  round₂ = λ x. signed (is_neg x) ((abs x + 5000) / 10_000 * 10_000);
  sum = sum_of;
  neg = λ x. pos 0 -ℤ x;
  add = ◌+ℤ◌;
  sub = ◌-ℤ◌;
  mul = fixed_mul;
  div = fixed_div;
  lt = ltb_ℤ;
  le = leb_ℤ;
  eq = eqb_ℤ;
}

div_mono : (a b c d : ℕ) → 0 < b → 0 < d → a * d ≤ c * b → a / b ≤ c / d
div_mono a b c d hb hd h =
    (le-div_iff_mul-le hd).1
      (le_of_mul-le-mul_right (omega (arith, mul-le-mul_right d (div-mul-le_self a b), h)) hb)

pow_pos : (k : ℕ) → 0 < 10 ^ k
pow_pos zero = omega arith
pow_pos (suc k) = rw pow-suc (omega (arith, pow_pos k))

lit_mono : (m k n j : ℕ) → m * 10 ^ j ≤ n * 10 ^ k → m * unit / 10 ^ k ≤ n * unit / 10 ^ j
lit_mono m k n j h =
    div_mono (m * unit) (10 ^ k) (n * unit) (10 ^ j) (pow_pos k) (pow_pos j) (grind arith)

pub Fixed-IsOrdered : IsOrdered fixed
unfolding ◌+ℤ◌ ◌-ℤ◌
Fixed-IsOrdered = record {
  refl_of_le = λ x y h. (ground arith, ground arith);
  le_trans = λ x y z h k. ground arith;
  lt-eq-not-le = λ x y h k. ground arith;
  le_total = λ x y h k. ground arith;
  lit_mono = λ m k n j h. ground (arith, lit_mono m k n j h);
  neg_mono = λ x y h. ground arith;
}

mul_le : (a b c n : ℕ) → b ≤ c → 0 < n → a * b / n ≤ a * c / n
mul_le a b c n h p = div_mono (a * b) n (a * c) n p p (mul-le-mul_right n (mul-le-mul_left a h))

mul_le_left : (a b c n d : ℕ) → b ≤ c → 0 < d → b * n / d ≤ c * n / d
mul_le_left a b c n d h p =
    div_mono (b * n) d (c * n) d p p (mul-le-mul_right d (mul-le-mul_right n h))

fixed_mul_mono :
    (c x y : ℤ)
    → leb_ℤ (pos 0) c ≡ true
    → leb_ℤ x y ≡ true
    → leb_ℤ (fixed_mul c x) (fixed_mul c y) ≡ true
fixed_mul_mono (negsuc c) x y hc h = absurd (ground arith)
fixed_mul_mono (pos c) (pos x) (pos y) hc h = ground (arith, mul_le c x y unit)
fixed_mul_mono (pos c) (negsuc x) (pos y) hc h = ground arith
fixed_mul_mono (pos c) (pos x) (negsuc y) hc h = ground arith
fixed_mul_mono (pos c) (negsuc x) (negsuc y) hc h = ground (arith, mul_le c (suc y) (suc x) unit)

fixed_div_mono :
    (d x y : ℤ)
    → ltb_ℤ (pos 0) d ≡ true
    → leb_ℤ x y ≡ true
    → leb_ℤ (fixed_div x d) (fixed_div y d) ≡ true
fixed_div_mono (negsuc d) x y hd h = ground arith
fixed_div_mono (pos d) (pos x) (pos y) hd h = ground (arith, mul_le_left 0 x y unit d)
fixed_div_mono (pos d) (negsuc x) (pos y) hd h = ground arith
fixed_div_mono (pos d) (pos x) (negsuc y) hd h = ground arith
fixed_div_mono (pos d) (negsuc x) (negsuc y) hd h =
    ground (arith, mul_le_left 0 (suc y) (suc x) unit d)

fixed_mul_nonneg :
    (x y : ℤ)
    → leb_ℤ (pos 0) x ≡ true
    → leb_ℤ (pos 0) y ≡ true
    → leb_ℤ (pos 0) (fixed_mul x y) ≡ true
fixed_mul_nonneg x y h k = ground arith

fixed_div_nonneg :
    (x d : ℤ)
    → leb_ℤ (pos 0) x ≡ true
    → ltb_ℤ (pos 0) d ≡ true
    → leb_ℤ (pos 0) (fixed_div x d) ≡ true
fixed_div_nonneg x d h k = ground arith

pub Fixed-IsMonotone : IsMonotone fixed
unfolding ◌+ℤ◌ ◌-ℤ◌
Fixed-IsMonotone = record {
  of_int_mono = λ a b h. ground arith;
  zero_of_int = refl;
  one_of_int = refl;
  add_mono = λ c x y h _ _. ground arith;
  add_nonneg = λ c x h _. ground arith;
  mul_mono = λ c x y hc h _ _. fixed_mul_mono c x y hc h;
  div_mono = λ d x y hd h _ _. fixed_div_mono d x y hd h;
  mul_nonneg = λ x y h k _. fixed_mul_nonneg x y h k;
  div_nonneg = λ x d h k _. fixed_div_nonneg x d h k;
}

fixed_div_le_one :
    (x d : ℤ)
    → leb_ℤ (pos 0) x ≡ true
    → leb_ℤ x d ≡ true
    → ltb_ℤ (pos 0) d ≡ true
    → leb_ℤ (fixed_div x d) (pos unit) ≡ true
fixed_div_le_one (negsuc x) d hx h hd = absurd (ground arith)
fixed_div_le_one (pos x) (negsuc d) hx h hd = absurd (ground arith)
fixed_div_le_one (pos x) (pos d) hx h hd = ground (arith, div_mono (x * unit) d unit 1)

mul_div_le : (r w : ℕ) → r ≤ unit → r * w / unit ≤ w
mul_div_le r w h = grind (arith, div_mono (r * w) unit w 1, mul-le-mul_right w h)

fixed_mul_le :
    (r w : ℤ)
    → leb_ℤ (pos 0) r ≡ true
    → leb_ℤ r (pos unit) ≡ true
    → leb_ℤ (pos 0) w ≡ true
    → leb_ℤ (fixed_mul r w) w ≡ true
fixed_mul_le (negsuc r) w hr h hw = absurd (ground arith)
fixed_mul_le (pos r) (negsuc w) hr h hw = absurd (ground arith)
fixed_mul_le (pos r) (pos w) hr h hw = ground (arith, mul_div_le r w)

sum_of_bounds :
    (k : ℕ) (xs : List ℤ)
    → All (λ x. (leb_ℤ (pos 0) x ≡ true) × (leb_ℤ x (pos (k * unit / 10 ^ 0)) ≡ true)) xs
    → (leb_ℤ (pos 0) (sum_of xs) ≡ true)
      × (leb_ℤ (sum_of xs) (pos (k * length xs * unit / 10 ^ 0)) ≡ true)
unfolding ◌+ℤ◌
sum_of_bounds k [] h = (refl, ground arith)
sum_of_bounds k (x ∷ xs) h =
    let (low, up) = sum_of_bounds k xs h.1 in
    let (x_low, x_up) = h.0 in (ground arith, ground (arith, mul-suc k (length xs)))

pub Fixed-IsScaling : IsScaling fixed
unfolding ◌+ℤ◌ ◌-ℤ◌
Fixed-IsScaling = record {
  le_of_lt = λ x y h. ground arith;
  eq-lt = λ x y h. ground arith;
  lit_lt = λ m n h _. ground arith;
  minus-le-zero = λ m k. ground arith;
  add_nonneg = λ x y h k. ground arith;
  add_zero = λ k x y h. ground arith;
  sub_zero = λ k x y h. ground arith;
  sub_bounds = λ lo hi x _ _ h k. (ground arith, ground arith);
  sub_pos = λ lo hi (l, _) (_, u) h. (ground arith, ground arith);
  div_bounds = λ x d h k p _. (fixed_div_nonneg x d h p, fixed_div_le_one x d h k p);
  mul_bounds = λ r w h k p _. (fixed_mul_nonneg r w h p, fixed_mul_le r w h k p);
  div_lit = λ x m h p _. fixed_div_nonneg x (fixed.lit m 0) h (ground arith);
  mul_lit = λ x m h _ _. fixed_mul_nonneg x (fixed.lit m 1) h (ground arith);
  round₁_upper = λ x n _ h. ground arith;
  round₁_lower = λ x h. ground arith;
  of_int_bounds = λ n h. (ground arith, ground arith);
  truncate_bounds = λ x n _ h k. (ground arith, ground arith);
  sub_below = λ x y _ h _. ground arith;
  add_above = λ x y _ h _. ground arith;
  sum_bounds = λ k xs h _. sum_of_bounds k xs h;
}
