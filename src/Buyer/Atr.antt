-- ===== src/Buyer/Atr.antt =====
-- `calculate_atr` and `clamp_atr` of prime_jennie/services/buyer/position_sizing.py.
use prime_jennie.Prelude.{◌||◌, List, [], ◌∷◌, length, last_of, if◌then◌else◌}
use prime_jennie.Prelude.Int.{ℤ, pos, ◌+ℤ◌, ◌-ℤ◌, max_ℤ, ltb_ℤ}
use prime_jennie.Float.{Float, whole, fmin, fmax}
use prime_jennie.Services.Calls.{DailyPrice}

-- `abs(x)`
abbrev pub abs_ℤ : ℤ → ℤ
abs_ℤ x = if ltb_ℤ x (pos 0) then pos 0 -ℤ x else x

-- `max` of three arguments keeps the first of the largest
unfoldable pub true_range : ℤ → DailyPrice → ℤ
true_range prev_close p =
    max_ℤ (max_ℤ (p.high_price -ℤ p.low_price) (abs_ℤ (p.high_price -ℤ prev_close)))
      (abs_ℤ (p.low_price -ℤ prev_close))

unfoldable pub true_ranges : List DailyPrice → List ℤ
true_ranges [] = []
true_ranges (p ∷ ps) = ranges_after p ps
  where
    ranges_after : DailyPrice → List DailyPrice → List ℤ
    ranges_after prev [] = []
    ranges_after prev (p ∷ ps) = true_range prev.close_price p ∷ ranges_after p ps

unfoldable pub sum_ℤ : List ℤ → ℤ
sum_ℤ [] = pos 0
sum_ℤ (x ∷ xs) = x +ℤ sum_ℤ xs

module _ {F : Type 0} ⦃num : Float F⦄ where
  open num use {lit, of_int, mul, div, le}

  -- `sum(recent) / len(recent)` if there is a range at all
  unfoldable pub average : List ℤ → F
  average [] = whole 0
  average (x ∷ xs) = div (of_int (sum_ℤ (x ∷ xs))) (of_int (pos (length (x ∷ xs))))

  -- with the default period of 14; fewer than two prices have no range
  unfoldable pub calculate_atr : List DailyPrice → F
  calculate_atr prices = average (last_of 14 (true_ranges prices))

  unfoldable pub clamp_atr : F → F → F
  clamp_atr atr stock_price =
      if le atr (whole 0) || le stock_price (whole 0)
      then mul stock_price (lit 2 2)
      else fmax (mul stock_price (lit 1 2)) (fmin atr (mul stock_price (lit 5 2)))
