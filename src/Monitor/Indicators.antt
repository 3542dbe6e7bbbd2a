-- ===== src/Monitor/Indicators.antt =====
-- prime_jennie/services/monitor/indicators.py, with positive periods. `calculate_rsi` of that file is the one
-- of the buyer; the bands of Bollinger are not used.
use mathlib.Core.List.{reverse}
use prime_jennie.Prelude.{
  ℕ, zero, suc, ◌+◌, ◌-◌, Bool, false, ◌&&◌, ltb, length, take, drop, last_of, Option, none, some,
  List, [], ◌∷◌, ◌++◌, if◌then◌else◌,
}
use prime_jennie.Float.{Float, whole, of_nat, fmax}

unfoldable pub nones : {A : Type 0} → ℕ → List (Option A)
nones zero = []
nones (suc n) = none ∷ nones n

module _ {F : Type 0} ⦃num : Float F⦄ where
  open num use {lit, sum, add, sub, mul, div, lt, le, eq}

  -- The loop over the prices from the index `period` on, with the prices that leave the window.
  unfoldable pub roll : ℕ → F → List F → List F → List (Option F)
  roll period window_sum [] old = []
  roll period window_sum (p ∷ ps) [] = []
  roll period window_sum (p ∷ ps) (q ∷ qs) =
      let next = add window_sum (sub p q) in
      some (div next (of_nat period)) ∷ roll period next ps qs

  unfoldable pub calculate_sma : List F → ℕ → List (Option F)
  unfolding nones roll
  calculate_sma prices period =
      let window_sum = sum (take period prices) in
      if ltb (length prices) period
      then nones (length prices)
      else nones (period - 1)
        ++ (some (div window_sum (of_nat period))
            ∷ roll period window_sum (drop period prices) prices)

  unfoldable pub ema_from : F → F → List F → List F
  ema_from k prev [] = []
  ema_from k prev (p ∷ ps) =
      let next = add (mul p k) (mul prev (sub (whole 1) k)) in next ∷ ema_from k next ps

  unfoldable pub calculate_ema : List F → ℕ → List F
  unfolding ema_from
  calculate_ema [] span = []
  calculate_ema (p ∷ ps) span = p ∷ ema_from (div (lit 20 1) (of_nat (span + 1))) p ps

  -- the last average and the one before, of the short and of the long period
  unfoldable pub crossed_down : List (Option F) → List (Option F) → Bool
  crossed_down (some curr_s ∷ some prev_s ∷ _) (some curr_l ∷ some prev_l ∷ _) =
      lt curr_s (mul curr_l (sub (whole 1) (lit 2 3))) && le prev_l prev_s
  crossed_down _ _ = false

  -- with the default periods of 5 and 20 and the gap of 0.002
  unfoldable pub check_death_cross : List F → Bool
  unfolding crossed_down calculate_sma
  check_death_cross close_prices =
      if ltb (length close_prices) 21
      then false
      else crossed_down (reverse (calculate_sma close_prices 5))
          (reverse (calculate_sma close_prices 20))

  -- the differences of two lists of one length
  unfoldable pub differences : List F → List F → List F
  differences (x ∷ xs) (y ∷ ys) = sub x y ∷ differences xs ys
  differences _ _ = []

  -- with the default spans of 12, 26 and 9
  unfoldable pub calculate_macd : List F → List F × List F
  unfolding differences calculate_ema
  calculate_macd close_prices =
      let macd_line = differences (calculate_ema close_prices 12) (calculate_ema close_prices 26) in
      (macd_line, calculate_ema macd_line 9)

  unfoldable pub largest : F → List F → F
  largest m [] = m
  largest m (x ∷ xs) = largest (fmax m x) xs

  -- the entry of the second list at the first place where the first holds a value
  unfoldable pub at_value : F → List F → List F → Option F
  at_value m (x ∷ xs) (y ∷ ys) = let rest = at_value m xs ys in if eq x m then some y else rest
  at_value m _ _ = none

  abbrev pub is_below : F → Option F → Bool
  is_below x none = false
  is_below x (some y) = lt x y

  -- the last price is near the maximum `top`, and the histogram is lower than it was there
  unfoldable pub diverges : F → List F → List F → List F → List F → Bool
  unfolding at_value
  diverges top prices hist (p ∷ _) (h ∷ _) =
      le (mul top (lit 98 2)) p && is_below h (at_value top prices hist)
  diverges top prices hist _ _ = false

  abbrev pub top_of : List F → F
  top_of [] = whole 0
  top_of (x ∷ xs) = largest x xs

  -- with the default of 10 days
  unfoldable pub check_macd_bearish_divergence : List F → Bool
  unfolding calculate_macd differences diverges largest
  check_macd_bearish_divergence close_prices =
      let lines = calculate_macd close_prices in
      let prices = last_of 10 close_prices in
      let hist = last_of 10 (differences lines.0 lines.1) in
      if ltb (length close_prices) 36
      then false
      else diverges (top_of prices) prices hist (reverse prices) (reverse hist)
