-- ===== src/Buyer/Rsi.antt =====
-- `calculate_rsi` of prime_jennie/services/buyer/position_sizing.py, which the monitor and the backtest use.
use prime_jennie.Prelude.{ℕ, ◌+◌, ltb, length, map, Option, none, some, List, if◌then◌else◌}
use prime_jennie.Float.{Float, whole, fmax}
use prime_jennie.Scanner.Averages.{deltas, rsi_of, averaged}

module _ {F : Type 0} ⦃num : Float F⦄ where
  open num use {neg}

  abbrev pub gains : List F → List F
  gains ds = map (λ d. fmax (whole 0) d) ds

  abbrev pub losses : List F → List F
  losses ds = map (λ d. fmax (whole 0) (neg d)) ds

  -- for a positive period; the averages are smoothed as in the scanner
  unfoldable pub calculate_rsi : List F → ℕ → Option F
  unfolding deltas rsi_of
  calculate_rsi close_prices period =
      if ltb (length close_prices) (period + 1)
      then none
      else some (
          rsi_of (averaged period (gains (deltas close_prices)))
            (averaged period (losses (deltas close_prices))))
