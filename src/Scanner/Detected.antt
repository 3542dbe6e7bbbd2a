-- ===== src/Scanner/Detected.antt =====
-- What a strategy that prime_jennie/services/scanner/strategies.py detects says of the bars and the stock.
use mathlib.Core.Path.{subst}
use prime_jennie.Prelude.{
  ℕ, ◌≡◌, refl, Bool, true, false, ◌||◌, Option, none, some, List, arith, if◌then◌else◌,
}
use prime_jennie.Prelude.Maybe.{◌>>=◌}
use prime_jennie.Prelude.Int.{ℤ}
use prime_jennie.Enums.{MarketRegime, is_bull}
use prime_jennie.Float.{Float}
use prime_jennie.Bars.{Bar}
use prime_jennie.Scanner.Types.{ScannerConfig, WatchlistEntry}
use prime_jennie.Scanner.Strategies.{StrategyResult, detect_momentum, detect_dip_buy}
use prime_jennie.Scanner.Openings.{is_sideways, detect_conviction_entry}
use prime_jennie.Scanner.Grounds.{
  Backed, HasGrounds, golden_cross-HasGrounds, momentum_continuation-HasGrounds, momentum-Backed,
  dip_buy-Backed, volume_breakout-HasGrounds, conviction-Backed,
}
use prime_jennie.Scanner.Detect.{
  Detection, unless, from_volume, from_momentum, from_continuation, from_golden_cross,
  detect_strategies,
}

abbrev pub Bears : (StrategyResult → Type 0) → Detection → Type 0
Bears P none = Unit
Bears P (some none) = Unit
Bears P (some (some r)) = P r

unless-Bears :
    (P : StrategyResult → Type 0) (r : StrategyResult) (rest : Detection)
    → (r.detected ≡ true → P r)
    → Bears P rest
    → Bears P (unless r rest)
unfolding unless
unless-Bears P r rest h k = ground (arith, h, k)

if-Bears :
    (P : StrategyResult → Type 0) (b : Bool) (x y : Detection)
    → (b ≡ true → Bears P x)
    → Bears P y
    → Bears P (if b then x else y)
if-Bears P true x y h k = h refl
if-Bears P false x y h k = k

bind-Bears :
    (P : StrategyResult → Type 0) (m : Option StrategyResult) (rest : Detection)
    → Backed P m
    → Bears P rest
    → Bears P (m >>= λ r. unless r rest)
bind-Bears P none rest h k = tt
bind-Bears P (some r) rest h k = unless-Bears P r rest h k

module _ {F : Type 0} ⦃num : Float F⦄ (bars : List (Bar F)) (regime : MarketRegime)
    (entry : WatchlistEntry F) (current_price : F) (rsi : Option F) (volume_ratio vwap : F)
    (config : ScannerConfig F) (now : ℤ) (current : ℕ) where
  open num use {lit}

  abbrev IsBorne : StrategyResult → Type 0
  IsBorne = HasGrounds bars regime entry current_price rsi volume_ratio vwap config now current

  from_volume-Bears :
      Bears IsBorne
        (from_volume bars regime entry current_price rsi volume_ratio vwap config now current)
  unfolding from_volume
  from_volume-Bears =
      unless-Bears IsBorne _ (some none)
        (volume_breakout-HasGrounds bars regime entry current_price rsi volume_ratio vwap config now
          current)
        tt

  from_momentum-Bears :
      Bears IsBorne
        (from_momentum bars regime entry current_price rsi volume_ratio vwap config now current)
  unfolding from_momentum
  from_momentum-Bears =
      bind-Bears IsBorne (detect_momentum bars (lit 15 1) config.momentum_max_gain_pct) _
        (momentum-Backed bars regime entry current_price rsi volume_ratio vwap config now current)
        (bind-Bears IsBorne (detect_dip_buy bars entry regime now) _
          (dip_buy-Backed bars regime entry current_price rsi volume_ratio vwap config now current)
          from_volume-Bears)

  from_continuation-Bears :
      Bears IsBorne
        (from_continuation bars regime entry current_price rsi volume_ratio vwap config now current)
  unfolding from_continuation
  from_continuation-Bears =
      if-Bears IsBorne (is_bull regime) _ _
        (λ _.
          unless-Bears IsBorne _ _
            (momentum_continuation-HasGrounds bars regime entry current_price rsi volume_ratio vwap
              config now current)
            from_momentum-Bears)
        from_momentum-Bears

  from_golden_cross-Bears :
      Bears IsBorne
        (from_golden_cross bars regime entry current_price rsi volume_ratio vwap config now current)
  unfolding from_golden_cross
  from_golden_cross-Bears =
      if-Bears IsBorne (is_bull regime || is_sideways regime) _ _
        (λ e.
          unless-Bears IsBorne _ _
            (golden_cross-HasGrounds bars regime entry current_price rsi volume_ratio vwap config
              now current e)
            from_continuation-Bears)
        from_continuation-Bears

  -- The strategy that is detected is borne out. A golden cross: no bear market, at least 21 bars, a
  -- volume ratio not below 1.5, and the average of 5 closes is above that of 20 and was not above it
  -- one bar earlier. A momentum: at least 5 bars, and a gain over the last five not below 1.5% and
  -- not above the limit of the settings. Its continuation: a bull market, at least 21 bars, an LLM
  -- score not below 65, the average of 5 closes not at most that of 20, and a change not below 2%
  -- and not above 5%. A dip: at least 5 bars, 1 to 5 days after the stock was scored, the last close
  -- off the highest of the last 5 bars by 2% to 5%, or 0.5% to 3% in a bull market. A breakout: at
  -- least 20 bars, a volume ratio not below 3, and a last close not at most the highest of the 19
  -- bars before it. A conviction: the settings allow it, the stock is not blocked, the market is not
  -- a bear one, nor a sideways one with a hybrid score below 75, the score is not old, one of the two
  -- scores is high enough, the time is in the window, the price has not run and is not off the VWAP,
  -- and the RSI is below 65 if it is known. An RSI rebound and an opening range are never detected
  -- here.
  pub detect_strategies-Grounds :
      (r : StrategyResult)
      → detect_strategies bars regime entry current_price rsi volume_ratio vwap config now current
        ≡ some (some r)
      → HasGrounds bars regime entry current_price rsi volume_ratio vwap config now current r
  unfolding detect_strategies
  detect_strategies-Grounds r e = subst (Bears IsBorne) e (
      bind-Bears IsBorne
        (detect_conviction_entry bars entry current_price vwap rsi regime config now current)
        (from_golden_cross bars regime entry current_price rsi volume_ratio vwap config now current)
        (conviction-Backed bars regime entry current_price rsi volume_ratio vwap config now current)
        from_golden_cross-Bears)
