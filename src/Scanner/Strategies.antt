-- ===== src/Scanner/Strategies.antt =====
-- The detectors of prime_jennie/services/scanner/strategies.py. The texts of the results are left out.
-- A detector whose division may fail gives `none` for the ZeroDivisionError.
use mathlib.Core.List.{reverse}
use prime_jennie.Prelude.{
  ◌/◌, Bool, true, false, not, ◌&&◌, ◌||◌, ltb, length, last_of, Option, none, some, List, [], ◌∷◌,
  if◌then◌else◌,
}
use prime_jennie.Prelude.Maybe.{◌>>=◌}
use prime_jennie.Prelude.Int.{ℤ, pos, negsuc, ◌-ℤ◌, ltb_ℤ}
use prime_jennie.Enums.{MarketRegime, SignalType, is_bull}
use prime_jennie.Float.{Float, whole, minus, fmax}
use prime_jennie.Bars.{Bar}
use prime_jennie.Scanner.Averages.{but_last, closes_of, compute_sma, compute_rsi}
use prime_jennie.Scanner.Types.{WatchlistEntry}

pub record StrategyResult : Type 0 where
  pub detected : Bool
  pub signal_type : Option SignalType

abbrev pub missed : StrategyResult
missed = record { detected = false; signal_type = none }

abbrev pub found : SignalType → StrategyResult
found t = record { detected = true; signal_type = some t }

-- `(now - then).days` of two times in microseconds, rounded down
abbrev pub days_of : ℤ → ℤ
days_of (pos n) = pos (n / 86_400_000_000)
days_of (negsuc n) = negsuc (n / 86_400_000_000)

module _ {F : Type 0} ⦃num : Float F⦄ where
  open num use {lit, sub, mul, div, lt, le, eq}

  -- a / b of two floats
  abbrev pub divide : F → F → Option F
  divide a b = if eq b (whole 0) then none else some (div a b)

  -- (a / b - 1) * 100, given the quotient
  abbrev pub percent_over : F → F
  percent_over quotient = mul (sub quotient (whole 1)) (whole 100)

  -- the crossing of the short average over the long one, now and before
  unfoldable pub crossing : F → Option F → Option F → Option F → Option F → StrategyResult
  crossing volume_ratio (some short) (some long) (some prev_short) (some prev_long) =
      if not (le prev_short prev_long && lt long short)
      then missed
      else if lt volume_ratio (lit 15 1)
      then missed
      else found SignalType.golden_cross
  crossing volume_ratio _ _ _ _ = missed

  -- with the default periods 5 and 20 and the volume ratio 1.5
  unfoldable pub detect_golden_cross : List (Bar F) → F → StrategyResult
  unfolding crossing compute_sma
  detect_golden_cross bars volume_ratio =
      let closes = closes_of bars in
      if ltb (length bars) 21
      then missed
      else crossing volume_ratio (compute_sma closes 5) (compute_sma closes 20)
          (compute_sma (but_last closes) 5) (compute_sma (but_last closes) 20)

  abbrev pub rebound_threshold : MarketRegime → F
  rebound_threshold MarketRegime.sideways = lit 400 1
  rebound_threshold MarketRegime.bear = lit 300 1
  rebound_threshold MarketRegime.strong_bear = lit 250 1
  rebound_threshold _ = lit 350 1

  abbrev pub threshold_or : Option F → MarketRegime → F
  threshold_or none regime = rebound_threshold regime
  threshold_or (some t) regime = t

  unfoldable pub rebound : F → Option F → Option F → StrategyResult
  rebound threshold (some curr_rsi) (some prev_rsi) =
      if lt prev_rsi threshold && le threshold curr_rsi
      then found SignalType.rsi_rebound
      else missed
  rebound threshold _ _ = missed

  unfoldable pub detect_rsi_rebound : List (Bar F) → MarketRegime → Option F → StrategyResult
  unfolding rebound compute_rsi
  detect_rsi_rebound bars regime rsi_threshold =
      let closes = closes_of bars in
      if is_bull regime
      then missed
      else if ltb (length bars) 16
      then missed
      else rebound (threshold_or rsi_threshold regime) (compute_rsi closes 14)
          (compute_rsi (but_last closes) 14)

  -- the gain of the last five bars between the two limits
  unfoldable pub momentum_within : F → F → F → StrategyResult
  momentum_within min_pct max_pct pct =
      if lt pct min_pct
      then missed
      else if lt max_pct pct
      then missed
      else found SignalType.momentum

  -- the bars, the last one first
  unfoldable pub momentum_of : F → F → List (Bar F) → Option StrategyResult
  unfolding momentum_within
  momentum_of min_pct max_pct (b ∷ _ ∷ _ ∷ _ ∷ b' ∷ _) = do
    quotient ← divide b.close b'.start
    some (momentum_within min_pct max_pct (percent_over quotient))
  momentum_of min_pct max_pct _ = some missed

  unfoldable pub detect_momentum : List (Bar F) → F → F → Option StrategyResult
  unfolding momentum_of
  detect_momentum bars min_momentum_pct max_gain_pct =
      if ltb (length bars) 5
      then some missed
      else momentum_of min_momentum_pct max_gain_pct (reverse bars)

  -- the change over the last five closes, the last one first
  unfoldable pub price_change : List F → F
  price_change (c ∷ _ ∷ _ ∷ _ ∷ c' ∷ _) =
      if lt (whole 0) c' then percent_over (div c c') else whole 0
  price_change _ = whole 0

  -- the averages of 5 and 20 closes, the change, and the score
  unfoldable pub continuation : F → F → F → Option F → Option F → StrategyResult
  continuation llm_score max_gain_pct change (some ma5) (some ma20) =
      if le ma5 ma20
      then missed
      else if lt change (lit 20 1) || lt max_gain_pct change
      then missed
      else if lt llm_score (whole 65)
      then missed
      else found SignalType.momentum_continuation
  continuation llm_score max_gain_pct change _ _ = missed

  unfoldable pub detect_momentum_continuation : List (Bar F) → MarketRegime → F → F → StrategyResult
  unfolding continuation price_change compute_sma
  detect_momentum_continuation bars regime llm_score max_gain_pct =
      let closes = closes_of bars in
      if not (is_bull regime)
      then missed
      else if ltb (length bars) 21
      then missed
      else continuation llm_score max_gain_pct (price_change (reverse closes))
          (compute_sma closes 5) (compute_sma closes 20)

  -- `max` over the highs, which keeps the first of the largest
  unfoldable pub highest : F → List (Bar F) → F
  highest m [] = m
  highest m (b ∷ bs) = highest (fmax m b.high) bs

  -- the range of a correction in the regime, from the deeper end
  abbrev pub max_dip : MarketRegime → F
  max_dip regime = if is_bull regime then minus 30 1 else minus 50 1

  abbrev pub min_dip : MarketRegime → F
  min_dip regime = if is_bull regime then minus 5 1 else minus 20 1

  unfoldable pub dip_within : MarketRegime → F → StrategyResult
  dip_within regime dip_pct =
      if le (max_dip regime) dip_pct && le dip_pct (min_dip regime)
      then found SignalType.dip_buy
      else missed

  unfoldable pub dip_of : MarketRegime → List (Bar F) → F → Option StrategyResult
  unfolding dip_within highest
  dip_of regime [] current = some missed
  dip_of regime (b ∷ bs) current = do
    quotient ← divide current (highest b.high bs)
    some (dip_within regime (percent_over quotient))

  -- the close of the last bar, the bars in reverse
  abbrev pub last_close : List (Bar F) → F
  last_close [] = whole 0
  last_close (b ∷ _) = b.close

  unfoldable pub dip_since : Option ℤ → ℤ → List (Bar F) → MarketRegime → Option StrategyResult
  unfolding dip_of
  dip_since none now bars regime = some missed
  dip_since (some scored_at) now bars regime =
      let days = days_of (now -ℤ scored_at) in
      if ltb_ℤ days (pos 1) || ltb_ℤ (pos 5) days
      then some missed
      else dip_of regime (last_of 5 bars) (last_close (reverse bars))

  -- with the default of five days
  unfoldable pub detect_dip_buy :
      List (Bar F) → WatchlistEntry F → MarketRegime → ℤ → Option StrategyResult
  unfolding dip_since
  detect_dip_buy bars entry regime now =
      if ltb (length bars) 5 then some missed else dip_since entry.scored_at now bars regime

  -- the first 19 of the last 20 bars, and the close after them
  unfoldable pub breakout_over : List (Bar F) → F → StrategyResult
  unfolding highest
  breakout_over [] current = missed
  breakout_over (b ∷ bs) current =
      if le current (highest b.high bs) then missed else found SignalType.volume_breakout

  unfoldable pub detect_volume_breakout : List (Bar F) → F → F → StrategyResult
  unfolding breakout_over
  detect_volume_breakout bars volume_ratio min_volume_ratio =
      if ltb (length bars) 20
      then missed
      else if lt volume_ratio min_volume_ratio
      then missed
      else breakout_over (but_last (last_of 20 bars)) (last_close (reverse bars))
