-- ===== src/Scanner/Detect.antt =====
-- `detect_strategies` of prime_jennie/services/scanner/strategies.py: the detectors in their order, the
-- first that detects decides.
use prime_jennie.Prelude.{ℕ, ◌||◌, Option, none, some, List, if◌then◌else◌}
use prime_jennie.Prelude.Maybe.{◌>>=◌}
use prime_jennie.Prelude.Int.{ℤ}
use prime_jennie.Enums.{MarketRegime, is_bull}
use prime_jennie.Float.{Float}
use prime_jennie.Bars.{Bar}
use prime_jennie.Scanner.Types.{ScannerConfig, WatchlistEntry}
use prime_jennie.Scanner.Strategies.{
  StrategyResult, detect_golden_cross, detect_momentum, detect_momentum_continuation,
  detect_dip_buy, detect_volume_breakout,
}
use prime_jennie.Scanner.Openings.{is_sideways, detect_conviction_entry}

-- `none` is an exception, `some none` is no strategy
abbrev pub Detection : Type 0
Detection = Option (Option StrategyResult)

-- `if r.detected: return r`, else what follows
unfoldable pub unless : StrategyResult → Detection → Detection
unless r rest = if r.detected then some (some r) else rest

module _ {F : Type 0} ⦃num : Float F⦄ (bars : List (Bar F)) (regime : MarketRegime)
    (entry : WatchlistEntry F) (current_price : F) (rsi : Option F) (volume_ratio vwap : F)
    (config : ScannerConfig F) (now : ℤ) (current : ℕ) where
  open num use {lit}

  unfoldable pub from_volume : Detection
  unfolding unless detect_volume_breakout
  from_volume = unless (detect_volume_breakout bars volume_ratio (lit 30 1)) (some none)

  unfoldable pub from_momentum : Detection
  unfolding unless detect_momentum detect_dip_buy from_volume
  from_momentum = do
    mom ← detect_momentum bars (lit 15 1) config.momentum_max_gain_pct
    unless mom (do dip ← detect_dip_buy bars entry regime now; unless dip from_volume)

  unfoldable pub from_continuation : Detection
  unfolding unless detect_momentum_continuation from_momentum
  from_continuation =
      if is_bull regime
      then unless (detect_momentum_continuation bars regime entry.llm_score (lit 50 1))
          from_momentum
      else from_momentum

  unfoldable pub from_golden_cross : Detection
  unfolding unless detect_golden_cross from_continuation
  from_golden_cross =
      if is_bull regime || is_sideways regime
      then unless (detect_golden_cross bars volume_ratio) from_continuation
      else from_continuation

  unfoldable pub detect_strategies : Detection
  unfolding unless detect_conviction_entry from_golden_cross
  detect_strategies = do
    conv ← detect_conviction_entry bars entry current_price vwap rsi regime config now current
    unless conv from_golden_cross
