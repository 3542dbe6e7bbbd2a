-- ===== src/Scanner/Tick.antt =====
-- `BuyScanner.process_tick` of prime_jennie/services/scanner/app.py. One reading of the clock serves the
-- detectors of a tick.
use prime_jennie.Prelude.{ℕ, Bool, not, Option, none, some, List, String, if◌then◌else◌}
use prime_jennie.Prelude.Int.{ℤ}
use prime_jennie.Float.{Float}
use prime_jennie.Bars.{Bar, update, get_recent_bars, get_vwap, get_volume_info}
use prime_jennie.Scanner.Types.{ScannerConfig, WatchlistEntry}
use prime_jennie.Scanner.Gates.{
  GateResult, check_cooldown, check_stoploss_cooldown, check_sell_cooldown, check_trade_tier,
  run_all_gates,
}
use prime_jennie.Scanner.Averages.{compute_rsi_from_bars}
use prime_jennie.Scanner.Strategies.{StrategyResult}
use prime_jennie.Scanner.Openings.{detect_conviction_entry, detect_orb_breakout}
use prime_jennie.Scanner.Detect.{detect_strategies}
use prime_jennie.Scanner.Watch.{get_stock}
use prime_jennie.Scanner.Loop.{
  Pending, Scanner, Emitted, Readings, confirm_pending, update_opening_range, emit_detection,
  publish_type,
}

module _ {F : Type 0} ⦃num : Float F⦄ (config : ScannerConfig F) (readings : Readings F)
    (stock_code : String) (entry : WatchlistEntry F) (price : F) (s : Scanner F) where
  abbrev pub bars_of : List (Bar F)
  bars_of = get_recent_bars 30 stock_code s.bar_engine

  abbrev pub vwap_of : F
  vwap_of = get_vwap stock_code s.bar_engine

  abbrev pub ratio_of : F
  ratio_of = (get_volume_info stock_code s.bar_engine).2

  abbrev pub rsi_now : Option F
  rsi_now = compute_rsi_from_bars bars_of 14

  abbrev pub is_cool : Bool
  is_cool =
      (check_cooldown stock_code s.last_signal_times readings.clock.seconds
        config.signal_cooldown_seconds).passed

  unfoldable pub after_gates : Option GateResult → Scanner F × Emitted F
  unfolding emit_detection
  after_gates none = (s, Emitted.failed)
  after_gates (some r) =
      if not r.passed
      then (s, Emitted.quiet)
      else emit_detection config readings stock_code entry price s (
          detect_strategies bars_of s.context.market_regime entry price rsi_now ratio_of vwap_of
            config readings.utc readings.seoul)

  unfoldable pub gated : Scanner F × Emitted F
  unfolding after_gates
  gated = after_gates (
      run_all_gates stock_code bars_of price rsi_now ratio_of vwap_of entry.trade_tier s.context
        config s.last_signal_times readings.redis readings.clock)

  -- An opening range passes four of the gates.
  unfoldable pub after_orb : Option StrategyResult → Scanner F × Emitted F
  unfolding publish_type gated
  after_orb none = (s, Emitted.failed)
  after_orb (some orb) =
      if not orb.detected
      then gated
      else if not is_cool
      then (s, Emitted.quiet)
      else if not (check_stoploss_cooldown stock_code readings.redis).passed
      then (s, Emitted.quiet)
      else if not (check_sell_cooldown stock_code readings.redis).passed
      then (s, Emitted.quiet)
      else if not (check_trade_tier entry.trade_tier).passed
      then (s, Emitted.quiet)
      else publish_type config readings stock_code entry price s orb.signal_type

  -- A conviction passes the cooldown alone.
  unfoldable pub after_conviction : Option StrategyResult → Scanner F × Emitted F
  unfolding publish_type after_orb
  after_conviction none = (s, Emitted.failed)
  after_conviction (some conv) =
      if not conv.detected
      then (if config.orb_enabled
          then after_orb (
              detect_orb_breakout bars_of (s.opening_ranges stock_code) ratio_of config
                readings.seoul)
          else gated)
      else if not is_cool
      then (s, Emitted.quiet)
      else publish_type config readings stock_code entry price s conv.signal_type

  unfoldable pub detect : Scanner F × Emitted F
  unfolding after_conviction
  detect = after_conviction (
      detect_conviction_entry bars_of entry price vwap_of rsi_now s.context.market_regime config
        readings.utc readings.seoul)

module _ {F : Type 0} ⦃num : Float F⦄ (config : ScannerConfig F) (interval : ℤ) (max_history : ℕ)
    (readings : Readings F) (stock_code : String) (price : F) where
  unfoldable pub ranged : WatchlistEntry F → Scanner F → Option (Scanner F) → Scanner F × Emitted F
  unfolding detect
  ranged entry s none = (s, Emitted.failed)
  ranged entry s (some s') = detect config readings stock_code entry price s'

  -- A completed bar confirms what is pending, or else is looked at.
  unfoldable pub on_bar :
      WatchlistEntry F → Scanner F → Option (Bar F) → Option (Pending F) → Scanner F × Emitted F
  unfolding confirm_pending ranged
  on_bar entry s none pending = (s, Emitted.quiet)
  on_bar entry s (some bar) (some p) = confirm_pending config readings stock_code s price p
  on_bar entry s (some bar) none =
      ranged entry s (update_opening_range config readings stock_code s bar)

  unfoldable pub on_entry : ℤ → Scanner F → Option (WatchlistEntry F) → Scanner F × Emitted F
  unfolding on_bar
  on_entry volume s none = (s, Emitted.quiet)
  on_entry volume s (some entry) =
      let (engine, completed) =
        update interval max_history readings.engine_time readings.today stock_code price volume
          s.bar_engine in
      on_bar entry (record s { bar_engine = engine }) completed (s.pending_momentum stock_code)

  abbrev pub found_in : Option (List (WatchlistEntry F)) → Option (WatchlistEntry F)
  found_in none = none
  found_in (some stocks) = get_stock stock_code stocks

  unfoldable pub process_tick : ℤ → Scanner F → Scanner F × Emitted F
  unfolding on_entry get_stock
  process_tick volume s = on_entry volume s (found_in s.watchlist)
