-- ===== src/Scanner/Openings.antt =====
-- The two detectors of the morning in prime_jennie/services/scanner/strategies.py, which read the times
-- of the settings, and the opening range that prime_jennie/services/scanner/app.py keeps of a stock. `none` is
-- an exception. The clock gives the time in microseconds and the time of the day in Seoul.
use text.Mathlib.Text.{◌==◌}
use mathlib.Core.List.{reverse}
use prime_jennie.Prelude.{
  ℕ, suc, Bool, true, false, not, ◌&&◌, ◌||◌, ltb, leb, Option, none, some, List, [], ◌∷◌, String,
  if◌then◌else◌,
}
use prime_jennie.Prelude.Maybe.{◌>>=◌}
use prime_jennie.Prelude.Int.{ℤ, pos, ◌-ℤ◌, ltb_ℤ}
use prime_jennie.Enums.{MarketRegime, SignalType}
use prime_jennie.Float.{Float, whole, fmin, fmax}
use prime_jennie.Bars.{Bar}
use prime_jennie.Scanner.Times.{parse_time}
use prime_jennie.Scanner.Types.{ScannerConfig, WatchlistEntry}
use prime_jennie.Scanner.Gates.{fabs, is_bear, is_blocked}
use prime_jennie.Scanner.Strategies.{StrategyResult, missed, found, days_of, divide, percent_over}

abbrev pub is_sideways : MarketRegime → Bool
is_sideways MarketRegime.sideways = true
is_sideways _ = false

-- more than two days old; an entry without a time is not
abbrev pub is_old : Option ℤ → ℤ → Bool
is_old none now = false
is_old (some scored_at) now = ltb_ℤ (pos 2) (days_of (now -ℤ scored_at))

-- high, low, number of bars and the day of an opening range
pub record OpeningRange (F : Type 0) : Type 0 where
  pub high : F
  pub low : F
  pub bar_count : ℕ
  pub date : String

module _ {F : Type 0} ⦃num : Float F⦄ where
  open num use {lit, sub, mul, div, lt, le}

  -- the checks 1 to 3: the regime, the age of the entry and the scores
  unfoldable pub is_convinced : WatchlistEntry F → MarketRegime → ScannerConfig F → ℤ → Bool
  is_convinced entry regime config now =
      not (is_bear regime)
      && not (is_sideways regime && lt entry.hybrid_score (whole 75))
      && not (is_old entry.scored_at now)
      && (le config.conviction_min_hybrid_score entry.hybrid_score
          || le config.conviction_min_llm_score entry.llm_score)

  -- the gain since the open of the first bar is too large
  unfoldable pub has_run : List (Bar F) → F → ScannerConfig F → Bool
  has_run (b ∷ _ ∷ _) price config =
      lt (whole 0) b.start && le config.conviction_max_gain_pct (percent_over (div price b.start))
  has_run _ price config = false

  unfoldable pub is_off_vwap : F → F → Bool
  is_off_vwap price vwap =
      lt (whole 0) vwap && lt (lit 15 1) (mul (fabs (sub (div price vwap) (whole 1))) (whole 100))

  abbrev pub is_heated : Option F → Bool
  is_heated none = false
  is_heated (some rsi) = le (whole 65) rsi

  -- the checks 4 to 7, which come after the times of the window are read
  unfoldable pub conviction_at :
      List (Bar F) → F → F → Option F → ScannerConfig F → ℕ → ℕ → ℕ → StrategyResult
  unfolding has_run is_off_vwap
  conviction_at bars price vwap rsi config current start end =
      if not (leb start current && leb current end)
      then missed
      else if has_run bars price config
      then missed
      else if is_off_vwap price vwap
      then missed
      else if is_heated rsi
      then missed
      else found SignalType.watchlist_conviction

  unfoldable pub detect_conviction_entry :
      List (Bar F)
      → WatchlistEntry F
      → F
      → F
      → Option F
      → MarketRegime
      → ScannerConfig F
      → ℤ
      → ℕ
      → Option StrategyResult
  unfolding is_convinced conviction_at parse_time
  detect_conviction_entry bars entry price vwap rsi regime config now current =
      let in_window = (do
        start ← parse_time config.conviction_window_start
        end ← parse_time config.conviction_window_end
        some (conviction_at bars price vwap rsi config current start end)) in
      if not config.conviction_entry_enabled || is_blocked entry.trade_tier
      then some missed
      else if is_convinced entry regime config now
      then in_window
      else some missed

  -- the width of the range, in per cent
  abbrev pub range_pct : OpeningRange F → F
  range_pct range = percent_over (div range.high range.low)

  -- the breakout over the range; the text of a signal divides by the high
  unfoldable pub orb_over :
      List (Bar F) → OpeningRange F → F → ScannerConfig F → Option StrategyResult
  orb_over [] range volume_ratio config = some missed
  orb_over (b ∷ _) range volume_ratio config =
      let signal = (do _ ← divide b.close range.high; some (found SignalType.orb_breakout)) in
      if le b.close range.high
      then some missed
      else if lt volume_ratio config.orb_min_volume_ratio
      then some missed
      else signal

  unfoldable pub orb_in :
      List (Bar F) → OpeningRange F → F → ScannerConfig F → Option StrategyResult
  unfolding orb_over
  orb_in bars range volume_ratio config =
      if le range.low (whole 0)
      then some missed
      else if lt (range_pct range) config.orb_min_range_pct
      then some missed
      else if lt config.orb_max_range_pct (range_pct range)
      then some missed
      else orb_over (reverse bars) range volume_ratio config

  unfoldable pub orb_of :
      List (Bar F) → Option (OpeningRange F) → F → ScannerConfig F → ℕ → Option StrategyResult
  unfolding orb_in parse_time
  orb_of bars none volume_ratio config current = some missed
  orb_of bars (some range) volume_ratio config current =
      let timely = (do
        window_end ← parse_time config.orb_window_end
        if ltb window_end current then some missed else orb_in bars range volume_ratio config) in
      if ltb range.bar_count 3 then some missed else timely

  unfoldable pub detect_orb_breakout :
      List (Bar F) → Option (OpeningRange F) → F → ScannerConfig F → ℕ → Option StrategyResult
  unfolding orb_of
  detect_orb_breakout bars opening_range volume_ratio config current =
      if not config.orb_enabled
      then some missed
      else orb_of bars opening_range volume_ratio config current

  -- The range of a stock after a bar of a day.
  unfoldable pub widened : Option (OpeningRange F) → Bar F → String → OpeningRange F
  widened none bar today = record { high = bar.high; low = bar.low; bar_count = 1; date = today }
  widened (some r) bar today =
      if r.date == today
      then record {
        high = fmax r.high bar.high;
        low = fmin r.low bar.low;
        bar_count = suc r.bar_count;
        date = r.date;
      }
      else record { high = bar.high; low = bar.low; bar_count = 1; date = today }
