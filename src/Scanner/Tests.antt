-- ===== src/Scanner/Tests.antt =====
-- Gates, strategies and ticks of prime_jennie/services/scanner on a few bars.
use prime_jennie.Prelude.{
  ℕ, ◌+◌, ◌-◌, ◌*◌, ◌≡◌, refl, any, Bool, true, false, Option, none, some, List, [], ◌∷◌, String,
}
use prime_jennie.Prelude.Int.{pos, ◌-ℤ◌, ◌*ℤ◌}
use prime_jennie.Enums.{MarketRegime, TradeTier, RiskTag, SignalType}
use prime_jennie.Float.{whole}
use prime_jennie.Float.Fixed.{Fixed, fixed}
use prime_jennie.Bars.{Bar, update, update_stock, update_bar, bar_ts}
use prime_jennie.Scanner.Times.{parse_time, time_from, time_of, read_int, minute}
use prime_jennie.Scanner.Types.{
  ScannerConfig, TradingContext, WatchlistEntry, scanner_defaults, context_default,
}
use prime_jennie.Scanner.Gates.{Clock, check_strategy_alignment, run_all_gates}
use prime_jennie.Scanner.Passed.{first_unmet, requirements, run_all_gates_lem, run_all_gates_regime}
use prime_jennie.Scanner.Strategies.{found}
use prime_jennie.Scanner.Detect.{detect_strategies}
use prime_jennie.Scanner.Detected.{detect_strategies-Grounds}
use prime_jennie.Scanner.Grounds.{HasGrounds}
use prime_jennie.Scanner.Loop.{Scanner, Emitted, Readings}
use prime_jennie.Scanner.Tick.{process_tick}
use prime_jennie.Scanner.Emits.{IsSound, IsFit}
use prime_jennie.Scanner.Sound.{process_tick-IsSound}

abbrev bar_at : ℕ → Bar Fixed
bar_at n = record {
  timestamp = pos 0;
  start = whole n;
  high = whole (n + 1);
  low = whole (n - 1);
  close = whole (n + 1);
  volume = pos 10;
}

abbrev rising : List (Bar Fixed)
rising = bar_at 100 ∷ bar_at 100 ∷ bar_at 101 ∷ bar_at 101 ∷ bar_at 102 ∷ []

abbrev config : ScannerConfig Fixed
config = scanner_defaults

abbrev context : TradingContext Fixed
context = context_default

abbrev entry : WatchlistEntry Fixed
entry = record {
  stock_code = "005930";
  stock_name = "Samsung";
  llm_score = whole 70;
  hybrid_score = whole 70;
  rank = pos 1;
  is_tradable = true;
  trade_tier = TradeTier.tier1;
  risk_tag = RiskTag.neutral;
  sector_group = none;
  scored_at = none;
}

abbrev clock : Clock Fixed
clock = record { window_time = 600 * minute; danger_time = 600 * minute; seconds = whole 1000 }

abbrev never : String → Option Fixed
never code = none

abbrev readings : Readings Fixed
readings = record {
  engine_time = whole 60;
  today = "2026-01-05";
  utc = pos 0;
  seoul = 600 * minute;
  clock = clock;
  sent_at = whole 1000;
  local_time = λ t. 600 * minute;
  local_date = λ t. "2026-01-05";
  redis = none;
  stop = some none;
  pause = some none;
  accepts = true;
}

abbrev scanner : Scanner Fixed
scanner = record {
  bar_engine = λ code. record {
    current = none;
    completed = rising;
    vwap = record { cum_pv = whole 0; cum_vol = pos 0; vwap = whole 0; date = none };
    volume_history = [];
  };
  watchlist = some (entry ∷ []);
  context = context;
  last_signal_times = never;
  pending_momentum = λ code. none;
  opening_ranges = λ code. none;
}

run_all_gates_lem_example :
    run_all_gates "005930" rising
      (whole 103)
      none
      (whole 1)
      (whole 102)
      TradeTier.tier1
      context
      config
      never
      none
      clock
    ≡ some (
        first_unmet (
          requirements "005930" rising
            (whole 103)
            none
            (whole 1)
            (whole 102)
            TradeTier.tier1
            context
            config
            never
            none
            clock
            (540 * minute)
            (555 * minute)
            (840 * minute)
            (900 * minute)))
unfolding parse_time time_from time_of read_int
run_all_gates_lem_example =
    run_all_gates_lem "005930" rising (whole 103) none (whole 1) (whole 102) TradeTier.tier1 context
      config never none clock (540 * minute) (555 * minute) (840 * minute) (900 * minute) refl refl
      refl refl

run_all_gates_regime_example :
    run_all_gates "005930" rising
      (whole 103)
      none
      (whole 1)
      (whole 102)
      TradeTier.tier1
      (record context { market_regime = MarketRegime.strong_bear })
      config
      never
      none
      clock
    ≡ run_all_gates "005930" rising
        (whole 103)
        none
        (whole 1)
        (whole 102)
        TradeTier.tier1
        context
        config
        never
        none
        clock
run_all_gates_regime_example =
    run_all_gates_regime "005930" rising (whole 103) none (whole 1) (whole 102) TradeTier.tier1
      context config never none clock MarketRegime.strong_bear refl

detect_strategies-Grounds_example :
    HasGrounds rising MarketRegime.bear entry
      (whole 103)
      none
      (whole 1)
      (whole 102)
      config
      (pos 0)
      (600 * minute)
      (found SignalType.momentum)
unfolding detect_strategies ◌-ℤ◌
detect_strategies-Grounds_example =
    detect_strategies-Grounds rising MarketRegime.bear entry (whole 103) none (whole 1) (whole 102)
      config (pos 0) (600 * minute) (found SignalType.momentum) refl

-- The tick ends the bar after which a momentum from 101 on is confirmed.
abbrev waiting : Scanner Fixed
waiting = record scanner {
  bar_engine = λ code. record {
    current = some (bar_at 102);
    completed = rising;
    vwap = record { cum_pv = whole 0; cum_vol = pos 0; vwap = whole 0; date = none };
    volume_history = [];
  };
  pending_momentum = λ code. some (record {
    signal_type = SignalType.momentum;
    initial_price = whole 101;
    entry = entry;
    bars_waited = pos 0;
  });
}

abbrev is_published : Emitted Fixed → Bool
is_published (Emitted.published signal) = true
is_published _ = false

published_run :
    is_published (process_tick config (pos 60) 60 readings "005930" (whole 103) (pos 5) waiting).1
    ≡ true
unfolding process_tick update update_stock update_bar bar_ts ◌*ℤ◌ check_strategy_alignment any
published_run = refl

process_tick-IsSound_example :
    IsSound (process_tick config (pos 60) 60 readings "005930" (whole 103) (pos 5) waiting).0
    × IsFit config readings "005930" context
        (process_tick config (pos 60) 60 readings "005930" (whole 103) (pos 5) waiting).1
process_tick-IsSound_example =
    process_tick-IsSound config (pos 60) 60 readings "005930" (whole 103) (pos 5) waiting
      (λ code. (refl, refl))
