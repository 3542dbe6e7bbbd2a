-- ===== src/Scanner/Passed.antt =====
-- What the result of `run_all_gates` says (prime_jennie/services/scanner/risk_gates.py).
use mathlib.Core.List.{reverse}
use prime_jennie.Prelude.{
  ℕ, ltb, leb, length, ◌≡◌, refl, Bool, true, not, ◌&&◌, ◌||◌, Option, none, some, List, [], ◌∷◌,
  String, ◌⨾◌, if◌then◌else◌, arith,
}
use prime_jennie.Prelude.Int.{ℤ, pos, leb_ℤ, ltb_ℤ}
use prime_jennie.Enums.{MarketRegime, TradeTier, is_bull}
use prime_jennie.Float.{Float, whole}
use prime_jennie.Services.Calls.{Key}
use prime_jennie.Bars.{Bar}
use prime_jennie.Scanner.Times.{parse_time}
use prime_jennie.Scanner.Types.{ScannerConfig, TradingContext}
use prime_jennie.Scanner.Gates.{
  GateName, GateResult, pass, fail, Clock, Redis, is_crisis, is_blocked, check_min_bars, within,
  check_no_trade_window, check_danger_zone, check_rsi_guard, check_macro_risk, check_market_regime,
  risk_count, check_combined_risk, cooldown_since, check_cooldown, ttl_gate,
  check_stoploss_cooldown, check_sell_cooldown, check_trade_tier, is_shooting_star,
  is_bearish_engulfing, micro_timing_of, check_micro_timing, rsi_limit, first_failure, gates,
  run_all_gates,
}

abbrev pub Row : Type 0
Row = GateName × Bool

-- the name of the first row that does not hold
abbrev pub first_unmet : List Row → GateResult
first_unmet [] = pass GateName.all_gates
first_unmet ((g, b) ∷ rows) = if b then first_unmet rows else fail g

abbrev row_result : Row → Option GateResult
row_result (g, b) = some (record { passed = b; gate_name = g })

abbrev Agree : List (Option GateResult) → List Row → Type 0
Agree [] [] = Unit
Agree (r ∷ rs) (row ∷ rows) = (r ≡ row_result row) × Agree rs rows
Agree _ _ = ⊥

first_failure-first_unmet :
    (rs : List (Option GateResult)) (rows : List Row)
    → Agree rs rows
    → first_failure rs ≡ some (first_unmet rows)
unfolding first_failure
first_failure-first_unmet [] [] h = refl
first_failure-first_unmet [] (_ ∷ _) h = absurd h
first_failure-first_unmet (_ ∷ _) [] h = absurd h
first_failure-first_unmet (r ∷ rs) ((g, b) ∷ rows) h =
    rw h.0 (ground (arith, first_failure-first_unmet rs rows h.1))

-- no time to live is known, or it is over
abbrev pub is_over : Option ℤ → Bool
is_over none = true
is_over (some ttl) = not (ltb_ℤ (pos 0) ttl)

abbrev pub asked : Redis → Key → Option ℤ
asked none key = none
asked (some ttl) key = ttl key

module _ {F : Type 0} ⦃num : Float F⦄ where
  open num use {of_int, add, sub, mul, lt}

  abbrev pub at_most : Option F → F → Bool
  at_most none limit = true
  at_most (some x) limit = not (lt limit x)

  abbrev pub waited : Option F → F → ℤ → Bool
  waited none now sec = true
  waited (some last) now sec = not (lt (sub now last) (of_int sec))

  abbrev pub is_calm : List (Bar F) → Bool
  is_calm (last ∷ prev ∷ _) = not (is_shooting_star last || is_bearish_engulfing prev last)
  is_calm _ = true

  check_rsi_guard_lem :
      (rsi : Option F) (limit : F)
      → some (check_rsi_guard rsi limit) ≡ row_result (GateName.rsi_guard, at_most rsi limit)
  unfolding check_rsi_guard
  check_rsi_guard_lem none limit = refl
  check_rsi_guard_lem (some x) limit = ground arith

  cooldown_since_lem :
      (last : Option F) (now : F) (sec : ℤ)
      → some (cooldown_since last now sec) ≡ row_result (GateName.cooldown, waited last now sec)
  unfolding cooldown_since
  cooldown_since_lem none now sec = refl
  cooldown_since_lem (some last) now sec = ground arith

  macro_risk_lem :
      (context : TradingContext F)
      → some (check_macro_risk context)
        ≡ row_result (
          GateName.macro_risk,
          (ltb_ℤ context.risk_off_level (pos 2) && not (is_crisis context.vix_regime)),
        )
  unfolding check_macro_risk
  macro_risk_lem context = ground arith

  combined_risk_lem :
      (volume_ratio vwap price limit deviation : F)
      → some (check_combined_risk volume_ratio vwap price limit deviation)
        ≡ row_result (
          GateName.combined_risk,
          not (
              lt limit volume_ratio
              && (lt (whole 0) vwap && lt (mul vwap (add (whole 1) deviation)) price)),
        )
  unfolding check_combined_risk risk_count
  combined_risk_lem volume_ratio vwap price limit deviation = ground arith

  micro_timing_lem :
      (bars : List (Bar F))
      → some (micro_timing_of bars) ≡ row_result (GateName.micro_timing, is_calm bars)
  unfolding micro_timing_of
  micro_timing_lem [] = refl
  micro_timing_lem (last ∷ []) = refl
  micro_timing_lem (last ∷ prev ∷ _) = ground arith

within_lem :
    (g : GateName) (s e t : ℕ)
    → some (if within s e t then fail g else pass g) ≡ row_result (g, (ltb t s || leb e t))
within_lem g s e t = ground arith

min_bars_lem :
    {A : Type 0} (bars : List A) (n : ℤ)
    → some (check_min_bars bars n) ≡ row_result (GateName.min_bars, leb_ℤ n (pos (length bars)))
unfolding check_min_bars
min_bars_lem bars n = ground arith

trade_tier_lem :
    (t : TradeTier)
    → some (check_trade_tier t) ≡ row_result (GateName.trade_tier, not (is_blocked t))
unfolding check_trade_tier
trade_tier_lem t = ground arith

ttl_gate_lem : (g : GateName) (ttl : Option ℤ) → some (ttl_gate g ttl) ≡ row_result (g, is_over ttl)
unfolding ttl_gate
ttl_gate_lem g none = refl
ttl_gate_lem g (some ttl) = ground arith

stoploss_lem :
    (code : String) (redis : Redis)
    → some (check_stoploss_cooldown code redis)
      ≡ row_result (GateName.stoploss_cooldown, is_over (asked redis (Key.stoploss_cooldown code)))
unfolding check_stoploss_cooldown
stoploss_lem code none = refl
stoploss_lem code (some ttl) =
    ttl_gate_lem GateName.stoploss_cooldown (ttl (Key.stoploss_cooldown code))

sell_lem :
    (code : String) (redis : Redis)
    → some (check_sell_cooldown code redis)
      ≡ row_result (GateName.sell_cooldown, is_over (asked redis (Key.sell_cooldown code)))
unfolding check_sell_cooldown
sell_lem code none = refl
sell_lem code (some ttl) = ttl_gate_lem GateName.sell_cooldown (ttl (Key.sell_cooldown code))

module _ {F : Type 0} ⦃num : Float F⦄ (stock_code : String) (bars : List (Bar F))
    (current_price : F) (rsi : Option F) (volume_ratio vwap : F) (trade_tier : TradeTier)
    (context : TradingContext F) (config : ScannerConfig F) (last_signal_times : String → Option F)
    (redis : Redis) (clock : Clock F) where
  open num use {add, mul, lt}

  -- what has to hold for a signal, in the order in which it is tested, with the two windows
  abbrev pub requirements : ℕ → ℕ → ℕ → ℕ → List Row
  requirements s e s' e' =
      (GateName.min_bars, leb_ℤ config.min_required_bars (pos (length bars)))
      ∷ (GateName.no_trade_window, (ltb clock.window_time s || leb e clock.window_time))
      ∷ (GateName.danger_zone, (ltb clock.danger_time s' || leb e' clock.danger_time))
      ∷ (GateName.rsi_guard, at_most rsi (rsi_limit config context.market_regime))
      ∷ (
        GateName.macro_risk,
        (ltb_ℤ context.risk_off_level (pos 2) && not (is_crisis context.vix_regime)),
      )
      ∷ (GateName.market_regime, true)
      ∷ (
        GateName.combined_risk,
        not (
            lt config.volume_ratio_warning volume_ratio
            && (lt (whole 0) vwap
                && lt (mul vwap (add (whole 1) config.vwap_deviation_warning)) current_price)),
      )
      ∷ (
        GateName.cooldown,
        waited (last_signal_times stock_code) clock.seconds config.signal_cooldown_seconds,
      )
      ∷ (GateName.stoploss_cooldown, is_over (asked redis (Key.stoploss_cooldown stock_code)))
      ∷ (GateName.sell_cooldown, is_over (asked redis (Key.sell_cooldown stock_code)))
      ∷ (GateName.trade_tier, not (is_blocked trade_tier))
      ∷ (GateName.micro_timing, is_calm (reverse bars))
      ∷ []

  -- Where the four times of the settings can be read, the result of the gates is the one of the
  -- first requirement that is not met: enough bars; outside both windows; the RSI, if known, at
  -- most the limit; risk-off below 2 and no VIX crisis; not a surge of the volume and a price above
  -- the VWAP at once; the time after the last signal over; no key of a cooldown that lives; no
  -- blocked tier; neither a shooting star nor a bearish engulfing. The regime is required nothing
  -- of. All gates are passed where all requirements are met.
  pub run_all_gates_lem :
      (s e s' e' : ℕ)
      → parse_time config.no_trade_window_start ≡ some s
      → parse_time config.no_trade_window_end ≡ some e
      → parse_time config.danger_zone_start ≡ some s'
      → parse_time config.danger_zone_end ≡ some e'
      → run_all_gates stock_code bars current_price rsi volume_ratio vwap trade_tier context config
          last_signal_times redis clock
        ≡ some (first_unmet (requirements s e s' e'))
  unfolding run_all_gates gates
  run_all_gates_lem s e s' e' h1 h2 h3 h4 =
      first_failure-first_unmet
        (gates stock_code bars current_price rsi volume_ratio vwap trade_tier context config
          last_signal_times redis clock)
        (requirements s e s' e')
        (min_bars_lem bars config.min_required_bars
          ⨾ (unfold check_no_trade_window in
              rw (h1, h2) (within_lem GateName.no_trade_window s e clock.window_time))
          ⨾ (unfold check_danger_zone in
              rw (h3, h4) (within_lem GateName.danger_zone s' e' clock.danger_time))
          ⨾ check_rsi_guard_lem rsi _
          ⨾ macro_risk_lem context
          ⨾ (unfold check_market_regime in refl)
          ⨾ combined_risk_lem _ _ _ _ _
          ⨾ (unfold check_cooldown in
              cooldown_since_lem (last_signal_times stock_code) clock.seconds
                config.signal_cooldown_seconds)
          ⨾ stoploss_lem _ _
          ⨾ sell_lem _ _
          ⨾ trade_tier_lem trade_tier
          ⨾ (unfold check_micro_timing in micro_timing_lem (reverse bars))
          ⨾ tt)

  -- Of the market's regime the gates read only whether it is a bull market: a bear market passes
  -- what a sideways one passes.
  pub run_all_gates_regime :
      (regime : MarketRegime)
      → is_bull regime ≡ is_bull context.market_regime
      → run_all_gates stock_code bars current_price rsi volume_ratio vwap trade_tier
          (record context { market_regime = regime })
          config
          last_signal_times
          redis
          clock
        ≡ run_all_gates stock_code bars current_price rsi volume_ratio vwap trade_tier context
            config last_signal_times redis clock
  unfolding run_all_gates gates check_market_regime check_macro_risk
  run_all_gates_regime regime h = rw h refl
