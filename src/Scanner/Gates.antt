-- ===== src/Scanner/Gates.antt =====
-- prime_jennie/services/scanner/risk_gates.py: the gates that a buy signal passes one after another.
-- The texts of the results are left out. The readings of the clock are arguments, and Redis answers a
-- question for the life of a key or raises (`none`).
use text.Mathlib.Text.{◌==◌}
use mathlib.Core.List.{reverse}
use prime_jennie.Prelude.{
  ℕ, suc, Bool, true, false, not, ◌&&◌, ltb, leb, length, any, Option, none, some, List, [], ◌∷◌,
  String, if◌then◌else◌,
}
use prime_jennie.Prelude.Maybe.{◌>>=◌}
use prime_jennie.Prelude.Int.{ℤ, pos, leb_ℤ, ltb_ℤ}
use prime_jennie.Enums.{MarketRegime, VixRegime, TradeTier, is_bull}
use prime_jennie.Float.{Float, whole, fmax}
use prime_jennie.Services.Calls.{Key}
use prime_jennie.Bars.{Bar}
use prime_jennie.Scanner.Times.{parse_time}
use prime_jennie.Scanner.Types.{ScannerConfig, TradingContext}

pub data GateName : Type 0 where
  min_bars no_trade_window danger_zone rsi_guard macro_risk market_regime combined_risk : GateName
  cooldown stoploss_cooldown sell_cooldown trade_tier micro_timing strategy_alignment : GateName
  all_gates : GateName

pub record GateResult : Type 0 where
  pub passed : Bool
  pub gate_name : GateName

abbrev pub pass : GateName → GateResult
pass g = record { passed = true; gate_name = g }

abbrev pub fail : GateName → GateResult
fail g = record { passed = false; gate_name = g }

-- what the gates read of the clock, one after another: the time of the day in Seoul, twice, and
-- `time.time()`
pub record Clock (F : Type 0) : Type 0 where
  pub window_time : ℕ
  pub danger_time : ℕ
  pub seconds : F

-- `redis_client.ttl(key)`; the client itself may be missing
abbrev pub Redis : Type 0
Redis = Option (Key → Option ℤ)

abbrev pub is_bear : MarketRegime → Bool
is_bear MarketRegime.bear = true
is_bear MarketRegime.strong_bear = true
is_bear _ = false

abbrev pub is_crisis : VixRegime → Bool
is_crisis VixRegime.crisis = true
is_crisis _ = false

abbrev pub is_blocked : TradeTier → Bool
is_blocked TradeTier.blocked = true
is_blocked _ = false

unfoldable pub check_min_bars : {A : Type 0} → List A → ℤ → GateResult
check_min_bars bars min_required =
    if leb_ℤ min_required (pos (length bars))
    then pass GateName.min_bars
    else fail GateName.min_bars

-- `start <= current < end`
abbrev pub within : ℕ → ℕ → ℕ → Bool
within start end current = leb start current && ltb current end

unfoldable pub check_market_regime : MarketRegime → Bool → GateResult
check_market_regime regime block_bear =
    if not block_bear
    then pass GateName.market_regime
    else if is_bear regime
    then fail GateName.market_regime
    else pass GateName.market_regime

unfoldable pub check_trade_tier : TradeTier → GateResult
check_trade_tier tier =
    if is_blocked tier then fail GateName.trade_tier else pass GateName.trade_tier

-- the gate of a key: a key that has some time to live blocks, an exception does not
unfoldable pub ttl_gate : GateName → Option ℤ → GateResult
ttl_gate g none = pass g
ttl_gate g (some ttl) = if ltb_ℤ (pos 0) ttl then fail g else pass g

unfoldable pub check_stoploss_cooldown : String → Redis → GateResult
unfolding ttl_gate
check_stoploss_cooldown code none = pass GateName.stoploss_cooldown
check_stoploss_cooldown code (some ttl) =
    ttl_gate GateName.stoploss_cooldown (ttl (Key.stoploss_cooldown code))

unfoldable pub check_sell_cooldown : String → Redis → GateResult
unfolding ttl_gate
check_sell_cooldown code none = pass GateName.sell_cooldown
check_sell_cooldown code (some ttl) = ttl_gate GateName.sell_cooldown (ttl (Key.sell_cooldown code))

-- The loop of `run_all_gates` over the gates; `none` is an exception, which ends it.
unfoldable pub first_failure : List (Option GateResult) → Option GateResult
first_failure [] = some (pass GateName.all_gates)
first_failure (none ∷ gates) = none
first_failure (some r ∷ gates) = let rest = first_failure gates in if r.passed then rest else some r

module _ {F : Type 0} ⦃num : Float F⦄ where
  open num use {of_int, neg, add, sub, mul, lt, le}

  unfoldable pub check_no_trade_window : ScannerConfig F → ℕ → Option GateResult
  unfolding parse_time
  check_no_trade_window config current = do
    start ← parse_time config.no_trade_window_start
    end ← parse_time config.no_trade_window_end
    some (
        if within start end current
        then fail GateName.no_trade_window
        else pass GateName.no_trade_window)

  unfoldable pub check_danger_zone : ScannerConfig F → ℕ → Option GateResult
  unfolding parse_time
  check_danger_zone config current = do
    start ← parse_time config.danger_zone_start
    end ← parse_time config.danger_zone_end
    some (if within start end current then fail GateName.danger_zone else pass GateName.danger_zone)

  unfoldable pub check_rsi_guard : Option F → F → GateResult
  check_rsi_guard none max_rsi = pass GateName.rsi_guard
  check_rsi_guard (some rsi) max_rsi =
      if lt max_rsi rsi then fail GateName.rsi_guard else pass GateName.rsi_guard

  unfoldable pub check_macro_risk : TradingContext F → GateResult
  check_macro_risk context =
      if leb_ℤ (pos 2) context.risk_off_level
      then fail GateName.macro_risk
      else if is_crisis context.vix_regime
      then fail GateName.macro_risk
      else pass GateName.macro_risk

  -- `risk_count` of `check_combined_risk`
  unfoldable pub risk_count : F → F → F → F → F → ℕ
  risk_count volume_ratio vwap current_price volume_limit vwap_deviation_limit =
      let surge = if lt volume_limit volume_ratio then 1 else 0 in
      if lt (whole 0) vwap && lt (mul vwap (add (whole 1) vwap_deviation_limit)) current_price
      then suc surge
      else surge

  unfoldable pub check_combined_risk : F → F → F → F → F → GateResult
  unfolding risk_count
  check_combined_risk volume_ratio vwap current_price volume_limit vwap_deviation_limit =
      if leb 2 (risk_count volume_ratio vwap current_price volume_limit vwap_deviation_limit)
      then fail GateName.combined_risk
      else pass GateName.combined_risk

  -- the gate of the last signal of the stock
  unfoldable pub cooldown_since : Option F → F → ℤ → GateResult
  cooldown_since none now cooldown_sec = pass GateName.cooldown
  cooldown_since (some last) now cooldown_sec =
      if lt (sub now last) (of_int cooldown_sec)
      then fail GateName.cooldown
      else pass GateName.cooldown

  unfoldable pub check_cooldown : String → (String → Option F) → F → ℤ → GateResult
  unfolding cooldown_since
  check_cooldown code last_signal_times now cooldown_sec =
      cooldown_since (last_signal_times code) now cooldown_sec

  -- `abs` of a float
  abbrev pub fabs : F → F
  fabs x = if lt x (whole 0) then neg x else x

  abbrev pub is_shooting_star : Bar F → Bool
  is_shooting_star last =
      let body = fabs (sub last.close last.start) in
      let upper_shadow = sub last.high (fmax last.close last.start) in
      lt (whole 0) body && lt (mul body (whole 2)) upper_shadow

  abbrev pub is_bearish_engulfing : Bar F → Bar F → Bool
  is_bearish_engulfing prev last =
      lt prev.start prev.close
      && lt last.close last.start
      && (le prev.close last.start && le last.close prev.start)

  -- the bars, the last one first
  unfoldable pub micro_timing_of : List (Bar F) → GateResult
  micro_timing_of (last ∷ prev ∷ _) =
      if is_shooting_star last
      then fail GateName.micro_timing
      else if is_bearish_engulfing prev last
      then fail GateName.micro_timing
      else pass GateName.micro_timing
  micro_timing_of _ = pass GateName.micro_timing

  unfoldable pub check_micro_timing : List (Bar F) → GateResult
  unfolding micro_timing_of
  check_micro_timing bars = micro_timing_of (reverse bars)

  -- `run_all_gates` does not use this gate.
  unfoldable pub check_strategy_alignment : String → TradingContext F → GateResult
  check_strategy_alignment signal_type context =
      if any (λ s. s == signal_type) context.strategies_to_avoid
      then fail GateName.strategy_alignment
      else pass GateName.strategy_alignment

  -- the limit of the RSI in the regime
  abbrev pub rsi_limit : ScannerConfig F → MarketRegime → F
  rsi_limit config regime =
      if is_bull regime then config.rsi_guard_bull_max else config.rsi_guard_max

  module _ (stock_code : String) (bars : List (Bar F)) (current_price : F) (rsi : Option F)
      (volume_ratio vwap : F) (trade_tier : TradeTier) (context : TradingContext F)
      (config : ScannerConfig F) (last_signal_times : String → Option F) (redis : Redis)
      (clock : Clock F) where
    unfoldable pub gates : List (Option GateResult)
    unfolding check_no_trade_window check_danger_zone
    gates =
        some (check_min_bars bars config.min_required_bars)
        ∷ check_no_trade_window config clock.window_time
        ∷ check_danger_zone config clock.danger_time
        ∷ some (check_rsi_guard rsi (rsi_limit config context.market_regime))
        ∷ some (check_macro_risk context)
        ∷ some (check_market_regime context.market_regime false)
        ∷ some (
            check_combined_risk volume_ratio vwap current_price config.volume_ratio_warning
              config.vwap_deviation_warning)
        ∷ some (
            check_cooldown stock_code last_signal_times clock.seconds
              config.signal_cooldown_seconds)
        ∷ some (check_stoploss_cooldown stock_code redis)
        ∷ some (check_sell_cooldown stock_code redis)
        ∷ some (check_trade_tier trade_tier)
        ∷ some (check_micro_timing bars)
        ∷ []

    unfoldable pub run_all_gates : Option GateResult
    unfolding gates
    run_all_gates = first_failure gates
