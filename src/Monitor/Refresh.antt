-- ===== src/Monitor/Refresh.antt =====
-- `refresh_positions` of `PriceMonitor` in prime_jennie/services/monitor/app.py.
use text.Mathlib.Text.{◌==◌}
use prime_jennie.Prelude.{
  Bool, not, ◌&&◌, any, filter, map, Option, none, some, List, [], ◌∷◌, String, if◌then◌else◌,
}
use prime_jennie.Float.{Float, whole}
use prime_jennie.Services.Calls.{Position, DailyPrice}
use prime_jennie.Monitor.State.{Monitor, Effect, Done, done, put_held}
use prime_jennie.Monitor.Evaluate.{
  no_indicators, compute_rsi_from_prices, compute_atr_from_prices, indicators_of,
}

abbrev pub codes : List Position → List String
codes ps = map (λ p. p.stock_code) ps

abbrev pub is_among : String → List String → Bool
is_among code cs = any (λ c. c == code) cs

-- `{p.stock_code: p for p in positions}`
unfoldable pub by_code : List Position → List Position → List Position
unfolding put_held
by_code held [] = held
by_code held (p ∷ ps) = by_code (put_held p held) ps

abbrev pub gone : List Position → List Position → List String
gone old new = filter (λ c. not (is_among c (codes new))) (codes old)

abbrev pub unless_gone : {A : Type 0} → List String → (String → Option A) → String → Option A
unless_gone cs cache c = if is_among c cs then none else cache c

module _ {F : Type 0} ⦃num : Float F⦄ where
  open num use {of_int}

  -- the caches of a stock whose daily prices were asked for; `none` is an exception
  unfoldable pub computed : String → Option (List DailyPrice) → Monitor F → Monitor F
  unfolding compute_rsi_from_prices compute_atr_from_prices indicators_of
  computed code none m = record m {
    rsi_cache = λ c. if c == code then none else m.rsi_cache c;
    atr_cache = λ c. if c == code then some (whole 0) else m.atr_cache c;
    indicator_cache = λ c. if c == code then some no_indicators else m.indicator_cache c;
  }
  computed code (some prices) m =
      let closes = map (λ d. of_int d.close_price) prices in
      record m {
        rsi_cache = λ c. if c == code then compute_rsi_from_prices closes else m.rsi_cache c;
        atr_cache = λ c. if c == code then some (compute_atr_from_prices prices) else m.atr_cache c;
        indicator_cache =
            λ c. if c == code then some (indicators_of closes) else m.indicator_cache c;
      }

  unfoldable pub computed_all :
      (String → Option (List DailyPrice)) → List Position → Monitor F → Monitor F
  unfolding computed
  computed_all daily [] m = m
  computed_all daily (p ∷ ps) m =
      computed_all daily ps (computed p.stock_code (daily p.stock_code) m)

  -- `none` is an exception of the gateway, which leaves all as it was.
  unfoldable pub refresh_positions :
      Option (List Position) → (String → Option (List DailyPrice)) → Monitor F → Done F
  unfolding by_code computed_all
  refresh_positions none daily m = done m []
  refresh_positions (some positions) daily m =
      let lost = gone m.positions positions in
      let held = by_code [] positions in
      done
        (computed_all daily held (record m {
          positions = held;
          rsi_cache = unless_gone lost m.rsi_cache;
          atr_cache = unless_gone lost m.atr_cache;
          indicator_cache = unless_gone lost m.indicator_cache;
          pending_sell = λ c. m.pending_sell c && not (is_among c (codes positions));
        }))
        (map Effect.cleanup lost)
