-- ===== src/Monitor/Evaluate.antt =====
-- `_evaluate_position` of `PriceMonitor` in prime_jennie/services/monitor/app.py, over the rules of `Exit`, and
-- the computation of the caches.
use prime_jennie.Prelude.{
  ℕ, Bool, true, false, not, ◌&&◌, ltb, length, Option, none, some, List, [], ◌∷◌, ◌++◌,
  if◌then◌else◌,
}
use prime_jennie.Prelude.Int.{ℤ, pos, ◌-ℤ◌, leb_ℤ}
use prime_jennie.Enums.{MarketRegime}
use prime_jennie.Float.{Float, whole}
use prime_jennie.Config.Sell.{Text, SellConfig}
use prime_jennie.Exit.Signal.{PositionContext, Outcome}
use prime_jennie.Exit.Evaluate.{evaluate_exit}
use prime_jennie.Services.Calls.{Position, DailyPrice}
use prime_jennie.Buyer.Atr.{calculate_atr}
use prime_jennie.Buyer.Rsi.{calculate_rsi}
use prime_jennie.Scanner.Strategies.{days_of}
use prime_jennie.Monitor.Indicators.{check_death_cross, check_macd_bearish_divergence}
use prime_jennie.Monitor.State.{Indicators, Monitor, Readings, Effect, is_set}

-- the entry of a cache, or the default
abbrev pub or_else : {A : Type 0} → Option A → A → A
or_else none default = default
or_else (some a) default = a

abbrev pub no_indicators : Indicators
no_indicators = record { macd_bearish = false; death_cross = false }

abbrev pub holding_days_of : ℤ → Option ℤ → ℤ
holding_days_of now none = pos 0
holding_days_of now (some bought_at) = days_of (now -ℤ bought_at)

abbrev pub level_of : Option (Option ℕ) → ℕ
level_of (some (some n)) = n
level_of _ = 0

module _ {F : Type 0} ⦃num : Float F⦄ where
  open num use {of_int, of_text, sub, mul, div, lt, le}

  -- what is read of the watermark: the price of the purchase where it is missing or no number
  unfoldable pub get_high_watermark : Option (Option Text) → F → F
  get_high_watermark (some (some (c ∷ cs))) buy = or_else (of_text (c ∷ cs)) buy
  get_high_watermark _ buy = buy

  abbrev pub gain : F → F → F
  gain buy x = mul (div (sub x buy) buy) (whole 100)

  module _ (cfg : SellConfig F) (r : Readings F) (m : Monitor F) (p : Position) where
    -- the watermark of the tick
    abbrev pub watermark_of : F → F → F
    watermark_of price buy =
        let hw = get_high_watermark r.watermark buy in if lt hw price then price else hw

    abbrev pub watermark_effects : F → F → List (Effect F)
    watermark_effects price buy =
        if lt (get_high_watermark r.watermark buy) price
        then Effect.set_watermark p.stock_code price ∷ []
        else []

    abbrev pub reaches_floor : F → F → Bool
    reaches_floor price buy =
        not (is_set r.profit_floor)
        && le cfg.profit_floor_activation (gain buy (watermark_of price buy))

    abbrev pub floor_effects : F → F → List (Effect F)
    floor_effects price buy =
        if reaches_floor price buy then Effect.set_profit_floor p.stock_code ∷ [] else []

    abbrev pub context_of : F → F → PositionContext F
    context_of price buy =
        let indicators = or_else (m.indicator_cache p.stock_code) no_indicators in
        record {
          current_price = price;
          buy_price = buy;
          quantity = p.quantity;
          profit_pct = gain buy price;
          high_watermark = watermark_of price buy;
          high_profit_pct = gain buy (watermark_of price buy);
          atr = or_else (m.atr_cache p.stock_code) (whole 0);
          rsi = m.rsi_cache p.stock_code;
          holding_days = holding_days_of r.utc p.bought_at;
          scale_out_level = level_of r.scale_out;
          rsi_sold = is_set r.rsi_sold;
          macd_bearish = indicators.macd_bearish;
          death_cross = indicators.death_cross;
          profit_floor_active = if is_set r.profit_floor then true else reaches_floor price buy;
          profit_floor_level = cfg.profit_floor_level;
        }

    -- the verdict of the rules on a priced position, with what was written before
    unfoldable pub evaluate_at : ℤ → MarketRegime → F → List (Effect F) × Outcome F
    unfolding evaluate_exit get_high_watermark
    evaluate_at current regime macro_stop_mult =
        let price = of_int current in
        let buy = of_int p.average_buy_price in
        if le buy (whole 0) then ([], Outcome.quiet) else (
          watermark_effects price buy ++ floor_effects price buy,
          evaluate_exit cfg (context_of price buy) regime macro_stop_mult,
        )

    unfoldable pub evaluate_priced : Option ℤ → MarketRegime → F → List (Effect F) × Outcome F
    unfolding evaluate_at
    evaluate_priced none regime macro_stop_mult = ([], Outcome.quiet)
    evaluate_priced (some current) regime macro_stop_mult =
        if leb_ℤ current (pos 0)
        then ([], Outcome.quiet)
        else evaluate_at current regime macro_stop_mult

    unfoldable pub evaluate_position : MarketRegime → F → List (Effect F) × Outcome F
    unfolding evaluate_priced
    evaluate_position regime macro_stop_mult =
        evaluate_priced p.current_price regime macro_stop_mult

  -- What the daily prices of a stock, where they are known, say of its caches.
  unfoldable pub compute_rsi_from_prices : List F → Option F
  unfolding calculate_rsi
  compute_rsi_from_prices closes = if ltb (length closes) 15 then none else calculate_rsi closes 14

  unfoldable pub compute_atr_from_prices : List DailyPrice → F
  unfolding calculate_atr
  compute_atr_from_prices prices = if ltb (length prices) 2 then whole 0 else calculate_atr prices

  unfoldable pub indicators_of : List F → Indicators
  unfolding check_death_cross check_macd_bearish_divergence
  indicators_of closes = if ltb (length closes) 21 then no_indicators else record {
    death_cross = check_death_cross closes;
    macd_bearish = if ltb (length closes) 36 then false else check_macd_bearish_divergence closes;
  }
