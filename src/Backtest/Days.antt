-- ===== src/Backtest/Days.antt =====
-- What `SimulatedPortfolio` of prime_jennie/services/backtest/portfolio.py does once a day.
use prime_jennie.Prelude.{
  true, not, ◌&&◌, length, Option, none, some, List, [], ◌∷◌, ◌++◌, if◌then◌else◌,
}
use prime_jennie.Prelude.Int.{ℤ, pos, ◌+ℤ◌, ◌-ℤ◌, ltb_ℤ}
use prime_jennie.Enums.{MarketRegime}
use prime_jennie.Float.{Float, whole}
use prime_jennie.Config.Sell.{SellConfig}
use prime_jennie.Backtest.Types.{
  BacktestConfig, SimPosition, DailySnapshot, DailyOhlcv, PriceCache, high_profit_pct,
}
use prime_jennie.Backtest.Portfolio.{Portfolio, total_portfolio_value}

module _ {F : Type 0} ⦃num : Float F⦄ where
  open num use {of_int, truncate, ceil, add, mul, div, le, lt}

  module _ (config : BacktestConfig F) where
    abbrev pub total_of : ℤ → List (DailySnapshot F) → ℤ
    total_of start [] = start
    total_of start (s ∷ ss) = total_of s.total_value ss

    abbrev pub daily_return : ℤ → ℤ → F
    daily_return prev now =
        if ltb_ℤ (pos 0) prev
        then mul (div (of_int (now -ℤ prev)) (of_int prev)) (whole 100)
        else whole 0

    unfoldable pub take_snapshot : PriceCache → ℤ → MarketRegime → Portfolio F → Portfolio F
    unfolding total_portfolio_value
    take_snapshot prices d regime pf =
        let pv = total_portfolio_value prices d pf in
        let tv = pf.cash +ℤ pv in
        let snap : DailySnapshot F = record {
          snapshot_date = d;
          cash = pf.cash;
          portfolio_value = pv;
          total_value = tv;
          position_count = length pf.positions;
          daily_return_pct = daily_return (total_of config.initial_capital pf.daily_snapshots) tv;
          regime = regime;
        } in
        record pf { daily_snapshots = pf.daily_snapshots ++ (snap ∷ []) }

  module _ (cfg : SellConfig F) where
    unfoldable pub raised : ℤ → SimPosition F → SimPosition F
    raised high p = if ltb_ℤ p.high_watermark high then record p { high_watermark = high } else p

    -- the floor of the profit, once the high profit reaches its activation
    unfoldable pub floored : SimPosition F → SimPosition F
    floored p =
        if not p.profit_floor_active && le cfg.profit_floor_activation (high_profit_pct p)
        then record p { profit_floor_active = true; profit_floor_level = cfg.profit_floor_level }
        else p

    unfoldable pub watched : Option DailyOhlcv → SimPosition F → SimPosition F
    unfolding raised floored
    watched none p = p
    watched (some o) p = floored (raised o.high_price p)

    unfoldable pub watched_all : PriceCache → ℤ → List (SimPosition F) → List (SimPosition F)
    unfolding watched
    watched_all prices d [] = []
    watched_all prices d (p ∷ ps) =
        watched (prices.by_stock_date p.stock_code d) p ∷ watched_all prices d ps

    unfoldable pub update_watermarks : PriceCache → ℤ → Portfolio F → Portfolio F
    unfolding watched_all
    update_watermarks prices d pf = record pf { positions = watched_all prices d pf.positions }

  unfoldable pub initial : BacktestConfig F → Portfolio F
  initial config = record {
    cash = config.initial_capital;
    positions = [];
    trade_logs = [];
    daily_snapshots = [];
    daily_buy_count = pos 0;
    stoploss_cooldown = λ code. none;
  }
