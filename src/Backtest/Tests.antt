-- ===== src/Backtest/Tests.antt =====
-- A purchase and a sale of the simulated portfolio of prime_jennie/services/backtest.
use prime_jennie.Prelude.{true, false, none, [], ◌∷◌, codes, List}
use prime_jennie.Prelude.Int.{pos}
use prime_jennie.Enums.{MarketRegime, TradeTier, SellReason}
use prime_jennie.Float.{whole}
use prime_jennie.Float.Fixed.{Fixed, fixed}
use prime_jennie.Config.Sell.{sell_defaults}
use prime_jennie.Buyer.Types.{BuyerConfig}
use prime_jennie.Backtest.Types.{BacktestConfig, PriceCache}
use prime_jennie.Backtest.Portfolio.{Purchase, Sale}
use prime_jennie.Backtest.Days.{initial}
use prime_jennie.Backtest.Steps.{Step, Settings, perform_all}
use prime_jennie.Backtest.Recorded.{IsReplayed}
use prime_jennie.Backtest.Replay.{perform_all-IsReplayed}

abbrev risk : BuyerConfig Fixed
risk = record {
  dry_run = false;
  max_portfolio_size = pos 10;
  max_sector_stocks = pos 3;
  portfolio_guard_enabled = true;
  dynamic_sector_budget_enabled = true;
  max_buy_count_per_day = pos 6;
  max_sector_value_pct = whole 30;
  max_stock_value_pct = whole 15;
  correlation_check_enabled = true;
  correlation_block_threshold = fixed.lit 85 2;
  cash_floor_strong_bull_pct = whole 5;
  cash_floor_bull_pct = whole 10;
  cash_floor_sideways_pct = whole 15;
  cash_floor_bear_pct = whole 25;
  hard_floor_score = whole 40;
  momentum_limit_order_enabled = true;
  momentum_limit_premium = fixed.lit 3 3;
}

abbrev backtest : BacktestConfig Fixed
backtest = record {
  initial_capital = pos 50_000_000;
  buy_fee_pct = fixed.lit 15 3;
  sell_fee_pct = fixed.lit 195 3;
  slippage_pct = fixed.lit 1 1;
}

abbrev settings : Settings Fixed
settings = record {
  risk = risk;
  backtest = backtest;
  exit = sell_defaults (codes "7.0:25") (codes "2.0:25") (codes "2.0:25");
  stoploss_cooldown_days = pos 3;
}

abbrev purchase : Purchase Fixed
purchase = record {
  stock_code = "005930";
  stock_name = "Samsung";
  quantity = pos 100;
  price = pos 70_000;
  trade_date = pos 1;
  signal_type = none;
  trade_tier = TradeTier.tier1;
  llm_score = whole 70;
  hybrid_score = whole 70;
  sector_group = none;
  regime = MarketRegime.sideways;
}

abbrev sale : Sale
sale = record {
  stock_code = "005930";
  sell_price = pos 72_000;
  sell_quantity = pos 40;
  trade_date = pos 2;
  sell_reason = SellReason.profit_target;
  regime = MarketRegime.sideways;
}

abbrev no_prices : PriceCache
no_prices = record { by_stock_date = λ code d. none; by_stock_sorted = λ code. [] }

abbrev days : List (Step Fixed)
days =
    Step.reset
    ∷ Step.buy purchase
    ∷ Step.snapshot no_prices (pos 1) MarketRegime.sideways
    ∷ Step.sell sale
    ∷ []

perform_all-IsReplayed_example :
    IsReplayed (pos 50_000_000) (perform_all settings days (initial backtest))
perform_all-IsReplayed_example = perform_all-IsReplayed settings days
