-- ===== src/Backtest/Steps.antt =====
-- The calls that prime_jennie/services/backtest/engine.py makes of the portfolio, in any order. A purchase is
-- executed only where `can_buy` allows it.
use prime_jennie.Prelude.{Option, none, some, List, [], ◌∷◌}
use prime_jennie.Prelude.Int.{ℤ}
use prime_jennie.Enums.{MarketRegime}
use prime_jennie.Float.{Float}
use prime_jennie.Config.Sell.{SellConfig}
use prime_jennie.Buyer.Types.{BuyerConfig}
use prime_jennie.Backtest.Types.{BacktestConfig, PriceCache}
use prime_jennie.Backtest.Portfolio.{Portfolio, Purchase, Sale, Refusal, can_buy, reset_daily}
use prime_jennie.Backtest.Trades.{execute_buy, execute_sell, liquidate_all}
use prime_jennie.Backtest.Days.{take_snapshot, update_watermarks}

pub data Step (F : Type 0) : Type 0 where
  reset : Step F
  buy : Purchase F → Step F
  sell : Sale → Step F
  watch : PriceCache → ℤ → Step F
  snapshot : PriceCache → ℤ → MarketRegime → Step F
  finish : PriceCache → ℤ → MarketRegime → Step F

-- the settings of the risk, of the backtest and of the exits, and the days of a cooldown
pub record Settings (F : Type 0) : Type 0 where
  pub risk : BuyerConfig F
  pub backtest : BacktestConfig F
  pub exit : SellConfig F
  pub stoploss_cooldown_days : ℤ

module _ {F : Type 0} ⦃num : Float F⦄ (settings : Settings F) where
  unfoldable pub buy_unless : Option Refusal → Purchase F → Portfolio F → Portfolio F
  unfolding execute_buy
  buy_unless none b pf = execute_buy settings.backtest b pf
  buy_unless (some reason) b pf = pf

  unfoldable pub guarded_buy : Purchase F → Portfolio F → Portfolio F
  unfolding buy_unless can_buy
  guarded_buy b pf =
      buy_unless (can_buy settings.risk b.stock_code b.sector_group b.trade_date b.regime pf) b pf

  unfoldable pub perform : Step F → Portfolio F → Portfolio F
  unfolding guarded_buy execute_sell reset_daily update_watermarks take_snapshot liquidate_all
  perform Step.reset pf = reset_daily pf
  perform (Step.buy b) pf = guarded_buy b pf
  perform (Step.sell s) pf = execute_sell settings.backtest settings.stoploss_cooldown_days s pf
  perform (Step.watch prices d) pf = update_watermarks settings.exit prices d pf
  perform (Step.snapshot prices d regime) pf = take_snapshot settings.backtest prices d regime pf
  perform (Step.finish prices d regime) pf =
      liquidate_all settings.backtest settings.stoploss_cooldown_days prices d regime pf

  unfoldable pub perform_all : List (Step F) → Portfolio F → Portfolio F
  unfolding perform
  perform_all [] pf = pf
  perform_all (s ∷ ss) pf = perform_all ss (perform s pf)
