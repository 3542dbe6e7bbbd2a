-- ===== src/Backtest/Trades.antt =====
-- The purchases and the sales of `SimulatedPortfolio` (prime_jennie/services/backtest/portfolio.py). A price is
-- positive, and so are the divisors.
use text.Mathlib.Text.{◌==◌}
use prime_jennie.Prelude.{
  suc, true, false, ◌||◌, Option, none, some, List, [], ◌∷◌, ◌++◌, String, if◌then◌else◌,
}
use prime_jennie.Prelude.Int.{ℤ, pos, ◌+ℤ◌, ◌-ℤ◌, ◌*ℤ◌, min_ℤ, leb_ℤ, ltb_ℤ}
use prime_jennie.Enums.{MarketRegime, SellReason}
use prime_jennie.Float.{Float, whole}
use prime_jennie.Backtest.Types.{
  BacktestConfig, SimPosition, TradeType, TradeLog, DailyOhlcv, PriceCache, with_watermark,
  holding_days_of, profit_at,
}
use prime_jennie.Backtest.Portfolio.{
  Portfolio, Purchase, Sale, find_position, put_position, drop_position,
}

module _ {F : Type 0} ⦃num : Float F⦄ where
  open num use {of_int, truncate, ceil, add, mul, div, le, lt}

  module _ (config : BacktestConfig F) where
    abbrev pub entry_price_of : ℤ → ℤ
    entry_price_of price =
        ceil (mul (of_int price) (add (whole 1) (div config.slippage_pct (whole 100))))

    abbrev pub fee_of : F → ℤ → ℤ
    fee_of pct raw_amount = ceil (div (mul (of_int raw_amount) pct) (whole 100))

    -- the price of the shares with the fee
    abbrev pub cost_of : ℤ → ℤ → ℤ
    cost_of entry_price quantity =
        (entry_price *ℤ quantity) +ℤ fee_of config.buy_fee_pct (entry_price *ℤ quantity)

    abbrev pub max_affordable : ℤ → ℤ → ℤ
    max_affordable cash entry_price = truncate (
        div (of_int cash)
          (mul (of_int entry_price) (add (whole 1) (div config.buy_fee_pct (whole 100)))))

    abbrev pub position_of : Purchase F → ℤ → ℤ → SimPosition F
    position_of b entry_price quantity = with_watermark (record {
      stock_code = b.stock_code;
      stock_name = b.stock_name;
      quantity = quantity;
      buy_price = entry_price;
      buy_date = b.trade_date;
      sector_group = b.sector_group;
      signal_type = b.signal_type;
      trade_tier = b.trade_tier;
      llm_score = b.llm_score;
      hybrid_score = b.hybrid_score;
      high_watermark = entry_price;
      scale_out_level = 0;
      rsi_sold = false;
      profit_floor_active = false;
      profit_floor_level = whole 0;
    })

    abbrev pub buy_log : Purchase F → ℤ → ℤ → TradeLog F
    buy_log b entry_price quantity = record {
      trade_date = b.trade_date;
      stock_code = b.stock_code;
      trade_type = TradeType.bought;
      quantity = quantity;
      price = entry_price;
      total_amount = cost_of entry_price quantity;
      fee = fee_of config.buy_fee_pct (entry_price *ℤ quantity);
      sell_reason = none;
      profit_pct = none;
      profit_amount = none;
      holding_days = none;
      regime = b.regime;
    }

    -- the purchase of a quantity that was decided on
    unfoldable pub settle_buy : Purchase F → ℤ → ℤ → Portfolio F → Portfolio F
    unfolding put_position
    settle_buy b entry_price quantity pf = record pf {
      cash = pf.cash -ℤ cost_of entry_price quantity;
      daily_buy_count = pf.daily_buy_count +ℤ pos 1;
      positions = put_position b.stock_code (position_of b entry_price quantity) pf.positions;
      trade_logs = pf.trade_logs ++ (buy_log b entry_price quantity ∷ []);
    }

    unfoldable pub execute_buy : Purchase F → Portfolio F → Portfolio F
    unfolding settle_buy
    execute_buy b pf =
        let entry_price = entry_price_of b.price in
        let affordable = max_affordable pf.cash entry_price in
        if leb_ℤ b.quantity (pos 0) || leb_ℤ b.price (pos 0)
        then pf
        else if ltb_ℤ pf.cash (cost_of entry_price b.quantity)
        then (if leb_ℤ affordable (pos 0) then pf else settle_buy b entry_price affordable pf)
        else settle_buy b entry_price b.quantity pf

    -- what is left of a position after a part of it was sold
    unfoldable pub reduced : SimPosition F → ℤ → SellReason → SimPosition F
    reduced p remaining SellReason.profit_target = record p {
      quantity = remaining;
      scale_out_level = suc p.scale_out_level;
    }
    reduced p remaining SellReason.rsi_overbought = record p {
      quantity = remaining;
      rsi_sold = true;
    }
    reduced p remaining reason = record p { quantity = remaining }

    unfoldable pub after_sale :
        SimPosition F → Sale → ℤ → List (SimPosition F) → List (SimPosition F)
    unfolding drop_position put_position reduced
    after_sale p s quantity ps =
        let remaining = p.quantity -ℤ quantity in
        if leb_ℤ remaining (pos 0)
        then drop_position s.stock_code ps
        else put_position s.stock_code (reduced p remaining s.sell_reason) ps

    -- the cooldowns of the stocks after a sale: a stop loss sets one
    unfoldable pub cooled : ℤ → String → ℤ → SellReason → (String → Option ℤ) → String → Option ℤ
    cooled cooldown_days code day SellReason.stop_loss cooldowns c =
        if c == code then some (day +ℤ cooldown_days) else cooldowns c
    cooled cooldown_days code day reason cooldowns c = cooldowns c

    abbrev pub sell_log : SimPosition F → Sale → ℤ → TradeLog F
    sell_log p s quantity =
        let raw_amount = s.sell_price *ℤ quantity in
        let fee = fee_of config.sell_fee_pct raw_amount in
        record {
          trade_date = s.trade_date;
          stock_code = s.stock_code;
          trade_type = TradeType.sold;
          quantity = quantity;
          price = s.sell_price;
          total_amount = raw_amount -ℤ fee;
          fee = fee;
          sell_reason = some s.sell_reason;
          profit_pct = some (profit_at p s.sell_price);
          profit_amount = some (((s.sell_price -ℤ p.buy_price) *ℤ quantity) -ℤ fee);
          holding_days = some (holding_days_of p s.trade_date);
          regime = s.regime;
        }

    unfoldable pub settle_sell : ℤ → Sale → SimPosition F → ℤ → Portfolio F → Portfolio F
    unfolding after_sale cooled
    settle_sell cooldown_days s p quantity pf = record pf {
      cash = pf.cash +ℤ (sell_log p s quantity).total_amount;
      positions = after_sale p s quantity pf.positions;
      trade_logs = pf.trade_logs ++ (sell_log p s quantity ∷ []);
      stoploss_cooldown =
          cooled cooldown_days s.stock_code s.trade_date s.sell_reason pf.stoploss_cooldown;
    }

    unfoldable pub sell_from : ℤ → Sale → Option (SimPosition F) → Portfolio F → Portfolio F
    unfolding settle_sell
    sell_from cooldown_days s none pf = pf
    sell_from cooldown_days s (some p) pf =
        let quantity = min_ℤ s.sell_quantity p.quantity in
        if leb_ℤ quantity (pos 0) then pf else settle_sell cooldown_days s p quantity pf

    unfoldable pub execute_sell : ℤ → Sale → Portfolio F → Portfolio F
    unfolding sell_from find_position
    execute_sell cooldown_days s pf =
        sell_from cooldown_days s (find_position s.stock_code pf.positions) pf

    abbrev pub liquidation : String → ℤ → DailyOhlcv → SimPosition F → MarketRegime → Sale
    liquidation code d o p regime = record {
      stock_code = code;
      sell_price = o.close_price;
      sell_quantity = p.quantity;
      trade_date = d;
      sell_reason = SellReason.manual;
      regime = regime;
    }

    -- The loop of `liquidate_all`, over the positions at its start. The codes are different, so a
    -- position is still as it was when its turn comes.
    unfoldable pub liquidate :
        ℤ → PriceCache → ℤ → MarketRegime → List (SimPosition F) → Portfolio F → Portfolio F
    unfolding execute_sell
    liquidate cooldown_days prices d regime [] pf = pf
    liquidate cooldown_days prices d regime (p ∷ ps) pf =
        liquidate cooldown_days prices d regime ps (elim (prices.by_stock_date p.stock_code d) [
          | none ↦ pf
          | some o ↦ execute_sell cooldown_days (liquidation p.stock_code d o p regime) pf
        ])

    unfoldable pub liquidate_all : ℤ → PriceCache → ℤ → MarketRegime → Portfolio F → Portfolio F
    unfolding liquidate
    liquidate_all cooldown_days prices d regime pf =
        liquidate cooldown_days prices d regime pf.positions pf
