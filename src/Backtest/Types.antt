-- ===== src/Backtest/Types.antt =====
-- prime_jennie/services/backtest/models.py. A date is the number of its day; the stores of prices are
-- functions, empty where a dictionary has no key.
use prime_jennie.Prelude.{
  ℕ, suc, ◌-◌, Bool, Option, List, [], ◌∷◌, String, take, drop, map, if◌then◌else◌,
}
use prime_jennie.Prelude.Int.{ℤ, pos, ◌-ℤ◌, ◌*ℤ◌, leb_ℤ, eqb_ℤ}
use prime_jennie.Enums.{MarketRegime, SectorGroup, SellReason, SignalType, TradeTier}
use prime_jennie.Float.{Float, whole}

pub record BacktestConfig (F : Type 0) : Type 0 where
  pub initial_capital : ℤ
  pub buy_fee_pct : F
  pub sell_fee_pct : F
  pub slippage_pct : F

pub record SimPosition (F : Type 0) : Type 0 where
  pub stock_code : String
  pub stock_name : String
  pub quantity : ℤ
  pub buy_price : ℤ
  pub buy_date : ℤ
  pub sector_group : Option SectorGroup
  pub signal_type : Option SignalType
  pub trade_tier : TradeTier
  pub llm_score : F
  pub hybrid_score : F
  pub high_watermark : ℤ
  pub scale_out_level : ℕ
  pub rsi_sold : Bool
  pub profit_floor_active : Bool
  pub profit_floor_level : F

pub data TradeType : Type 0 where
  bought sold : TradeType

pub record TradeLog (F : Type 0) : Type 0 where
  pub trade_date : ℤ
  pub stock_code : String
  pub trade_type : TradeType
  pub quantity : ℤ
  pub price : ℤ
  pub total_amount : ℤ
  pub fee : ℤ
  pub sell_reason : Option SellReason
  pub profit_pct : Option F
  pub profit_amount : Option ℤ
  pub holding_days : Option ℤ
  pub regime : MarketRegime

pub record DailySnapshot (F : Type 0) : Type 0 where
  pub snapshot_date : ℤ
  pub cash : ℤ
  pub portfolio_value : ℤ
  pub total_value : ℤ
  pub position_count : ℕ
  pub daily_return_pct : F
  pub regime : MarketRegime

pub record DailyOhlcv : Type 0 where
  pub price_date : ℤ
  pub open_price : ℤ
  pub high_price : ℤ
  pub low_price : ℤ
  pub close_price : ℤ
  pub volume : ℤ

pub record PriceCache : Type 0 where
  pub by_stock_date : String → ℤ → Option DailyOhlcv
  pub by_stock_sorted : String → List DailyOhlcv

-- The number of the first prices that are not after the day.
unfoldable pub count_until : ℤ → List DailyOhlcv → ℕ
count_until d [] = 0
count_until d (p ∷ ps) = let rest = count_until d ps in if leb_ℤ p.price_date d then suc rest else 0

unfoldable pub get_history_until : PriceCache → String → ℤ → ℕ → List DailyOhlcv
unfolding count_until
get_history_until cache code d n =
    let prices = cache.by_stock_sorted code in
    let end = count_until d prices in drop (end - n) (take end prices)

unfoldable pub get_close_prices_until : PriceCache → String → ℤ → ℕ → List ℤ
unfolding get_history_until
get_close_prices_until cache code d n = map (λ p. p.close_price) (get_history_until cache code d n)

module _ {F : Type 0} ⦃num : Float F⦄ where
  open num use {of_int, mul, div}

  -- `__post_init__`: without a watermark it is the price
  unfoldable pub with_watermark : SimPosition F → SimPosition F
  with_watermark p =
      if eqb_ℤ p.high_watermark (pos 0) then record p { high_watermark = p.buy_price } else p

  unfoldable pub total_cost : SimPosition F → ℤ
  total_cost p = p.buy_price *ℤ p.quantity

  unfoldable pub holding_days_of : SimPosition F → ℤ → ℤ
  holding_days_of p current_date = current_date -ℤ p.buy_date

  -- the gain of a price over the price of the purchase, in per cent
  unfoldable pub profit_at : SimPosition F → ℤ → F
  profit_at p price =
      if leb_ℤ p.buy_price (pos 0)
      then whole 0
      else mul (div (of_int (price -ℤ p.buy_price)) (of_int p.buy_price)) (whole 100)

  unfoldable pub high_profit_pct : SimPosition F → F
  unfolding profit_at
  high_profit_pct p = profit_at p p.high_watermark
