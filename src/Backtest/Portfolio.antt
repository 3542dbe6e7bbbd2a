-- ===== src/Backtest/Portfolio.antt =====
-- `SimulatedPortfolio` of prime_jennie/services/backtest/portfolio.py. The dictionary of the positions is the
-- list of them, in the order in which they came.
use text.Mathlib.Text.{◌==◌}
use prime_jennie.Prelude.{
  ℕ, Bool, true, false, not, ◌&&◌, filter, count_if, length, Option, none, some, List, [], ◌∷◌,
  String, if◌then◌else◌,
}
use prime_jennie.Prelude.Int.{ℤ, pos, ◌+ℤ◌, ◌*ℤ◌, leb_ℤ}
use prime_jennie.Enums.{MarketRegime, SectorGroup, SellReason, SignalType, TradeTier, same_sector}
use prime_jennie.Float.{Float, whole}
use prime_jennie.Buyer.Types.{BuyerConfig, get_cash_floor}
use prime_jennie.Backtest.Types.{SimPosition, TradeLog, DailySnapshot, DailyOhlcv, PriceCache}

pub record Portfolio (F : Type 0) : Type 0 where
  pub cash : ℤ
  pub positions : List (SimPosition F)
  pub trade_logs : List (TradeLog F)
  pub daily_snapshots : List (DailySnapshot F)
  pub daily_buy_count : ℤ
  pub stoploss_cooldown : String → Option ℤ

-- what is bought: the arguments of `execute_buy`
pub record Purchase (F : Type 0) : Type 0 where
  pub stock_code : String
  pub stock_name : String
  pub quantity : ℤ
  pub price : ℤ
  pub trade_date : ℤ
  pub signal_type : Option SignalType
  pub trade_tier : TradeTier
  pub llm_score : F
  pub hybrid_score : F
  pub sector_group : Option SectorGroup
  pub regime : MarketRegime

-- the arguments of `execute_sell`
pub record Sale : Type 0 where
  pub stock_code : String
  pub sell_price : ℤ
  pub sell_quantity : ℤ
  pub trade_date : ℤ
  pub sell_reason : SellReason
  pub regime : MarketRegime

pub data Refusal : Type 0 where
  already_held daily_buy_limit portfolio_full sector_limit : Refusal
  in_stoploss_cooldown cash_floor : Refusal

abbrev pub is_in : SectorGroup → Option SectorGroup → Bool
is_in sector none = false
is_in sector (some s) = same_sector s sector

abbrev pub price_or : Option DailyOhlcv → ℤ → ℤ
price_or none p = p
price_or (some o) p = o.close_price

abbrev pub is_cooling : Option ℤ → ℤ → Bool
is_cooling none today = false
is_cooling (some until) today = leb_ℤ today until

abbrev pub is_some_sector : Option SectorGroup → Bool
is_some_sector none = false
is_some_sector (some s) = true

module _ {F : Type 0} where
  unfoldable pub find_position : String → List (SimPosition F) → Option (SimPosition F)
  find_position code [] = none
  find_position code (p ∷ ps) =
      let rest = find_position code ps in if p.stock_code == code then some p else rest

  -- `positions[code] = position`
  unfoldable pub put_position : String → SimPosition F → List (SimPosition F) → List (SimPosition F)
  put_position code q [] = q ∷ []
  put_position code q (p ∷ ps) =
      let rest = put_position code q ps in if p.stock_code == code then q ∷ ps else p ∷ rest

  -- `del positions[code]`
  unfoldable pub drop_position : String → List (SimPosition F) → List (SimPosition F)
  drop_position code ps = filter (λ p. not (p.stock_code == code)) ps

  abbrev pub is_held : String → Portfolio F → Bool
  is_held code pf = elim (find_position code pf.positions) [ none ↦ false | some _ ↦ true ]

  unfoldable pub sector_count : Option SectorGroup → Portfolio F → ℕ
  sector_count none pf = 0
  sector_count (some sector) pf = count_if (λ p. is_in sector p.sector_group) pf.positions

  unfoldable pub held_sector_groups : List (SimPosition F) → List SectorGroup
  held_sector_groups [] = []
  held_sector_groups (p ∷ ps) = in_group p.sector_group (held_sector_groups ps)
    where
      in_group : Option SectorGroup → List SectorGroup → List SectorGroup
      in_group none rest = rest
      in_group (some s) rest = s ∷ rest

  unfoldable pub value_of_positions : PriceCache → ℤ → List (SimPosition F) → ℤ
  value_of_positions prices d [] = pos 0
  value_of_positions prices d (p ∷ ps) =
      (price_or (prices.by_stock_date p.stock_code d) p.buy_price *ℤ p.quantity)
      +ℤ value_of_positions prices d ps

  unfoldable pub total_portfolio_value : PriceCache → ℤ → Portfolio F → ℤ
  unfolding value_of_positions
  total_portfolio_value prices d pf = value_of_positions prices d pf.positions

  unfoldable pub total_value : PriceCache → ℤ → Portfolio F → ℤ
  unfolding total_portfolio_value
  total_value prices d pf = pf.cash +ℤ total_portfolio_value prices d pf

  unfoldable pub reset_daily : Portfolio F → Portfolio F
  reset_daily pf = record pf { daily_buy_count = pos 0 }

module _ {F : Type 0} ⦃num : Float F⦄ where
  open num use {of_int, truncate, ceil, add, mul, div, le}

  -- `none` where the purchase is allowed
  unfoldable pub can_buy :
      BuyerConfig F → String → Option SectorGroup → ℤ → MarketRegime → Portfolio F → Option Refusal
  unfolding sector_count find_position
  can_buy risk code sector today regime pf =
      if is_held code pf
      then some Refusal.already_held
      else if leb_ℤ risk.max_buy_count_per_day pf.daily_buy_count
      then some Refusal.daily_buy_limit
      else if leb_ℤ risk.max_portfolio_size (pos (length pf.positions))
      then some Refusal.portfolio_full
      else if is_some_sector sector && leb_ℤ risk.max_sector_stocks (pos (sector_count sector pf))
      then some Refusal.sector_limit
      else if is_cooling (pf.stoploss_cooldown code) today
      then some Refusal.in_stoploss_cooldown
      else if leb_ℤ pf.cash
          (truncate (mul (of_int pf.cash) (div (get_cash_floor risk regime) (whole 100))))
      then some Refusal.cash_floor
      else none
