-- ===== src/Buyer/Types.antt =====
-- The records of prime_jennie/services/buyer/executor.py, and the settings that the buyer reads.
use prime_jennie.Prelude.{Bool, Option, none, some, String, if◌then◌else◌, List, [], ◌∷◌}
use prime_jennie.Prelude.Int.{ℤ, pos, eqb_ℤ, ◌+ℤ◌}
use prime_jennie.Enums.{MarketRegime, TradeTier, RiskTag, SignalType, SectorGroup}
use prime_jennie.Services.Calls.{Position}

-- `BuySignal` of prime_jennie/domain/trading.py: the fields that the executor reads
pub record BuySignal (F : Type 0) : Type 0 where
  pub stock_code : String
  pub stock_name : String
  pub signal_type : SignalType
  pub signal_price : ℤ
  pub llm_score : F
  pub hybrid_score : F
  pub trade_tier : TradeTier
  pub risk_tag : RiskTag
  pub market_regime : MarketRegime
  pub sector_group : Option SectorGroup
  pub position_multiplier : F

-- `RiskConfig`, `ScoringConfig` and `ScannerConfig`: what the buyer reads of them
pub record BuyerConfig (F : Type 0) : Type 0 where
  pub dry_run : Bool
  pub max_portfolio_size : ℤ
  pub max_sector_stocks : ℤ
  pub portfolio_guard_enabled : Bool
  pub dynamic_sector_budget_enabled : Bool
  pub max_buy_count_per_day : ℤ
  pub max_sector_value_pct : F
  pub max_stock_value_pct : F
  pub correlation_check_enabled : Bool
  pub correlation_block_threshold : F
  pub cash_floor_strong_bull_pct : F
  pub cash_floor_bull_pct : F
  pub cash_floor_sideways_pct : F
  pub cash_floor_bear_pct : F
  pub hard_floor_score : F
  pub momentum_limit_order_enabled : Bool
  pub momentum_limit_premium : F

unfoldable pub get_cash_floor : {F : Type 0} → BuyerConfig F → MarketRegime → F
get_cash_floor cfg MarketRegime.strong_bull = cfg.cash_floor_strong_bull_pct
get_cash_floor cfg MarketRegime.bull = cfg.cash_floor_bull_pct
get_cash_floor cfg MarketRegime.sideways = cfg.cash_floor_sideways_pct
get_cash_floor cfg MarketRegime.bear = cfg.cash_floor_bear_pct
get_cash_floor cfg MarketRegime.strong_bear = cfg.cash_floor_bear_pct

-- `p.current_value or p.total_buy_amount`
abbrev pub value_or : Option ℤ → ℤ → ℤ
value_or none total = total
value_or (some v) total = if eqb_ℤ v (pos 0) then total else v

abbrev pub value_of : Position → ℤ
value_of p = value_or p.current_value p.total_buy_amount

-- the sum of these values
unfoldable pub value_of_all : List Position → ℤ
value_of_all [] = pos 0
value_of_all (p ∷ ps) = value_of p +ℤ value_of_all ps

pub data Status : Type 0 where
  skipped error success : Status

-- the texts of `ExecutionResult.reason`
pub data Why : Type 0 where
  outside_market_hours emergency_stop blocked_tier hard_floor position_fetch_failed : Why
  already_holding cooldown_active sell_cooldown daily_limit portfolio_full lock_failed : Why
  invalid_price correlated position_size_0 guard order_failed order_not_filled no_reason : Why

pub record ExecutionResult : Type 0 where
  pub status : Status
  pub stock_code : String
  pub stock_name : String
  pub order_no : String
  pub quantity : ℤ
  pub price : ℤ
  pub reason : Why
