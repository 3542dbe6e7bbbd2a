-- ===== src/Buyer/Tests.antt =====
-- A broker that takes buy orders, and the runs of prime_jennie/services/buyer against it.
use prime_jennie.Prelude.{
  ◌≤◌, ◌≡◌, ◌⊎◌, refl, true, false, Option, none, some, List, [], String, arith, count_if, filter,
}
use prime_jennie.Prelude.Int.{ℤ, pos, ◌≤ℤ◌, ◌+ℤ◌, ◌-ℤ◌, max_ℤ, eqb_ℤ}
use prime_jennie.Enums.{SignalType, TradeTier, RiskTag, MarketRegime, SectorGroup}
use prime_jennie.Float.{whole}
use prime_jennie.Float.Order.{◌≼◌}
use prime_jennie.Buyer.Atr.{clamp_atr}
use prime_jennie.Buyer.Clamped.{clamp_atr_bounds}
use prime_jennie.Float.Fixed.{Fixed-IsOrdered, Fixed, fixed}
use prime_jennie.Services.Calls.{Call, Answer, History, Env}
use prime_jennie.Services.Trace.{IsOrderly, is_buy_lock, held}
use prime_jennie.Services.Counts.{count, AllCalls}
use prime_jennie.Buyer.Types.{BuySignal, BuyerConfig, get_cash_floor, value_of_all}
use prime_jennie.Buyer.Tick.{align_tick_size, tick_size}
use prime_jennie.Buyer.Aligned.{IsMultiple, align_tick_size_lem}
use prime_jennie.Buyer.Sizing.{
  get_sector_risk_multiplier, get_dynamic_max_position_pct, get_tier_multiplier,
  get_risk_tag_multiplier, get_stale_multiplier, no_position, SizingRequest, total_assets,
  risk_per_share, base_quantity, risk_pct, is_smart_skip, check_portfolio_heat, final_quantity,
  calculate_position_size, target_quantity, max_qty_by_pct, max_qty_by_cash,
}
use prime_jennie.Buyer.Sized.{calculate_position_size_sound}
use prime_jennie.Buyer.Guard.{
  first_failed, check_sector_stock_count, check_cash_floor, check_sector_value_concentration,
  check_stock_value_concentration, in_sector, pct_of, max_sector_pct, max_stock_pct, judge,
}
use prime_jennie.Buyer.Guarded.{judge_passed}
use prime_jennie.Buyer.Execute.{process_signal}
use prime_jennie.Buyer.Lock.{buy_signal-IsOrderly}
use prime_jennie.Buyer.Orders.{
  is_buy, IsSoundCall, buy_signal-AllCalls, buy_signal_once, buy_signal_refused,
}

abbrev stock : String
stock = "005930"

abbrev signal : BuySignal Fixed
signal = record {
  stock_code = stock;
  stock_name = "Samsung";
  signal_type = SignalType.momentum;
  signal_price = pos 10_000;
  llm_score = whole 70;
  hybrid_score = whole 86;
  trade_tier = TradeTier.tier1;
  risk_tag = RiskTag.neutral;
  market_regime = MarketRegime.bull;
  sector_group = some SectorGroup.semiconductor_it;
  position_multiplier = whole 1;
}

abbrev vetoed : BuySignal Fixed
vetoed = record {
  stock_code = stock;
  stock_name = "Samsung";
  signal_type = SignalType.dip_buy;
  signal_price = pos 10_000;
  llm_score = whole 70;
  hybrid_score = whole 86;
  trade_tier = TradeTier.blocked;
  risk_tag = RiskTag.neutral;
  market_regime = MarketRegime.bull;
  sector_group = none;
  position_multiplier = whole 1;
}

abbrev settings : BuyerConfig Fixed
settings = record {
  dry_run = false;
  max_portfolio_size = pos 10;
  max_sector_stocks = pos 3;
  portfolio_guard_enabled = true;
  dynamic_sector_budget_enabled = true;
  max_buy_count_per_day = pos 6;
  max_sector_value_pct = whole 30;
  max_stock_value_pct = whole 15;
  correlation_check_enabled = true;
  correlation_block_threshold = fixed.lit 85 2;
  cash_floor_strong_bull_pct = whole 5;
  cash_floor_bull_pct = whole 10;
  cash_floor_sideways_pct = whole 15;
  cash_floor_bear_pct = whole 25;
  hard_floor_score = whole 40;
  momentum_limit_order_enabled = true;
  momentum_limit_premium = fixed.lit 3 3;
}

abbrev uncorrelated : List ℤ → List ℤ → Option Fixed
uncorrelated xs ys = none

abbrev accepting : History → (c : Call) → Option (Answer Fixed c)
accepting h Call.clock = some 36_000_000_000
accepting h (Call.redis_get k) = some none
accepting h (Call.redis_set_nx k ttl) = some true
accepting h (Call.redis_setex k ttl) = some tt
accepting h (Call.redis_delete k) = some tt
accepting h (Call.redis_incr k ttl) = some tt
accepting h (Call.redis_clear code) = some tt
accepting h (Call.sector_cap sector) = some (some (pos 3))
accepting h (Call.kis_price code) = some (pos 10_000)
accepting h Call.kis_positions = some []
accepting h Call.kis_balance = some (pos 10_000_000)
accepting h (Call.kis_daily_prices code days) = some []
accepting h (Call.kis_buy order) = some (record {
  success = true;
  order_no = some "0001";
  stock_code = order.stock_code;
  quantity = order.quantity;
  price = pos 0;
})
accepting h (Call.kis_sell order) = none
accepting h (Call.kis_cancel order_no) = some false
accepting h (Call.kis_status order_no) =
    some (record { filled = true; filled_qty = pos 100; avg_price = whole 10_020 })

abbrev broker : Env Fixed
broker = record { respond = accepting }

abbrev request : SizingRequest Fixed
request = record {
  stock_price = pos 10_000;
  atr = whole 200;
  available_cash = pos 10_000_000;
  portfolio_value = pos 0;
  llm_score = whole 70;
  hybrid_score = whole 86;
  trade_tier = TradeTier.tier1;
  risk_tag = RiskTag.neutral;
  sector_group = none;
  held_sector_groups = [];
  portfolio_risk_pct = whole 0;
  position_multiplier = whole 1;
  stale_days = pos 0;
}

buy_signal-IsOrderly_example :
    IsOrderly is_buy_lock stock (process_signal broker uncorrelated settings signal []).1
    × (held is_buy_lock stock (process_signal broker uncorrelated settings signal []).1 ≡ false)
buy_signal-IsOrderly_example = buy_signal-IsOrderly broker uncorrelated settings signal [] tt refl

buy_signal-AllCalls_example :
    AllCalls (IsSoundCall stock) (process_signal broker uncorrelated settings signal []).1
buy_signal-AllCalls_example = buy_signal-AllCalls broker uncorrelated settings signal [] tt

buy_signal_once_example : count is_buy (process_signal broker uncorrelated settings signal []).1 ≤ 1
buy_signal_once_example = buy_signal_once broker uncorrelated settings signal []

buy_signal_refused_example :
    count is_buy (process_signal broker uncorrelated settings vetoed []).1 ≤ 0
buy_signal_refused_example = buy_signal_refused broker uncorrelated settings vetoed refl []

align_tick_size_lem_example :
    IsMultiple (tick_size (pos 10_037)) (align_tick_size (pos 10_037))
    × IsMultiple (tick_size (align_tick_size (pos 10_037))) (align_tick_size (pos 10_037))
    × (align_tick_size (align_tick_size (pos 10_037)) ≡ align_tick_size (pos 10_037))
    × (align_tick_size (pos 10_037) ≤ℤ pos 10_037)
    × (pos 10_037 +ℤ pos 1 ≤ℤ align_tick_size (pos 10_037) +ℤ pos (tick_size (pos 10_037)))
align_tick_size_lem_example = align_tick_size_lem (pos 10_037)

sized_120 : (calculate_position_size request).quantity ≡ pos 120
unfolding calculate_position_size total_assets risk_per_share is_smart_skip target_quantity
    max_qty_by_pct max_qty_by_cash base_quantity check_portfolio_heat risk_pct final_quantity
    get_sector_risk_multiplier get_dynamic_max_position_pct get_tier_multiplier
    get_risk_tag_multiplier get_stale_multiplier no_position ◌+ℤ◌ ◌-ℤ◌
sized_120 = refl

some_shares : pos 1 ≤ℤ (calculate_position_size request).quantity
some_shares = ground (arith, sized_120)

calculate_position_size_sound_example :
    (pos 1 ≤ℤ request.available_cash +ℤ request.portfolio_value)
    × (fixed.le (fixed.mul request.atr (whole 2)) (whole 0) ≡ false)
    × ((fixed.lt
            (fixed.of_int (max_qty_by_cash request))
            (fixed.mul (fixed.of_int (target_quantity request)) (fixed.lit 5 1))
          ≡ false)
        ⊎ (eqb_ℤ (base_quantity request) (max_qty_by_cash request) ≡ false))
    × ((base_quantity request ≤ℤ max_ℤ (pos 0) (target_quantity request))
        × (base_quantity request ≤ℤ max_ℤ (pos 0) (max_qty_by_pct request))
        × (base_quantity request ≤ℤ max_ℤ (pos 0) (max_qty_by_cash request)))
    × (fixed.add request.portfolio_risk_pct (risk_pct request) ≼ whole 5)
    × ((calculate_position_size request).quantity ≤ℤ pos 10_000)
calculate_position_size_sound_example = calculate_position_size_sound request some_shares

base_120 : base_quantity request ≡ pos 120
unfolding total_assets risk_per_share target_quantity max_qty_by_pct max_qty_by_cash base_quantity
    get_sector_risk_multiplier get_dynamic_max_position_pct ◌+ℤ◌ ◌-ℤ◌
base_120 = refl

passes :
    (judge settings
      (some (pos 3))
      SectorGroup.finance
      (pos 1_200_000)
      (pos 10_000_000)
      (pos 10_000_000)
      []
      MarketRegime.bull).passed
    ≡ true
unfolding judge first_failed check_sector_stock_count check_cash_floor
    check_sector_value_concentration check_stock_value_concentration value_of_all max_sector_pct
    max_stock_pct pct_of get_cash_floor count_if filter ◌+ℤ◌ ◌-ℤ◌
passes = refl

judge_passed_example :
    (pos 1 ≤ℤ pos 3)
    × (fixed.lt (max_sector_pct settings MarketRegime.bull) (
          pct_of settings
            (value_of_all (filter (in_sector SectorGroup.finance) []) +ℤ pos 1_200_000)
            (pos 10_000_000))
        ≡ false)
    × (fixed.lt
          (max_stock_pct settings MarketRegime.bull)
          (pct_of settings (pos 1_200_000) (pos 10_000_000))
        ≡ false)
    × (fixed.lt
          (pct_of settings (pos 10_000_000 -ℤ pos 1_200_000) (pos 10_000_000))
          (get_cash_floor settings MarketRegime.bull)
        ≡ false)
unfolding count_if
judge_passed_example =
    judge_passed settings (some (pos 3)) SectorGroup.finance (pos 1_200_000) (pos 10_000_000)
      (pos 10_000_000) [] MarketRegime.bull (omega arith) passes

clamp_atr_bounds_example :
    (fixed.mul (whole 10_000) (fixed.lit 1 2) ≼ clamp_atr (whole 900) (whole 10_000))
    × (clamp_atr (whole 900) (whole 10_000) ≼ fixed.mul (whole 10_000) (fixed.lit 5 2))
clamp_atr_bounds_example =
    clamp_atr_bounds Fixed-IsOrdered (whole 900) (whole 10_000) refl refl refl
