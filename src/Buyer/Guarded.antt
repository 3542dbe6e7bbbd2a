-- ===== src/Buyer/Guarded.antt =====
-- What an order that passes prime_jennie/services/buyer/portfolio_guard.py leaves of the portfolio.
use prime_jennie.Prelude.{◌+◌, ◌≡◌, true, false, Option, List, count_if, filter, arith}
use prime_jennie.Prelude.Int.{ℤ, pos, ◌≤ℤ◌, ◌+ℤ◌, ◌-ℤ◌}
use prime_jennie.Enums.{MarketRegime, SectorGroup}
use prime_jennie.Float.{Float}
use prime_jennie.Services.Calls.{Position}
use prime_jennie.Buyer.Types.{BuyerConfig, get_cash_floor, value_of_all}
use prime_jennie.Buyer.Guard.{
  in_sector, or_else, pct_of, max_sector_pct, max_stock_pct, first_failed, check_sector_stock_count,
  check_cash_floor, check_sector_value_concentration, check_stock_value_concentration, judge,
}

module _ {F : Type 0} ⦃num : Float F⦄ (cfg : BuyerConfig F) (dynamic_cap : Option ℤ)
    (g : SectorGroup) (buy_amount available_cash total_assets : ℤ) (positions : List Position)
    (regime : MarketRegime) where
  -- If all checks pass on a portfolio of some value, then with the order the stocks of its sector are
  -- within the cap (the dynamic one if there is one), the sector's and the stock's share of the assets
  -- are not above their limits for the regime, and the cash left is not below the floor of the regime.
  pub judge_passed :
      pos 1 ≤ℤ total_assets
      → (judge cfg dynamic_cap g buy_amount available_cash total_assets positions regime).passed
        ≡ true
      → (pos (count_if (in_sector g) positions + 1) ≤ℤ or_else dynamic_cap cfg.max_sector_stocks)
        × (num.lt (max_sector_pct cfg regime) (
              pct_of cfg (value_of_all (filter (in_sector g) positions) +ℤ buy_amount) total_assets)
            ≡ false)
        × (num.lt (max_stock_pct cfg regime) (pct_of cfg buy_amount total_assets) ≡ false)
        × (num.lt
              (pct_of cfg (available_cash -ℤ buy_amount) total_assets)
              (get_cash_floor cfg regime)
            ≡ false)
  unfolding judge first_failed check_sector_stock_count check_cash_floor
      check_sector_value_concentration check_stock_value_concentration
  judge_passed assets passed = ground arith
