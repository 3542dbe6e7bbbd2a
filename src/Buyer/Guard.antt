-- ===== src/Buyer/Guard.antt =====
-- prime_jennie/services/buyer/portfolio_guard.py. The texts and details of a result are left out.
use prime_jennie.Prelude.{
  Bool, true, false, not, Option, none, some, List, filter, count_if, if◌then◌else◌,
}
use prime_jennie.Prelude.Int.{ℤ, pos, ◌+ℤ◌, ◌-ℤ◌, leb_ℤ}
use prime_jennie.Enums.{MarketRegime, SectorGroup, same_sector}
use prime_jennie.Float.{Float, whole}
use prime_jennie.Services.Calls.{Call, Position, Env}
use prime_jennie.Services.Action.{Action, pure, attempt, ask, ◌>>=◌}
use prime_jennie.Buyer.Types.{BuyerConfig, get_cash_floor, value_of_all}

pub data Check : Type 0 where
  sector_stock_count cash_floor sector_value stock_value all : Check

pub record GuardResult : Type 0 where
  pub passed : Bool
  pub check_name : Check

-- `p.sector_group == sector_group`
abbrev pub in_group : SectorGroup → Option SectorGroup → Bool
in_group g none = false
in_group g (some h) = same_sector h g

abbrev pub in_sector : SectorGroup → Position → Bool
in_sector g p = in_group g p.sector_group

abbrev pub or_else : Option ℤ → ℤ → ℤ
or_else none d = d
or_else (some c) d = c

abbrev pub is_strong_bull : MarketRegime → Bool
is_strong_bull MarketRegime.strong_bull = true
is_strong_bull _ = false

module _ {F : Type 0} ⦃num : Float F⦄ (cfg : BuyerConfig F) where
  open num use {of_int, mul, div, lt}

  -- with the dynamic cap, if there is one
  unfoldable pub check_sector_stock_count : Option ℤ → SectorGroup → List Position → GuardResult
  check_sector_stock_count dynamic_cap g positions =
      let max_allowed = or_else dynamic_cap cfg.max_sector_stocks in
      let current_count = pos (count_if (in_sector g) positions) in
      record { passed = not (leb_ℤ max_allowed current_count); check_name = sector_stock_count }

  -- `x / total * 100`
  unfoldable pub pct_of : ℤ → ℤ → F
  pct_of x total = mul (div (of_int x) (of_int total)) (whole 100)

  unfoldable pub check_cash_floor : ℤ → ℤ → ℤ → MarketRegime → GuardResult
  check_cash_floor buy_amount available_cash total_assets regime =
      if leb_ℤ total_assets (pos 0)
      then record { passed = true; check_name = cash_floor }
      else (let cash_after = available_cash -ℤ buy_amount in
          record {
            passed = not (lt (pct_of cash_after total_assets) (get_cash_floor cfg regime));
            check_name = cash_floor;
          })

  unfoldable pub max_sector_pct : MarketRegime → F
  max_sector_pct regime = if is_strong_bull regime then whole 50 else cfg.max_sector_value_pct

  unfoldable pub max_stock_pct : MarketRegime → F
  max_stock_pct regime = if is_strong_bull regime then whole 25 else cfg.max_stock_value_pct

  unfoldable pub check_sector_value_concentration :
      SectorGroup → ℤ → ℤ → List Position → MarketRegime → GuardResult
  check_sector_value_concentration g buy_amount total_assets positions regime =
      if leb_ℤ total_assets (pos 0)
      then record { passed = true; check_name = sector_value }
      else (let total = value_of_all (filter (in_sector g) positions) +ℤ buy_amount in
          record {
            passed = not (lt (max_sector_pct regime) (pct_of total total_assets));
            check_name = sector_value;
          })

  unfoldable pub check_stock_value_concentration : ℤ → ℤ → MarketRegime → GuardResult
  check_stock_value_concentration buy_amount total_assets regime =
      if leb_ℤ total_assets (pos 0)
      then record { passed = true; check_name = stock_value }
      else record {
        passed = not (lt (max_stock_pct regime) (pct_of buy_amount total_assets));
        check_name = stock_value;
      }

  -- the first result that did not pass
  unfoldable pub first_failed : GuardResult → GuardResult → GuardResult
  first_failed r rest = if not r.passed then r else rest

  -- the four checks in turn
  unfoldable pub judge :
      Option ℤ → SectorGroup → ℤ → ℤ → ℤ → List Position → MarketRegime → GuardResult
  judge dynamic_cap g buy_amount available_cash total_assets positions regime =
      first_failed (check_sector_stock_count dynamic_cap g positions) (
        first_failed (check_sector_value_concentration g buy_amount total_assets positions regime) (
          first_failed (check_stock_value_concentration buy_amount total_assets regime) (
            first_failed (check_cash_floor buy_amount available_cash total_assets regime)
              (record { passed = true; check_name = all }))))

  unfoldable pub get_dynamic_sector_cap : Env F → SectorGroup → Action (Option ℤ)
  get_dynamic_sector_cap env g =
      if not cfg.dynamic_sector_budget_enabled
      then pure none
      else attempt (ask env (Call.sector_cap g)) (pure none)

  unfoldable pub check_all :
      Env F → SectorGroup → ℤ → ℤ → ℤ → List Position → MarketRegime → Action GuardResult
  check_all env g buy_amount available_cash total_assets positions regime =
      if not cfg.portfolio_guard_enabled
      then pure (record { passed = true; check_name = all })
      else do
        dynamic_cap ← get_dynamic_sector_cap env g
        pure (judge dynamic_cap g buy_amount available_cash total_assets positions regime)
