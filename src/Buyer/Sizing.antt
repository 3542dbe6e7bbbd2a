-- ===== src/Buyer/Sizing.antt =====
-- `calculate_position_size` and its multipliers in prime_jennie/services/buyer/position_sizing.py. The
-- texts of a result and the record of the multipliers are left out.
use prime_jennie.Prelude.{Bool, not, ◌&&◌, Option, none, some, List, any, if◌then◌else◌}
use prime_jennie.Prelude.Int.{ℤ, pos, ◌+ℤ◌, ◌*ℤ◌, leb_ℤ, ltb_ℤ, eqb_ℤ, min_ℤ, max_ℤ}
use prime_jennie.Enums.{TradeTier, RiskTag, SectorGroup, same_sector}
use prime_jennie.Float.{Float, whole, fmax}

pub record SizingRequest (F : Type 0) : Type 0 where
  pub stock_price : ℤ
  pub atr : F
  pub available_cash : ℤ
  pub portfolio_value : ℤ
  pub llm_score : F
  pub hybrid_score : F
  pub trade_tier : TradeTier
  pub risk_tag : RiskTag
  pub sector_group : Option SectorGroup
  pub held_sector_groups : List SectorGroup
  pub portfolio_risk_pct : F
  pub position_multiplier : F
  pub stale_days : ℤ

pub data Reasoning : Type 0 where
  no_assets atr_is_zero smart_skip heat_exceeded sized : Reasoning

pub record SizingResult (F : Type 0) : Type 0 where
  pub quantity : ℤ
  pub target_weight_pct : F
  pub actual_weight_pct : F
  pub reasoning : Reasoning

module _ {F : Type 0} ⦃num : Float F⦄ where
  open num use {lit, of_int, truncate, round₂, add, sub, mul, div, lt, le}

  unfoldable pub get_dynamic_max_position_pct : F → F
  get_dynamic_max_position_pct llm_score = if le (whole 80) llm_score then whole 18 else whole 12

  unfoldable pub get_sector_risk_multiplier : Option SectorGroup → List SectorGroup → F
  get_sector_risk_multiplier none held = whole 1
  get_sector_risk_multiplier (some g) held = if any (same_sector g) held then lit 7 1 else whole 1

  unfoldable pub check_portfolio_heat : F → F → Bool
  check_portfolio_heat current_risk_pct new_risk_pct =
      le (add current_risk_pct new_risk_pct) (whole 5)

  unfoldable pub get_tier_multiplier : TradeTier → F → F
  get_tier_multiplier TradeTier.blocked hybrid_score = whole 0
  get_tier_multiplier TradeTier.tier2 hybrid_score = lit 5 1
  get_tier_multiplier TradeTier.tier1 hybrid_score =
      if le (whole 85) hybrid_score
      then whole 1
      else if le (whole 80) hybrid_score
      then lit 9 1
      else if le (whole 75) hybrid_score
      then lit 8 1
      else if le (whole 70) hybrid_score
      then lit 7 1
      else lit 6 1

  unfoldable pub get_risk_tag_multiplier : RiskTag → F
  get_risk_tag_multiplier RiskTag.bullish = whole 1
  get_risk_tag_multiplier RiskTag.neutral = whole 1
  get_risk_tag_multiplier RiskTag.caution = lit 7 1
  get_risk_tag_multiplier RiskTag.distribution_risk = whole 0

  unfoldable pub get_stale_multiplier : ℤ → F
  get_stale_multiplier stale_days =
      if leb_ℤ stale_days (pos 1)
      then whole 1
      else if eqb_ℤ stale_days (pos 2)
      then lit 5 1
      else lit 3 1

  unfoldable pub no_position : F → Reasoning → SizingResult F
  no_position target why = record {
    quantity = pos 0;
    target_weight_pct = target;
    actual_weight_pct = whole 0;
    reasoning = why;
  }

  module _ (request : SizingRequest F) where
    unfoldable pub total_assets : ℤ
    total_assets = request.available_cash +ℤ request.portfolio_value

    unfoldable pub risk_per_share : F
    risk_per_share = mul request.atr (whole 2)

    unfoldable pub target_quantity : ℤ
    target_quantity =
        let sector_mult =
          get_sector_risk_multiplier request.sector_group request.held_sector_groups in
        let risk_amount = mul (of_int total_assets) (mul (lit 1 2) sector_mult) in
        let target = truncate (div risk_amount risk_per_share) in
        if leb_ℤ target (pos 0) then pos 1 else target

    unfoldable pub max_qty_by_pct : ℤ
    max_qty_by_pct =
        let max_pct = get_dynamic_max_position_pct request.llm_score in
        let max_position_value = mul (of_int total_assets) (div max_pct (whole 100)) in
        if ltb_ℤ (pos 0) request.stock_price
        then truncate (div max_position_value (of_int request.stock_price))
        else target_quantity

    unfoldable pub max_qty_by_cash : ℤ
    max_qty_by_cash =
        let cash_keep = mul (of_int total_assets) (div (whole 10) (whole 100)) in
        let investable = fmax (whole 0) (sub (of_int request.available_cash) cash_keep) in
        if ltb_ℤ (pos 0) request.stock_price
        then truncate (div investable (of_int request.stock_price))
        else pos 0

    -- before the multipliers
    unfoldable pub base_quantity : ℤ
    base_quantity =
        max_ℤ (min_ℤ (min_ℤ (min_ℤ target_quantity max_qty_by_pct) max_qty_by_cash) (pos 10_000))
          (pos 0)

    -- `round(quantity * stock_price / total_assets * 100, 2)`
    unfoldable pub weight_pct : ℤ → F
    weight_pct quantity =
        round₂
          (mul (div (of_int (quantity *ℤ request.stock_price)) (of_int total_assets)) (whole 100))

    unfoldable pub is_smart_skip : Bool
    is_smart_skip =
        ltb_ℤ (pos 0) target_quantity
        && (lt (of_int max_qty_by_cash) (mul (of_int target_quantity) (lit 5 1))
            && eqb_ℤ base_quantity max_qty_by_cash)

    unfoldable pub risk_pct : F
    risk_pct =
        mul (div (mul (of_int base_quantity) risk_per_share) (of_int total_assets)) (whole 100)

    unfoldable pub final_quantity : ℤ
    final_quantity =
        let tier_mult = get_tier_multiplier request.trade_tier request.hybrid_score in
        let risk_mult = get_risk_tag_multiplier request.risk_tag in
        let stale_mult = get_stale_multiplier request.stale_days in
        let raw_final = truncate (
          mul (mul (mul (mul (of_int base_quantity) tier_mult) risk_mult) stale_mult)
            request.position_multiplier) in
        min_ℤ (if leb_ℤ raw_final (pos 0) then pos 0 else max_ℤ (pos 1) raw_final) (pos 10_000)

    unfoldable pub calculate_position_size : SizingResult F
    calculate_position_size =
        if leb_ℤ total_assets (pos 0)
        then no_position (whole 0) no_assets
        else if le risk_per_share (whole 0)
        then no_position (whole 0) atr_is_zero
        else if is_smart_skip
        then no_position (weight_pct target_quantity) smart_skip
        else if not (check_portfolio_heat request.portfolio_risk_pct risk_pct)
        then no_position (weight_pct target_quantity) heat_exceeded
        else record {
          quantity = final_quantity;
          target_weight_pct = weight_pct target_quantity;
          actual_weight_pct = weight_pct final_quantity;
          reasoning = sized;
        }
