-- ===== src/Buyer/Sized.antt =====
-- The quantity that `calculate_position_size` of prime_jennie/services/buyer/position_sizing.py gives.
use prime_jennie.Prelude.{◌≡◌, true, false, ◌⊎◌, arith}
use prime_jennie.Prelude.Int.{pos, ◌≤ℤ◌, ◌+ℤ◌, max_ℤ, eqb_ℤ}
use prime_jennie.Float.{Float, whole}
use prime_jennie.Float.Order.{◌≼◌}
use prime_jennie.Buyer.Sizing.{
  SizingRequest, no_position, total_assets, risk_per_share, base_quantity, target_quantity,
  max_qty_by_pct, max_qty_by_cash, risk_pct, is_smart_skip, check_portfolio_heat, final_quantity,
  calculate_position_size,
}

module _ {F : Type 0} ⦃num : Float F⦄ (request : SizingRequest F) where
  final_quantity_bounds : (pos 0 ≤ℤ final_quantity request) × (final_quantity request ≤ℤ pos 10_000)
  unfolding final_quantity
  final_quantity_bounds = ground arith

  -- The quantity is between 0 and 10000 shares.
  pub calculate_position_size_bounds :
      (pos 0 ≤ℤ (calculate_position_size request).quantity)
      × ((calculate_position_size request).quantity ≤ℤ pos 10_000)
  unfolding calculate_position_size no_position
  calculate_position_size_bounds = ground (arith, final_quantity_bounds)

  -- the quantity before the multipliers is no more than each of its limits, where they are positive
  base_quantity_limits :
      (base_quantity request ≤ℤ max_ℤ (pos 0) (target_quantity request))
      × (base_quantity request ≤ℤ max_ℤ (pos 0) (max_qty_by_pct request))
      × (base_quantity request ≤ℤ max_ℤ (pos 0) (max_qty_by_cash request))
  unfolding base_quantity
  base_quantity_limits = ground arith

  target_quantity_least : pos 1 ≤ℤ target_quantity request
  unfolding target_quantity
  target_quantity_least = ground arith

  enough_cash :
      is_smart_skip request ≡ false
      → (num.lt
            (num.of_int (max_qty_by_cash request))
            (num.mul (num.of_int (target_quantity request)) (num.lit 5 1))
          ≡ false)
        ⊎ (eqb_ℤ (base_quantity request) (max_qty_by_cash request) ≡ false)
  unfolding is_smart_skip
  enough_cash h = ground (arith, h, target_quantity_least)

  sized_lem :
      pos 1 ≤ℤ (calculate_position_size request).quantity
      → (pos 1 ≤ℤ total_assets request)
        × (num.le (risk_per_share request) (whole 0) ≡ false)
        × (is_smart_skip request ≡ false)
        × (check_portfolio_heat request.portfolio_risk_pct (risk_pct request) ≡ true)
  unfolding calculate_position_size no_position
  sized_lem positive = ground arith

  -- Where at least one share is sized, the assets are positive, and the risk of a share is not at most
  -- 0. The cash buys no less than half of the target, or the quantity before the multipliers is not
  -- the one that the cash buys. That quantity is no more than the target, the share of the assets and
  -- the cash allow (where they allow anything), the risk of the portfolio with it is at most 5%, and
  -- no more than 10000 shares are sized.
  pub calculate_position_size_sound :
      pos 1 ≤ℤ (calculate_position_size request).quantity
      → (pos 1 ≤ℤ request.available_cash +ℤ request.portfolio_value)
        × (num.le (num.mul request.atr (whole 2)) (whole 0) ≡ false)
        × ((num.lt
                (num.of_int (max_qty_by_cash request))
                (num.mul (num.of_int (target_quantity request)) (num.lit 5 1))
              ≡ false)
            ⊎ (eqb_ℤ (base_quantity request) (max_qty_by_cash request) ≡ false))
        × ((base_quantity request ≤ℤ max_ℤ (pos 0) (target_quantity request))
            × (base_quantity request ≤ℤ max_ℤ (pos 0) (max_qty_by_pct request))
            × (base_quantity request ≤ℤ max_ℤ (pos 0) (max_qty_by_cash request)))
        × (num.add request.portfolio_risk_pct (risk_pct request) ≼ whole 5)
        × ((calculate_position_size request).quantity ≤ℤ pos 10_000)
  unfolding total_assets risk_per_share check_portfolio_heat
  calculate_position_size_sound positive =
      let (assets, risk, enough, heat) = sized_lem positive in
      (
        assets,
        risk,
        enough_cash enough,
        base_quantity_limits,
        heat,
        calculate_position_size_bounds.1,
      )
