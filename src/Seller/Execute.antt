-- ===== src/Seller/Execute.antt =====
-- `process_signal` and `_execute_sell` of prime_jennie/services/seller/executor.py.
use prime_jennie.Seller.Types.{market_order}
use prime_jennie.Seller.Types.{profit_of, or_empty}
use prime_jennie.Prelude.{Bool, true, false, not, ◌&&◌, Option, none, some, String, if◌then◌else◌}
use prime_jennie.Prelude.Int.{ℤ, pos, leb_ℤ, ltb_ℤ, eqb_ℤ, min_ℤ}
use prime_jennie.Float.{Float, whole}
use prime_jennie.Services.Calls.{Call, Position, OrderResult, Env}
use prime_jennie.Services.Action.{Action, pure, attempt, finally, ask, ◌>>=◌, ◌>>◌}
use prime_jennie.Seller.Types.{
  skipped, error, outside_market_hours, emergency_stop, not_holding, lock_failed, nothing_to_sell,
  invalid_price, order_failed, order_rejected, not_filled, SellResult, SellOrder, SellerConfig,
  is_manual, find_held, no_sale, sale,
}
use prime_jennie.Seller.Steps.{
  is_market_hours, get_positions, is_emergency_stopped, acquire_lock, release_lock,
}
use prime_jennie.Seller.Confirm.{price_or_signal, after_sale, is_dry, confirm_sale}

module _ {F : Type 0} ⦃num : Float F⦄ (env : Env F) (cfg : SellerConfig) where
  unfoldable pub settle :
      SellOrder → Position → String → ℤ → F → Option (ℤ × ℤ) → Action (SellResult F)
  settle order position order_no current_price profit_pct none =
      pure (no_sale error order not_filled)
  settle order position order_no current_price profit_pct (some (sell_qty, sell_price)) = do
    after_sale env cfg order position sell_qty
    pure (
        sale order order_no sell_qty sell_price (
          if ltb_ℤ (pos 0) position.average_buy_price && not (eqb_ℤ sell_price current_price)
          then profit_of sell_price position.average_buy_price
          else profit_pct))

  unfoldable pub accepted :
      SellOrder → Position → ℤ → ℤ → F → Option OrderResult → Action (SellResult F)
  accepted order position sell_qty current_price profit_pct none =
      pure (no_sale error order order_failed)
  accepted order position sell_qty current_price profit_pct (some result) =
      if not result.success then pure (no_sale error order order_rejected) else do
        done ← confirm_sale env cfg order (or_empty result.order_no) sell_qty current_price
        settle order position (or_empty result.order_no) current_price profit_pct done

  -- the market order, or nothing if it raises
  unfoldable pub place_order : SellOrder → ℤ → Action (Option OrderResult)
  place_order order sell_qty =
      attempt
        (do result ← ask env (Call.kis_sell (market_order order sell_qty)); pure (some result))
        (pure none)

  -- the sale that is not sent to the broker
  unfoldable pub dry_sale : SellOrder → Position → ℤ → ℤ → F → Action (SellResult F)
  dry_sale order position sell_qty current_price profit_pct = do
    after_sale env cfg order position sell_qty
    pure (sale order "DRYRUN-0000" sell_qty current_price profit_pct)

  unfoldable pub real_sale : SellOrder → Position → ℤ → ℤ → F → Action (SellResult F)
  real_sale order position sell_qty current_price profit_pct = do
    result ← place_order order sell_qty
    accepted order position sell_qty current_price profit_pct result

  -- dry or not, at a price that is positive
  unfoldable pub sell_at : SellOrder → Position → ℤ → ℤ → Action (SellResult F)
  sell_at order position sell_qty price =
      let buy_price = position.average_buy_price in
      let profit_pct = if ltb_ℤ (pos 0) buy_price then profit_of price buy_price else whole 0 in
      do
        dry ← is_dry env cfg
        (if dry then dry_sale else real_sale) order position sell_qty price profit_pct

  unfoldable pub priced_sale : SellOrder → Position → ℤ → ℤ → Action (SellResult F)
  priced_sale order position sell_qty price =
      if leb_ℤ price (pos 0)
      then pure (no_sale error order invalid_price)
      else sell_at order position sell_qty price

  unfoldable pub sell_shares : SellOrder → Position → ℤ → Action (SellResult F)
  sell_shares order position sell_qty = do
    price ← price_or_signal env cfg order
    priced_sale order position sell_qty price

  unfoldable pub execute_sell : SellOrder → Position → Action (SellResult F)
  execute_sell order position =
      let sell_qty = min_ℤ order.quantity position.quantity in
      if leb_ℤ sell_qty (pos 0)
      then pure (no_sale skipped order nothing_to_sell)
      else sell_shares order position sell_qty

  unfoldable pub if_locked : SellOrder → Position → Bool → Action (SellResult F)
  if_locked order position locked =
      if not locked
      then pure (no_sale skipped order lock_failed)
      else finally (execute_sell order position) (release_lock env order.stock_code)

  -- the rest of `process_signal`, on the position that is held
  unfoldable pub with_position : SellOrder → Option Position → Action (SellResult F)
  with_position order none = pure (no_sale skipped order not_holding)
  with_position order (some position) = do
    locked ← acquire_lock env order.stock_code
    if_locked order position locked

  unfoldable pub if_not_stopped : SellOrder → Bool → Action (SellResult F)
  if_not_stopped order stopped = if stopped then pure (no_sale skipped order emergency_stop) else do
    positions ← get_positions env
    with_position order (find_held order.stock_code positions)

  unfoldable pub if_open : SellOrder → Bool → Action (SellResult F)
  if_open order open_now =
      if not open_now then pure (no_sale skipped order outside_market_hours) else do
        stopped ← if is_manual order.sell_reason then pure false else is_emergency_stopped env
        if_not_stopped order stopped

  unfoldable pub process_signal : SellOrder → Action (SellResult F)
  process_signal order = do
    open_now ← if is_manual order.sell_reason then pure true else is_market_hours env
    if_open order open_now
