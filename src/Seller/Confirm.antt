-- ===== src/Seller/Confirm.antt =====
-- The confirmation of a sale in prime_jennie/services/seller/executor.py.
use prime_jennie.Seller.Types.{recheck}
use text.Mathlib.Text.{◌==◌}
use prime_jennie.Prelude.{Bool, true, ◌||◌, Option, none, some, String, if◌then◌else◌}
use prime_jennie.Prelude.Int.{ℤ, leb_ℤ}
use prime_jennie.Float.{Float, whole}
use prime_jennie.Services.Calls.{Key, Call, Position, Fill, Env}
use prime_jennie.Services.Action.{Action, pure, attempt, ask, ◌>>=◌, ◌>>◌}
use prime_jennie.Kis.{check_order_status, confirm_order}
use prime_jennie.Seller.Types.{SellOrder, SellerConfig, is_cooldown_reason, is_forced, truthy}
use prime_jennie.Seller.Steps.{set_cooldown, set_sell_cooldown, cleanup_position_state}

module _ {F : Type 0} ⦃num : Float F⦄ (env : Env F) (cfg : SellerConfig) where
  open num use {truncate, lt}

  -- The price of the gateway, or that of the signal if it cannot be had.
  unfoldable pub price_or_signal : SellOrder → Action ℤ
  price_or_signal order =
      attempt (ask env (Call.kis_price order.stock_code)) (pure order.current_price)

  -- The cooldowns and the cleanup after a sale, dry or real.
  unfoldable pub after_sale : SellOrder → Position → ℤ → Action (Unit {0})
  after_sale order position sell_qty = do
    (if is_cooldown_reason order.sell_reason
        then set_cooldown env cfg order.stock_code
        else pure tt)
    set_sell_cooldown env order.stock_code
    if leb_ℤ position.quantity sell_qty
        then cleanup_position_state env order.stock_code
        else pure tt

  unfoldable pub is_dry : Action Bool
  is_dry =
      if cfg.dry_run then pure true else do v ← ask env (Call.redis_get Key.dryrun); pure (truthy v)

  unfoldable pub confirmed : String → ℤ → Option (Fill F) → Action (Option (ℤ × ℤ))
  confirmed order_no current_price (some fill) = pure (
      some (
        fill.filled_qty,
        if lt (whole 0) fill.avg_price then truncate fill.avg_price else current_price,
      ))
  confirmed order_no current_price none = do
    ask env (Call.kis_cancel order_no)
    status ← check_order_status env order_no
    pure (recheck current_price status)

  unfoldable pub confirm_sale : SellOrder → String → ℤ → ℤ → Action (Option (ℤ × ℤ))
  confirm_sale order order_no sell_qty current_price =
      if order_no == "" || order_no == "DRYRUN-0000"
      then pure (some (sell_qty, current_price))
      else do
        fill ← confirm_order env order_no (if is_forced order.sell_reason then 10 else 5)
        confirmed order_no current_price fill
