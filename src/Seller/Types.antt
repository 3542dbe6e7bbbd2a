-- ===== src/Seller/Types.antt =====
-- The records of prime_jennie/services/seller/executor.py, and its constants.
use text.Mathlib.Text.{◌==◌}
use prime_jennie.Prelude.{
  Bool, true, false, Option, none, some, List, [], ◌∷◌, String, if◌then◌else◌,
}
use prime_jennie.Prelude.Int.{ℤ, pos, ◌-ℤ◌, ltb_ℤ}
use prime_jennie.Enums.{OrderType, SellReason}
use prime_jennie.Float.{Float, whole}
use prime_jennie.Config.Sell.{Text}
use prime_jennie.Services.Calls.{Position, OrderRequest, OrderStatus}

pub data Status : Type 0 where
  skipped error success : Status

-- the texts of `SellResult.reason`
pub data Why : Type 0 where
  outside_market_hours emergency_stop not_holding lock_failed nothing_to_sell : Why
  invalid_price order_failed order_rejected not_filled no_reason : Why

pub record SellResult (F : Type 0) : Type 0 where
  pub status : Status
  pub stock_code : String
  pub stock_name : String
  pub order_no : String
  pub quantity : ℤ
  pub price : ℤ
  pub profit_pct : F
  pub reason : Why

-- `SellOrder` of prime_jennie/domain/trading.py: the fields that the executor reads
pub record SellOrder : Type 0 where
  pub stock_code : String
  pub stock_name : String
  pub sell_reason : SellReason
  pub current_price : ℤ
  pub quantity : ℤ

-- `dry_run` and `risk.stoploss_cooldown_days` of the settings
pub record SellerConfig : Type 0 where
  pub dry_run : Bool
  pub stoploss_cooldown_days : ℤ

abbrev pub is_manual : SellReason → Bool
is_manual SellReason.manual = true
is_manual SellReason.forced_liquidation = true
is_manual _ = false

-- `COOLDOWN_REASONS`
abbrev pub is_cooldown_reason : SellReason → Bool
is_cooldown_reason SellReason.stop_loss = true
is_cooldown_reason SellReason.death_cross = true
is_cooldown_reason SellReason.breakeven_stop = true
is_cooldown_reason _ = false

abbrev pub is_forced : SellReason → Bool
is_forced SellReason.forced_liquidation = true
is_forced _ = false

-- a Redis value counts as set if it is there and not empty
abbrev pub truthy : Option Text → Bool
truthy none = false
truthy (some []) = false
truthy (some (c ∷ cs)) = true

-- the order for a number of shares at the market price
abbrev pub market_order : SellOrder → ℤ → OrderRequest
market_order order sell_qty = record {
  stock_code = order.stock_code;
  quantity = sell_qty;
  order_type = OrderType.market;
  price = none;
}

-- `{p.stock_code: p for p in positions}` keeps the last position of a code
unfoldable pub or_this : String → Position → Option Position → Option Position
or_this code p (some q) = some q
or_this code p none = if p.stock_code == code then some p else none

unfoldable pub find_held : String → List Position → Option Position
unfolding or_this
find_held code [] = none
find_held code (p ∷ ps) = or_this code p (find_held code ps)

abbrev pub or_empty : Option String → String
or_empty none = ""
or_empty (some s) = s

module _ {F : Type 0} ⦃num : Float F⦄ where
  open num use {of_int, truncate, round₂, mul, div, lt}

  unfoldable pub no_sale : Status → SellOrder → Why → SellResult F
  no_sale status order why = record {
    status = status;
    stock_code = order.stock_code;
    stock_name = order.stock_name;
    order_no = "";
    quantity = pos 0;
    price = pos 0;
    profit_pct = whole 0;
    reason = why;
  }

  unfoldable pub sale : SellOrder → String → ℤ → ℤ → F → SellResult F
  sale order order_no quantity price profit_pct = record {
    status = success;
    stock_code = order.stock_code;
    stock_name = order.stock_name;
    order_no = order_no;
    quantity = quantity;
    price = price;
    profit_pct = profit_pct;
    reason = no_reason;
  }

  -- `round((price - buy_price) / buy_price * 100, 2)`
  unfoldable pub profit_of : ℤ → ℤ → F
  profit_of price buy_price =
      round₂ (mul (div (of_int (price -ℤ buy_price)) (of_int buy_price)) (whole 100))

  -- What was sold at which price, as far as the order could be confirmed; `none` if it was not
  -- filled and is cancelled.
  unfoldable pub recheck : ℤ → Option (OrderStatus F) → Option (ℤ × ℤ)
  recheck current_price none = none
  recheck current_price (some s) =
      if ltb_ℤ (pos 0) s.filled_qty
      then some
          (s.filled_qty, if lt (whole 0) s.avg_price then truncate s.avg_price else current_price)
      else none
