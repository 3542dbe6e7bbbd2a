-- ===== src/Buyer/Place.antt =====
-- `_place_order` of prime_jennie/services/buyer/executor.py.
use text.Mathlib.Text.{◌==◌}
use prime_jennie.Prelude.{
  Bool, true, false, not, ◌&&◌, ◌||◌, Option, none, some, String, if◌then◌else◌,
}
use prime_jennie.Prelude.Int.{ℤ}
use prime_jennie.Enums.{OrderType, is_momentum}
use prime_jennie.Float.{Float, whole}
use prime_jennie.Services.Calls.{Key, Call, OrderRequest, OrderResult, Fill, Env}
use prime_jennie.Services.Action.{Action, pure, attempt, ask, ◌>>=◌}
use prime_jennie.Kis.{confirm_order}
use prime_jennie.Seller.Types.{truthy, or_empty}
use prime_jennie.Buyer.Tick.{align_tick_size}
use prime_jennie.Buyer.Types.{BuyerConfig, BuySignal}

abbrev pub market_buy : String → ℤ → OrderRequest
market_buy code quantity = record {
  stock_code = code;
  quantity = quantity;
  order_type = OrderType.market;
  price = none;
}

abbrev pub limit_buy : String → ℤ → ℤ → OrderRequest
limit_buy code quantity limit_price = record {
  stock_code = code;
  quantity = quantity;
  order_type = OrderType.limit;
  price = some limit_price;
}

-- `OrderResult(success=False, …)`
abbrev pub no_order : String → ℤ → ℤ → OrderResult
no_order code quantity price = record {
  success = false;
  order_no = none;
  stock_code = code;
  quantity = quantity;
  price = price;
}

abbrev pub dry_order : String → ℤ → ℤ → OrderResult
dry_order code quantity price = record {
  success = true;
  order_no = some "DRYRUN-0000";
  stock_code = code;
  quantity = quantity;
  price = price;
}

module _ {F : Type 0} ⦃num : Float F⦄ (env : Env F) (cfg : BuyerConfig F) where
  open num use {of_int, add, mul, lt, truncate}

  unfoldable pub limit_price_of : ℤ → ℤ
  limit_price_of current_price =
      align_tick_size
        (truncate (mul (of_int current_price) (add (whole 1) cfg.momentum_limit_premium)))

  -- `result.price = int(fill["avg_price"])` if there is a price
  unfoldable pub at_fill : OrderResult → Option (Fill F) → OrderResult
  at_fill result none = result
  at_fill result (some fill) =
      if lt (whole 0) fill.avg_price
      then record {
        success = result.success;
        order_no = result.order_no;
        stock_code = result.stock_code;
        quantity = result.quantity;
        price = truncate fill.avg_price;
      }
      else result

  -- after the wait: a cancellation that fails means that the order was filled
  unfoldable pub settle_limit : String → ℤ → ℤ → OrderResult → Bool → Action OrderResult
  settle_limit code quantity limit_price result true = pure (no_order code quantity limit_price)
  settle_limit code quantity limit_price result false = do
    fill ← confirm_order env (or_empty result.order_no) 2
    pure (at_fill result fill)

  unfoldable pub wait_limit : String → ℤ → ℤ → OrderResult → Action OrderResult
  wait_limit code quantity limit_price result =
      if not result.success || or_empty result.order_no == "" then pure result else do
        cancelled ← ask env (Call.kis_cancel (or_empty result.order_no))
        settle_limit code quantity limit_price result cancelled

  unfoldable pub place_limit : String → ℤ → ℤ → Action OrderResult
  place_limit code quantity limit_price =
      attempt
        (do
          result ← ask env (Call.kis_buy (limit_buy code quantity limit_price))
          wait_limit code quantity limit_price result)
        (pure (no_order code quantity limit_price))

  unfoldable pub place_market : String → ℤ → ℤ → Action OrderResult
  place_market code quantity current_price =
      attempt (do r ← ask env (Call.kis_buy (market_buy code quantity)); pure r)
        (pure (no_order code quantity current_price))

  unfoldable pub is_dry : Action Bool
  is_dry =
      if cfg.dry_run then pure true else do v ← ask env (Call.redis_get Key.dryrun); pure (truthy v)

  -- the order itself, once it is known whether the run is dry
  unfoldable pub place : BuySignal F → ℤ → ℤ → Bool → Action OrderResult
  place signal quantity current_price dry =
      if dry
      then pure (dry_order signal.stock_code quantity current_price)
      else if cfg.momentum_limit_order_enabled && is_momentum signal.signal_type
      then place_limit signal.stock_code quantity (limit_price_of current_price)
      else place_market signal.stock_code quantity current_price

  unfoldable pub place_order : BuySignal F → ℤ → ℤ → Action OrderResult
  place_order signal quantity current_price = do
    dry ← is_dry
    place signal quantity current_price dry
