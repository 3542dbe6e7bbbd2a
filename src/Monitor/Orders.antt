-- ===== src/Monitor/Orders.antt =====
-- The orders of `PriceMonitor` in prime_jennie/services/monitor/app.py: `_emit_sell_order` and
-- `_emit_forced_liquidation`.
use prime_jennie.Prelude.{
  ℕ, Bool, false, not, ◌&&◌, ◌==◌, Option, none, some, List, [], ◌∷◌, ◌++◌, String, if◌then◌else◌,
}
use prime_jennie.Prelude.Int.{ℤ, pos, max_ℤ, ltb_ℤ, eqb_ℤ}
use prime_jennie.Enums.{SellReason}
use prime_jennie.Float.{Float, whole}
use prime_jennie.Exit.Signal.{ExitSignal}
use prime_jennie.Services.Calls.{Position}
use prime_jennie.Seller.Types.{SellOrder}
use prime_jennie.Monitor.State.{
  Monitor, Readings, Effect, Done, done, raised, is_set, is_suppressed, set_pending,
}

-- `pos.current_price or pos.average_buy_price`
abbrev pub price_or_average : Option ℤ → ℤ → ℤ
price_or_average none average = average
price_or_average (some p) average = if eqb_ℤ p (pos 0) then average else p

abbrev pub order_of : Position → SellReason → ℤ → SellOrder
order_of p reason quantity = record {
  stock_code = p.stock_code;
  stock_name = p.stock_name;
  sell_reason = reason;
  current_price = price_or_average p.current_price p.average_buy_price;
  quantity = quantity;
}

abbrev pub is_yes : Option Bool → Bool
is_yes none = false
is_yes (some b) = b

-- the switch is turned off where the set of targets is known to be empty
abbrev pub disarm_effect : {F : Type 0} → Option ℕ → List (Effect F)
disarm_effect none = []
disarm_effect (some n) = if n == 0 then Effect.disarm ∷ [] else []

module _ {F : Type 0} ⦃num : Float F⦄ where
  open num use {of_int, truncate, mul, div, lt, le}

  -- a scale-out that is not a sale of all raises the level
  abbrev pub scale_out_effect : String → SellReason → F → List (Effect F)
  scale_out_effect code SellReason.profit_target pct =
      if lt pct (whole 100) then Effect.increment_scale_out code ∷ [] else []
  scale_out_effect code _ pct = []

  abbrev pub rsi_effect : String → SellReason → List (Effect F)
  rsi_effect code SellReason.rsi_overbought = Effect.set_rsi_sold code ∷ []
  rsi_effect code _ = []

  abbrev pub sell_quantity : Position → F → ℤ
  sell_quantity p pct = max_ℤ (pos 1) (truncate (div (mul (of_int p.quantity) pct) (whole 100)))

  unfoldable pub emit_sell_order : Readings F → Monitor F → Position → ExitSignal F → Done F
  unfolding is_suppressed
  emit_sell_order r m p signal =
      let order = order_of p signal.reason (sell_quantity p signal.quantity_pct) in
      let all = le (whole 100) signal.quantity_pct in
      let effects =
        Effect.publish order
        ∷ (scale_out_effect p.stock_code signal.reason signal.quantity_pct
            ++ rsi_effect p.stock_code signal.reason) in
      if is_suppressed r.stop r.pause
      then done m (Effect.log_suppressed order ∷ [])
      else if not r.accepts
      then raised m []
      else done (if all then set_pending p.stock_code m else m) effects

  -- An order for less than one share is refused by its validation.
  unfoldable pub emit_forced_liquidation : Readings F → Monitor F → Position → Done F
  emit_forced_liquidation r m p =
      let order = order_of p SellReason.forced_liquidation p.quantity in
      if ltb_ℤ p.quantity (pos 1)
      then raised m []
      else if not r.accepts
      then raised m []
      else done (set_pending p.stock_code m)
          (Effect.publish order ∷ Effect.remove_target p.stock_code ∷ disarm_effect r.targets_left)

  -- the test of `_check_forced_liquidation`; an exception counts as no
  unfoldable pub is_forced_now : Readings F → Bool
  is_forced_now r = is_set r.armed && is_yes r.is_target
