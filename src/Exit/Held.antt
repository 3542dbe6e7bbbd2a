-- ===== src/Exit/Held.antt =====
-- What it means that `evaluate_exit` sells nothing: the position is inside every protective bound.
use prime_jennie.Prelude.{not, ◌&&◌, ◌||◌, ◌≡◌, refl, true, arith, ◌+◌, ◌<◌}
use prime_jennie.Prelude.Int.{pos_part, neg_part}
use prime_jennie.Enums.{MarketRegime}
use prime_jennie.Float.{Float, whole, minus}
use prime_jennie.Float.Order.{IsOrdered, ◌≺◌, IsNumber, minus-IsNumber, lt_of_not-le, le_of_not-lt}
use prime_jennie.Config.Sell.{SellConfig}
use prime_jennie.Exit.Signal.{PositionContext, quiet}
use prime_jennie.Exit.Stops.{
  check_hard_stop, check_profit_floor, check_breakeven_stop, check_atr_stop, atr_mult,
  fixed_threshold, check_fixed_stop,
}
use prime_jennie.Exit.Profits.{check_time_exit}
use prime_jennie.Exit.Evaluate.{checks, evaluate_exit}
use prime_jennie.Exit.Priority.{quiet_at, checks-Sells}

module _ {F : Type 0} ⦃num : Float F⦄ (cfg : SellConfig F) (ctx : PositionContext F) where
  open num use {sub, mul, le, lt}

  -- the price of the ATR stop
  abbrev pub atr_stop : F → F
  atr_stop macro_stop_mult = sub ctx.buy_price (mul ctx.atr (atr_mult cfg ctx macro_stop_mult))

  -- Every bound that applies lies below the position.
  pub record IsInside (regime : MarketRegime) (macro_stop_mult : F) : Type 0 where
    pub above_hard_stop : minus 10 0 ≺ ctx.profit_pct
    pub above_floor :
        (not ctx.profit_floor_active || le ctx.profit_floor_level ctx.profit_pct) ≡ true
    pub above_breakeven :
        (not (cfg.breakeven_enabled && le cfg.breakeven_activation_pct ctx.high_profit_pct)
          || le cfg.breakeven_floor_pct ctx.profit_pct)
        ≡ true
    pub above_atr_stop :
        (le ctx.atr (whole 0) || lt (atr_stop macro_stop_mult) ctx.current_price) ≡ true
    pub above_fixed_stop :
        fixed_threshold cfg ctx.holding_days macro_stop_mult regime ≺ ctx.profit_pct
    pub in_time :
        pos_part ctx.holding_days + neg_part cfg.max_holding_days
        < pos_part cfg.max_holding_days + neg_part ctx.holding_days

  module _ (laws : IsOrdered num) (regime : MarketRegime) (macro_stop_mult : F)
      (profit : IsNumber ctx.profit_pct) (price : IsNumber ctx.current_price)
      (level : IsNumber ctx.profit_floor_level) (even_floor : IsNumber cfg.breakeven_floor_pct)
      (stop : IsNumber (atr_stop macro_stop_mult))
      (threshold : IsNumber (fixed_threshold cfg ctx.holding_days macro_stop_mult regime)) where
    quiet-IsInside :
        check_hard_stop ctx ≡ quiet
        → check_profit_floor ctx ≡ quiet
        → check_breakeven_stop cfg ctx ≡ quiet
        → check_atr_stop cfg ctx macro_stop_mult ≡ quiet
        → check_fixed_stop cfg ctx macro_stop_mult regime ≡ quiet
        → check_time_exit cfg ctx ≡ quiet
        → IsInside regime macro_stop_mult
    quiet-IsInside hard floor even atr fixed time = record {
      above_hard_stop =
          lt_of_not-le laws _ _ profit (minus-IsNumber laws 10 0)
            (unfold check_hard_stop in ground arith);
      above_floor =
          unfold check_profit_floor in
          ground (arith, le_of_not-lt laws ctx.profit_pct ctx.profit_floor_level profit level);
      above_breakeven =
          unfold check_breakeven_stop in
          ground
            (arith, le_of_not-lt laws ctx.profit_pct cfg.breakeven_floor_pct profit even_floor);
      above_atr_stop =
          unfold check_atr_stop in
          ground (arith, lt_of_not-le laws ctx.current_price (atr_stop macro_stop_mult) price stop);
      above_fixed_stop =
          lt_of_not-le laws _ _ profit threshold (unfold check_fixed_stop in ground arith);
      in_time = unfold check_time_exit in ground arith;
    }

    -- If the verdict is quiet, and the profit, the price and the bounds are numbers, the profit is above
    -- -10, not below an active profit floor, not below the breakeven floor once that is armed, and above
    -- the threshold of the fixed stop, the price is above the ATR stop if there is an ATR, and the days
    -- held are below the maximum.
    pub evaluate_exit-IsInside :
        evaluate_exit cfg ctx regime macro_stop_mult ≡ quiet → IsInside regime macro_stop_mult
    unfolding evaluate_exit checks
    evaluate_exit-IsInside e =
        let rules = checks cfg ctx regime macro_stop_mult in
        let at = quiet_at rules (checks-Sells cfg ctx regime macro_stop_mult) e in
        quiet-IsInside (at 0 _ refl) (at 1 _ refl) (at 3 _ refl) (at 4 _ refl) (at 5 _ refl)
          (at 11 _ refl)
