-- ===== src/Exit/Guarded.antt =====
-- The guard on small trades in [6] of `evaluate_exit`.
use mathlib.Core.Path.{subst}
use prime_jennie.Prelude.{◌≡◌, false, Option, none, some, List, All, ◌⨾◌, arith}
use prime_jennie.Prelude.Int.{◌≤ℤ◌, ◌-ℤ◌}
use prime_jennie.Enums.{MarketRegime, SellReason}
use prime_jennie.Float.{Float, whole}
use prime_jennie.Float.Order.{IsOrdered, ◌≺◌, lit-IsNumber}
use prime_jennie.Config.Sell.{SellConfig}
use prime_jennie.Config.Levels.{get_scale_out_levels}
use prime_jennie.Exit.Signal.{ExitSignal, PositionContext, signal}
use prime_jennie.Exit.Stops.{
  check_hard_stop, check_profit_floor, check_profit_lock, check_breakeven_stop, check_atr_stop,
  check_fixed_stop,
}
use prime_jennie.Exit.Profits.{
  check_trailing_take_profit, estimated_sell, is_small, scale_out_rest, scale_out_at,
  scale_out_from, check_scale_out, rsi_overbought_at, check_rsi_overbought, check_profit_target,
  check_death_cross, check_time_exit,
}
use prime_jennie.Exit.Evaluate.{checks, evaluate_exit}
use prime_jennie.Exit.Priority.{Speaks, first_signal-Speaks}

module _ {F : Type 0} ⦃num : Float F⦄ (laws : IsOrdered num) (cfg : SellConfig F)
    (ctx : PositionContext F) where
  open num use {of_int, mul, lt}

  -- A sale of some shares that is neither small nor leaves a small rest.
  pub record IsGuarded (pct : F) : Type 0 where
    pub amount :
        lt
          (mul (of_int (estimated_sell ctx.quantity pct)) ctx.current_price)
          cfg.min_transaction_amount
        ≡ false
    pub sold : cfg.min_sell_quantity ≤ℤ estimated_sell ctx.quantity pct
    pub kept : cfg.min_sell_quantity ≤ℤ ctx.quantity -ℤ estimated_sell ctx.quantity pct

  abbrev IsPartial : ExitSignal F → Type 0
  IsPartial s =
      s.reason ≡ SellReason.profit_target → s.quantity_pct ≺ whole 100 → IsGuarded s.quantity_pct

  whole-irreflexive : lt (whole 100) (whole 100) ≡ false
  whole-irreflexive =
      let n = lit-IsNumber laws 100 0 in
      ground (arith, laws.lt-eq-not-le (whole 100) (whole 100) n n)

  scale_out_at-IsPartial : (o : Option (F × F)) → Speaks IsPartial (scale_out_at cfg ctx o)
  unfolding scale_out_at is_small scale_out_rest
  scale_out_at-IsPartial none = tt
  scale_out_at-IsPartial (some (target, pct)) = ground (arith, whole-irreflexive)

  scale_out_from-IsPartial :
      (o : Option (List (F × F))) → Speaks IsPartial (scale_out_from cfg ctx o)
  unfolding scale_out_from
  scale_out_from-IsPartial none = tt
  scale_out_from-IsPartial (some ls) = scale_out_at-IsPartial _

  rsi_overbought_at-IsPartial : (o : Option F) → Speaks IsPartial (rsi_overbought_at cfg ctx o)
  unfolding rsi_overbought_at
  rsi_overbought_at-IsPartial none = tt
  rsi_overbought_at-IsPartial (some r) = ground arith

  module _ (regime : MarketRegime) (m : F) where
    checks-IsPartial : All (Speaks IsPartial) (checks cfg ctx regime m)
    unfolding checks
    checks-IsPartial =
        (unfold check_hard_stop in ground arith)
        ⨾ (unfold check_profit_floor in ground arith)
        ⨾ (unfold check_profit_lock in ground arith)
        ⨾ (unfold check_breakeven_stop in ground arith)
        ⨾ (unfold check_atr_stop in ground arith)
        ⨾ (unfold check_fixed_stop in ground arith)
        ⨾ (unfold check_trailing_take_profit in ground arith)
        ⨾ (unfold check_scale_out in
            ground (arith, scale_out_from-IsPartial (get_scale_out_levels cfg regime)))
        ⨾ (unfold check_rsi_overbought in ground (arith, rsi_overbought_at-IsPartial ctx.rsi))
        ⨾ (unfold check_profit_target in ground (arith, whole-irreflexive))
        ⨾ (unfold check_death_cross in ground arith)
        ⨾ (unfold check_time_exit in ground arith)
        ⨾ tt

    -- A scale-out of fewer than all shares sells and leaves at least the minimum of shares, and the
    -- amount that it sells for at the current price is not below the minimum of a transaction.
    pub evaluate_exit-IsGuarded :
        (s : ExitSignal F)
        → evaluate_exit cfg ctx regime m ≡ signal s
        → s.reason ≡ SellReason.profit_target
        → s.quantity_pct ≺ whole 100
        → IsGuarded s.quantity_pct
    unfolding evaluate_exit
    evaluate_exit-IsGuarded s e =
        subst (Speaks IsPartial) e
          (first_signal-Speaks IsPartial (checks cfg ctx regime m) checks-IsPartial)
