-- ===== src/Exit/Tests.antt =====
-- Runs of `evaluate_exit` on positions, with the default settings and hundredths of a percent, and
-- the theorems at these positions.
use prime_jennie.Prelude.{ℕ, ◌≡◌, refl, true, false, some, none, [], ◌∷◌, arith, codes}
use prime_jennie.Prelude.Int.{ℤ, pos, ◌+ℤ◌, ◌-ℤ◌, ◌*ℤ◌}
use prime_jennie.Enums.{sideways, bear, SellReason}
use prime_jennie.Float.{whole, minus}
use prime_jennie.Float.Order.{◌≼◌}
use prime_jennie.Float.Fixed.{Fixed, fixed, Fixed-IsOrdered, Fixed-IsMonotone}
use prime_jennie.Config.Sell.{SellConfig, sell_defaults}
use prime_jennie.Config.Levels.{get_scale_out_levels}
use prime_jennie.Exit.Signal.{PositionContext, quiet, sell}
use prime_jennie.Exit.Stops.{
  check_hard_stop, check_profit_floor, check_profit_lock, check_breakeven_stop, check_atr_stop,
  fixed_threshold, start_days, tighten, check_fixed_stop,
}
use prime_jennie.Exit.Profits.{
  check_trailing_take_profit, check_scale_out, check_rsi_overbought, check_profit_target,
  check_death_cross, check_time_exit,
}
use prime_jennie.Exit.Evaluate.{evaluate_exit}
use prime_jennie.Exit.Held.{IsInside, evaluate_exit-IsInside}
use prime_jennie.Exit.Reasons.{IsShare, evaluate_exit-IsShare}
use prime_jennie.Exit.Grounds.{Grounds, evaluate_exit-Grounds}
use prime_jennie.Exit.Preempt.{IsDecided, evaluate_exit-IsDecided}
use prime_jennie.Exit.Tighten.{fixed_threshold_mono, AreNumbers}
use prime_jennie.Exit.Guarded.{IsGuarded, evaluate_exit-IsGuarded}

abbrev settings : SellConfig Fixed
settings =
    sell_defaults (codes "7.0:25,15.0:25,25.0:15") (codes "2.0:25,5.0:25,8.0:25,12.0:15")
      (codes "3.0:25,7.0:25,12.0:25,18.0:15")

-- 1000 shares bought at 10000, at a price of `price`, after a high of `high`
abbrev position : ℕ → ℕ → ℤ → ℤ → ℤ → PositionContext Fixed
position price high profit high_profit days = record {
  current_price = whole price;
  buy_price = whole 10_000;
  quantity = pos 1000;
  profit_pct = profit *ℤ pos 10_000;
  high_watermark = whole high;
  high_profit_pct = high_profit *ℤ pos 10_000;
  atr = whole 300;
  rsi = none;
  holding_days = days;
  scale_out_level = 0;
  rsi_sold = false;
  macd_bearish = false;
  death_cross = false;
  profit_floor_active = false;
  profit_floor_level = whole 10;
}

abbrev calm : PositionContext Fixed
calm = position 10_100 10_150 (pos 100) (pos 150) (pos 3)

abbrev risen : PositionContext Fixed
risen = position 10_400 10_400 (pos 400) (pos 400) (pos 3)

abbrev old : PositionContext Fixed
old = position 10_100 10_150 (pos 100) (pos 150) (pos 31)

levels_run :
    get_scale_out_levels settings sideways
    ≡ some (
        (whole 3, whole 25)
        ∷ (whole 7, whole 25)
        ∷ (whole 12, whole 25)
        ∷ (whole 18, whole 15)
        ∷ [])
unfolding get_scale_out_levels
levels_run = refl

calm_run : evaluate_exit settings calm sideways (whole 1) ≡ quiet
unfolding evaluate_exit check_hard_stop check_profit_floor check_profit_lock check_breakeven_stop
    check_atr_stop check_fixed_stop start_days tighten check_trailing_take_profit check_scale_out
    check_rsi_overbought check_profit_target check_death_cross check_time_exit get_scale_out_levels
    ◌+ℤ◌ ◌-ℤ◌ ◌*ℤ◌
calm_run = refl

risen_run :
    evaluate_exit settings risen sideways (whole 1) ≡ sell SellReason.profit_target (whole 25)
unfolding evaluate_exit check_hard_stop check_profit_floor check_profit_lock check_breakeven_stop
    check_atr_stop check_fixed_stop start_days tighten check_trailing_take_profit check_scale_out
    check_rsi_overbought check_profit_target check_death_cross check_time_exit get_scale_out_levels
    ◌+ℤ◌ ◌-ℤ◌ ◌*ℤ◌
risen_run = refl

evaluate_exit-IsInside_example : IsInside settings calm sideways (whole 1)
unfolding ◌*ℤ◌
evaluate_exit-IsInside_example =
    evaluate_exit-IsInside settings calm Fixed-IsOrdered sideways (whole 1) refl refl refl refl
      (ground arith) (ground arith) calm_run

evaluate_exit-IsShare_example :
    IsShare settings risen sideways
      (record { should_sell = true; reason = SellReason.profit_target; quantity_pct = whole 25 })
evaluate_exit-IsShare_example = evaluate_exit-IsShare settings risen sideways (whole 1) _ risen_run

-- up by 4% with an RSI of 80, past the last scale-out level
abbrev overbought : PositionContext Fixed
overbought = record risen { rsi = some (whole 80); scale_out_level = 4 }

overbought_run :
    evaluate_exit settings overbought sideways (whole 1) ≡ sell SellReason.rsi_overbought (whole 50)
unfolding evaluate_exit check_hard_stop check_profit_floor check_profit_lock check_breakeven_stop
    check_atr_stop check_fixed_stop start_days tighten check_trailing_take_profit check_scale_out
    check_rsi_overbought check_profit_target check_death_cross check_time_exit get_scale_out_levels
    ◌+ℤ◌ ◌-ℤ◌ ◌*ℤ◌
overbought_run = refl

evaluate_exit-Grounds_example :
    Grounds settings overbought sideways (whole 1) SellReason.rsi_overbought
evaluate_exit-Grounds_example =
    evaluate_exit-Grounds settings overbought sideways (whole 1)
      (record { should_sell = true; reason = SellReason.rsi_overbought; quantity_pct = whole 50 })
      overbought_run

evaluate_exit-IsDecided_example :
    IsDecided settings old sideways (evaluate_exit settings old sideways (whole 1))
evaluate_exit-IsDecided_example =
    evaluate_exit-IsDecided settings old sideways (whole 1) (omega arith)

numbers : AreNumbers Fixed-IsOrdered Fixed-IsMonotone settings bear (whole 1)
numbers = record {
  reduction = refl;
  base_number = ground arith;
  product = λ k. ground arith;
  quotient = λ k. ground arith;
  total = λ k. ground arith;
  limit = ground arith;
}

fixed_threshold_mono_example :
    (fixed_threshold settings (pos 12) (whole 1) bear
      ≼ fixed_threshold settings (pos 20) (whole 1) bear)
    × (fixed_threshold settings (pos 20) (whole 1) bear ≼ minus 4 0)
unfolding ◌+ℤ◌ ◌-ℤ◌ ◌*ℤ◌
fixed_threshold_mono_example =
    fixed_threshold_mono Fixed-IsOrdered Fixed-IsMonotone settings bear (whole 1) numbers (pos 12)
      (pos 20) (omega arith)

evaluate_exit-IsGuarded_example : IsGuarded Fixed-IsOrdered settings risen (whole 25)
evaluate_exit-IsGuarded_example =
    evaluate_exit-IsGuarded Fixed-IsOrdered settings risen sideways (whole 1)
      (record { should_sell = true; reason = SellReason.profit_target; quantity_pct = whole 25 })
      risen_run refl refl
