-- ===== src/Exit/Reasons.antt =====
-- What a signal of `evaluate_exit` says: how much is sold, and for which reason.
use mathlib.Core.Path.{subst}
use prime_jennie.Prelude.{
  ◌≡◌, refl, Bool-cases, Option-cases, true, false, ◌⊎◌, inl, inr, Option, none, some, List,
  get_elem?, All, ◌⨾◌, arith,
}
use prime_jennie.Prelude.Int.{ℤ, ◌-ℤ◌}
use prime_jennie.Enums.{MarketRegime, SellReason}
use prime_jennie.Float.{Float, whole}
use prime_jennie.Config.Sell.{SellConfig}
use prime_jennie.Config.Levels.{get_scale_out_levels}
use prime_jennie.Exit.Signal.{ExitSignal, PositionContext, signal}
use prime_jennie.Exit.Stops.{
  check_hard_stop, check_profit_floor, check_profit_lock, check_breakeven_stop, check_atr_stop,
  check_fixed_stop,
}
use prime_jennie.Exit.Profits.{
  check_trailing_take_profit, estimated_sell, scale_out_rest, scale_out_at, scale_out_from,
  check_scale_out, rsi_overbought_at, check_rsi_overbought, check_profit_target, check_death_cross,
  check_time_exit,
}
use prime_jennie.Exit.Evaluate.{checks, evaluate_exit}
use prime_jennie.Exit.Priority.{Speaks, first_signal-Speaks}

module _ {F : Type 0} ⦃num : Float F⦄ (cfg : SellConfig F) (ctx : PositionContext F) where
  open num use {le}

  module _ (regime : MarketRegime) where
    -- The share of a partial scale-out is that of the position's level.
    pub record IsLevelShare (pct : F) : Type 0 where
      pub on : cfg.scale_out_enabled ≡ true
      pub all_levels : List (F × F)
      pub parsed : get_scale_out_levels cfg regime ≡ some all_levels
      pub target : F
      pub at_level : get_elem? all_levels ctx.scale_out_level ≡ some (target, pct)
      pub reached : num.lt ctx.profit_pct target ≡ false

    abbrev pub IsPartial : SellReason → F → Type 0
    IsPartial SellReason.rsi_overbought pct = (pct ≡ whole 50) × (ctx.rsi_sold ≡ false)
    IsPartial SellReason.profit_target pct = IsLevelShare pct
    IsPartial _ pct = ⊥

    -- A sale is of all shares, or it is one of the two partial sales.
    abbrev pub IsShare : ExitSignal F → Type 0
    IsShare s =
        (s.should_sell ≡ true) × ((s.quantity_pct ≡ whole 100) ⊎ IsPartial s.reason s.quantity_pct)

    scale_out_rest-IsShare :
        (remaining : ℤ) (pct : F)
        → (pct ≡ whole 100) ⊎ IsLevelShare pct
        → Speaks IsShare (scale_out_rest cfg remaining pct)
    unfolding scale_out_rest
    scale_out_rest-IsShare remaining pct h = ground arith

    scale_out_at-IsShare :
        (all_levels : List (F × F)) (o : Option (F × F))
        → cfg.scale_out_enabled ≡ true
        → get_scale_out_levels cfg regime ≡ some all_levels
        → get_elem? all_levels ctx.scale_out_level ≡ o
        → Speaks IsShare (scale_out_at cfg ctx o)
    unfolding scale_out_at
    scale_out_at-IsShare all_levels none on parsed at = tt
    scale_out_at-IsShare all_levels (some (target, pct)) on parsed at =
        let estimated = estimated_sell ctx.quantity pct in
        elim (Bool-cases (num.lt ctx.profit_pct target)) [
          | inl e ↦ rw e tt
          | inr reached ↦
              let share : IsLevelShare pct = record {
                on = on;
                all_levels = all_levels;
                parsed = parsed;
                target = target;
                at_level = at;
                reached = reached;
              } in
              rw reached (
                ground (
                  arith,
                  scale_out_rest-IsShare (ctx.quantity -ℤ estimated) pct (inr share),
                  scale_out_rest-IsShare (ctx.quantity -ℤ estimated) (whole 100) (inl refl),
                ))
        ]

    check_scale_out-IsShare : Speaks IsShare (check_scale_out cfg ctx regime)
    unfolding check_scale_out scale_out_from
    check_scale_out-IsShare = elim (Bool-cases cfg.scale_out_enabled) [
      | inl on ↦ elim (Option-cases (get_scale_out_levels cfg regime)) [
        | inl e ↦ simp (on, e) tt
        | inr (ls, e) ↦ simp (on, e) (scale_out_at-IsShare ls _ on e refl)
      ]
      | inr off ↦ simp off tt
    ]

    rsi_overbought_at-IsShare :
        (o : Option F) → ctx.rsi_sold ≡ false → Speaks IsShare (rsi_overbought_at cfg ctx o)
    unfolding rsi_overbought_at
    rsi_overbought_at-IsShare none h = tt
    rsi_overbought_at-IsShare (some r) h = ground arith

    checks-IsShare : (m : F) → All (Speaks IsShare) (checks cfg ctx regime m)
    unfolding checks
    checks-IsShare m =
        (unfold check_hard_stop in ground arith)
        ⨾ (unfold check_profit_floor in ground arith)
        ⨾ (unfold check_profit_lock in ground arith)
        ⨾ (unfold check_breakeven_stop in ground arith)
        ⨾ (unfold check_atr_stop in ground arith)
        ⨾ (unfold check_fixed_stop in ground arith)
        ⨾ (unfold check_trailing_take_profit in ground arith)
        ⨾ check_scale_out-IsShare
        ⨾ (unfold check_rsi_overbought in ground (arith, rsi_overbought_at-IsShare ctx.rsi))
        ⨾ (unfold check_profit_target in ground arith)
        ⨾ (unfold check_death_cross in ground arith)
        ⨾ (unfold check_time_exit in ground arith)
        ⨾ tt

    -- If the verdict is a signal, it asks for a sale, of all shares; or of half of them, for an
    -- overbought RSI on which nothing was sold before; or of the share of the position's scale-out
    -- level, whose target the profit has reached.
    pub evaluate_exit-IsShare :
        (m : F) (s : ExitSignal F) → evaluate_exit cfg ctx regime m ≡ signal s → IsShare s
    unfolding evaluate_exit
    evaluate_exit-IsShare m s e =
        subst (Speaks IsShare) e
          (first_signal-Speaks IsShare (checks cfg ctx regime m) (checks-IsShare m))
