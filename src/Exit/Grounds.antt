-- ===== src/Exit/Grounds.antt =====
-- The reason of a signal of `evaluate_exit` is borne out by the position.
use mathlib.Core.Path.{subst}
use prime_jennie.Prelude.{
  ◌&&◌, ◌≡◌, refl, true, false, ◌⊎◌, inl, inr, Bool-cases, Option-cases, Option, none, some, List,
  get_elem?, All, ◌⨾◌, arith,
}
use prime_jennie.Prelude.Int.{◌≤ℤ◌}
use prime_jennie.Enums.{MarketRegime, SellReason, is_bull}
use prime_jennie.Float.{Float, whole, minus}
use prime_jennie.Float.Order.{◌≼◌, ◌≺◌}
use prime_jennie.Config.Sell.{SellConfig}
use prime_jennie.Config.Levels.{get_scale_out_levels}
use prime_jennie.Exit.Signal.{ExitSignal, PositionContext, signal}
use prime_jennie.Exit.Stops.{
  check_hard_stop, check_profit_floor, check_profit_lock, check_breakeven_stop, check_atr_stop,
  lock_trigger, fixed_threshold, check_fixed_stop, atr_mult,
}
use prime_jennie.Exit.Profits.{
  activation_pct, drop_pct, check_trailing_take_profit, scale_out_rest, scale_out_at,
  scale_out_from, check_scale_out, rsi_overbought_at, check_rsi_overbought, check_profit_target,
  check_death_cross, check_time_exit,
}
use prime_jennie.Exit.Evaluate.{checks, evaluate_exit}
use prime_jennie.Exit.Priority.{Speaks, first_signal-Speaks}

module _ {F : Type 0} ⦃num : Float F⦄ (cfg : SellConfig F) (ctx : PositionContext F) where
  open num use {sub, mul, div, le, lt}

  module _ (regime : MarketRegime) (macro_stop_mult : F) where
    -- The high profit reached the trigger of a profit lock, and the profit fell below its floor.
    abbrev pub IsLocked : F → F → F → F → Type 0
    IsLocked mult low high floor =
        (lock_trigger (mul (div ctx.atr ctx.buy_price) (whole 100)) mult low high
          ≼ ctx.high_profit_pct)
        × (ctx.profit_pct ≺ floor)

    -- The armed trailing stop was hit with enough profit left.
    abbrev pub IsTrailed : Type 0
    IsTrailed =
        (cfg.trailing_enabled ≡ true)
        × (lt ctx.high_profit_pct (activation_pct cfg ctx) ≡ false)
        × (ctx.current_price
            ≼ mul ctx.high_watermark (sub (whole 1) (div (drop_pct cfg regime) (whole 100))))
        × (cfg.trailing_min_profit_pct ≼ ctx.profit_pct)

    -- The profit is not below the target of the position's scale-out level.
    pub record IsReached : Type 0 where
      pub on : cfg.scale_out_enabled ≡ true
      pub all_levels : List (F × F)
      pub parsed : get_scale_out_levels cfg regime ≡ some all_levels
      pub target : F
      pub share : F
      pub at_level : get_elem? all_levels ctx.scale_out_level ≡ some (target, share)
      pub reached : lt ctx.profit_pct target ≡ false

    -- an RSI that is known and not below the threshold
    abbrev pub IsOverbought : Option F → Type 0
    IsOverbought none = ⊥
    IsOverbought (some rsi) = cfg.rsi_overbought_threshold ≼ rsi

    -- What each reason says of the position.
    abbrev pub Grounds : SellReason → Type 0
    Grounds SellReason.stop_loss =
        (ctx.profit_pct ≼ minus 10 0)
        ⊎ (ctx.current_price ≼ sub ctx.buy_price (mul ctx.atr (atr_mult cfg ctx macro_stop_mult)))
        ⊎ (ctx.profit_pct ≼ fixed_threshold cfg ctx.holding_days macro_stop_mult regime)
    Grounds SellReason.profit_floor =
        (ctx.profit_floor_active ≡ true) × (ctx.profit_pct ≺ ctx.profit_floor_level)
    Grounds SellReason.breakeven_stop =
        (cfg.breakeven_activation_pct ≼ ctx.high_profit_pct)
        × (ctx.profit_pct ≺ cfg.breakeven_floor_pct)
    Grounds SellReason.trailing_stop =
        IsLocked cfg.profit_lock_l2_mult cfg.profit_lock_l2_min cfg.profit_lock_l2_max
          cfg.profit_lock_l2_floor
        ⊎ IsLocked cfg.profit_lock_l1_mult cfg.profit_lock_l1_min cfg.profit_lock_l1_max
            cfg.profit_lock_l1_floor
        ⊎ IsTrailed
    Grounds SellReason.profit_target =
        IsReached ⊎ ((cfg.trailing_enabled ≡ false) × (cfg.profit_target_pct ≼ ctx.profit_pct))
    Grounds SellReason.rsi_overbought =
        IsOverbought ctx.rsi
        × (ctx.rsi_sold ≡ false)
        × (cfg.rsi_min_profit_pct ≼ ctx.profit_pct)
        × ((cfg.trailing_enabled && le cfg.trailing_activation_pct ctx.high_profit_pct) ≡ false)
    Grounds SellReason.death_cross =
        (ctx.death_cross ≡ true)
        × (ctx.profit_pct ≺ minus 1 0)
        × ((cfg.death_cross_bear_only && is_bull regime) ≡ false)
    Grounds SellReason.time_exit = cfg.max_holding_days ≤ℤ ctx.holding_days
    Grounds SellReason.risk_off = ⊥
    Grounds SellReason.manual = ⊥
    Grounds SellReason.forced_liquidation = ⊥

    abbrev HasGrounds : ExitSignal F → Type 0
    HasGrounds s = Grounds s.reason

    scale_out_at-HasGrounds :
        (all_levels : List (F × F)) (o : Option (F × F))
        → cfg.scale_out_enabled ≡ true
        → get_scale_out_levels cfg regime ≡ some all_levels
        → get_elem? all_levels ctx.scale_out_level ≡ o
        → Speaks HasGrounds (scale_out_at cfg ctx o)
    unfolding scale_out_at scale_out_rest
    scale_out_at-HasGrounds all_levels none on parsed at = tt
    scale_out_at-HasGrounds all_levels (some (target, share)) on parsed at =
        elim (Bool-cases (lt ctx.profit_pct target)) [
          | inl e ↦ rw e tt
          | inr reached ↦
              let ground_of : IsReached = record {
                on = on;
                all_levels = all_levels;
                parsed = parsed;
                target = target;
                share = share;
                at_level = at;
                reached = reached;
              } in
              rw reached (ground (arith, ground_of))
        ]

    check_scale_out-HasGrounds : Speaks HasGrounds (check_scale_out cfg ctx regime)
    unfolding check_scale_out scale_out_from
    check_scale_out-HasGrounds = elim (Bool-cases cfg.scale_out_enabled) [
      | inl on ↦ elim (Option-cases (get_scale_out_levels cfg regime)) [
        | inl e ↦ simp (on, e) tt
        | inr (ls, e) ↦ simp (on, e) (scale_out_at-HasGrounds ls _ on e refl)
      ]
      | inr off ↦ simp off tt
    ]

    rsi_overbought_at-HasGrounds :
        (o : Option F)
        → ctx.rsi ≡ o
        → ctx.rsi_sold ≡ false
        → Speaks HasGrounds (rsi_overbought_at cfg ctx o)
    unfolding rsi_overbought_at
    rsi_overbought_at-HasGrounds none e h = tt
    rsi_overbought_at-HasGrounds (some r) e h = rw e (ground arith)

    checks-HasGrounds : All (Speaks HasGrounds) (checks cfg ctx regime macro_stop_mult)
    unfolding checks
    checks-HasGrounds =
        (unfold check_hard_stop in ground arith)
        ⨾ (unfold check_profit_floor in ground arith)
        ⨾ (unfold check_profit_lock in ground arith)
        ⨾ (unfold check_breakeven_stop in ground arith)
        ⨾ (unfold check_atr_stop in ground arith)
        ⨾ (unfold check_fixed_stop in ground arith)
        ⨾ (unfold check_trailing_take_profit in ground arith)
        ⨾ check_scale_out-HasGrounds
        ⨾ (unfold check_rsi_overbought in ground (arith, rsi_overbought_at-HasGrounds ctx.rsi refl))
        ⨾ (unfold check_profit_target in ground arith)
        ⨾ (unfold check_death_cross in ground arith)
        ⨾ (unfold check_time_exit in ground arith)
        ⨾ tt

    -- The reason of a verdict holds of the position. A stop loss is at or below -10, the ATR stop or
    -- the threshold of the fixed stop; a profit floor is active and missed; a breakeven stop was
    -- armed by the high profit and its floor missed; a trailing stop is one of the two profit locks
    -- or the armed trailing stop hit with enough profit; a profit target is a scale-out that is on,
    -- with a profit not below the target of the position's level, or the fixed target with the
    -- trailing stop off; an overbought RSI is known and at or above the threshold, and is sold once,
    -- at enough profit, and not where the high profit arms the trailing stop; a death cross is one,
    -- below -1, and outside bull markets where the settings say so; a time exit has reached the
    -- maximum of days. The reasons of other services are never given.
    pub evaluate_exit-Grounds :
        (s : ExitSignal F)
        → evaluate_exit cfg ctx regime macro_stop_mult ≡ signal s
        → Grounds s.reason
    unfolding evaluate_exit
    evaluate_exit-Grounds s e =
        subst (Speaks HasGrounds) e
          (first_signal-Speaks HasGrounds (checks cfg ctx regime macro_stop_mult) checks-HasGrounds)
