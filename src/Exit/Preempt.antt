-- ===== src/Exit/Preempt.antt =====
-- The last of the rules: what `evaluate_exit` never keeps.
use prime_jennie.Prelude.{
  ◌≡◌, ◌≢◌, refl, Bool-cases, inl, inr, Option-cases, true, Option, none, some, List, [], ◌∷◌, All,
  ◌⨾◌, arith,
}
use prime_jennie.Prelude.Int.{◌≤ℤ◌}
use prime_jennie.Enums.{MarketRegime}
use prime_jennie.Float.{Float}
use prime_jennie.Config.Sell.{SellConfig}
use prime_jennie.Config.Levels.{get_scale_out_levels}
use prime_jennie.Exit.Signal.{PositionContext, Outcome, quiet, signal, raises}
use prime_jennie.Exit.Stops.{
  check_hard_stop, check_profit_floor, check_profit_lock, check_breakeven_stop, check_atr_stop,
  check_fixed_stop,
}
use prime_jennie.Exit.Profits.{
  check_trailing_take_profit, scale_out_rest, scale_out_at, scale_out_from, check_scale_out,
  rsi_overbought_at, check_rsi_overbought, check_profit_target, check_death_cross, check_time_exit,
}
use prime_jennie.Exit.Evaluate.{first_signal, checks, evaluate_exit}
use prime_jennie.Exit.Priority.{quiet_at, checks-Sells}
use prime_jennie.Exit.Reasons.{evaluate_exit-IsShare}

-- Where the verdict raises, one of the rules does.
raised_by :
    {F : Type 0} (P : Type 0) (os : List (Outcome F))
    → All (λ o. o ≡ raises → P) os
    → first_signal os ≡ raises
    → P
unfolding first_signal
raised_by P [] h e = absurd (ground (arith, e))
raised_by P (quiet ∷ rest) h e = raised_by P rest h.1 e
raised_by P (raises ∷ rest) h e = h.0 refl
raised_by P (signal s ∷ rest) h e = elim (Bool-cases s.should_sell) [
  | inl sold ↦ absurd (ground (arith, e, sold))
  | inr kept ↦ raised_by P rest h.1 (ground (arith, e, kept))
]

module _ {F : Type 0} ⦃num : Float F⦄ (cfg : SellConfig F) (ctx : PositionContext F)
    (regime : MarketRegime) where
  -- The settings of the scale-outs, which are on, cannot be read.
  abbrev pub IsUnreadable : Type 0
  IsUnreadable = (cfg.scale_out_enabled ≡ true) × (get_scale_out_levels cfg regime ≡ none)

  -- a signal to sell, or the exception of levels that cannot be read
  abbrev pub IsDecided : Outcome F → Type 0
  IsDecided quiet = ⊥
  IsDecided raises = IsUnreadable
  IsDecided (signal s) = s.should_sell ≡ true

  scale_out_at_calm : (o : Option (F × F)) → scale_out_at cfg ctx o ≢ raises
  unfolding scale_out_at scale_out_rest
  scale_out_at_calm none e = ground (arith, e)
  scale_out_at_calm (some p) e = ground (arith, e)

  check_scale_out_raises : check_scale_out cfg ctx regime ≡ raises → IsUnreadable
  unfolding check_scale_out scale_out_from
  check_scale_out_raises e = elim (Bool-cases cfg.scale_out_enabled) [
    | inl on ↦ elim (Option-cases (get_scale_out_levels cfg regime)) [
      | inl h ↦ (on, h)
      | inr (ls, h) ↦ absurd (ground (arith, e, on, h, scale_out_at_calm _))
    ]
    | inr off ↦ absurd (ground (arith, e, off))
  ]

  rsi_overbought_at_calm : (o : Option F) → rsi_overbought_at cfg ctx o ≢ raises
  unfolding rsi_overbought_at
  rsi_overbought_at_calm none e = ground (arith, e)
  rsi_overbought_at_calm (some r) e = ground (arith, e)

  module _ (macro_stop_mult : F) where
    only_scale_out_raises :
        All (λ o. o ≡ raises → IsUnreadable) (checks cfg ctx regime macro_stop_mult)
    unfolding checks
    only_scale_out_raises =
        (λ e. absurd (unfold check_hard_stop in ground (arith, e)))
        ⨾ (λ e. absurd (unfold check_profit_floor in ground (arith, e)))
        ⨾ (λ e. absurd (unfold check_profit_lock in ground (arith, e)))
        ⨾ (λ e. absurd (unfold check_breakeven_stop in ground (arith, e)))
        ⨾ (λ e. absurd (unfold check_atr_stop in ground (arith, e)))
        ⨾ (λ e. absurd (unfold check_fixed_stop in ground (arith, e)))
        ⨾ (λ e. absurd (unfold check_trailing_take_profit in ground (arith, e)))
        ⨾ check_scale_out_raises
        ⨾ (λ e.
            absurd
              (unfold check_rsi_overbought in ground (arith, e, rsi_overbought_at_calm ctx.rsi)))
        ⨾ (λ e. absurd (unfold check_profit_target in ground (arith, e)))
        ⨾ (λ e. absurd (unfold check_death_cross in ground (arith, e)))
        ⨾ (λ e. absurd (unfold check_time_exit in ground (arith, e)))
        ⨾ tt

    decided :
        (o : Outcome F)
        → evaluate_exit cfg ctx regime macro_stop_mult ≡ o
        → evaluate_exit cfg ctx regime macro_stop_mult ≢ quiet
        → IsDecided o
    unfolding evaluate_exit
    decided quiet e h = h e
    decided raises e h =
        raised_by IsUnreadable (checks cfg ctx regime macro_stop_mult) only_scale_out_raises e
    decided (signal s) e h = (evaluate_exit-IsShare cfg ctx regime macro_stop_mult s e).0

    never_quiet :
        cfg.max_holding_days ≤ℤ ctx.holding_days
        → evaluate_exit cfg ctx regime macro_stop_mult ≢ quiet
    unfolding evaluate_exit checks
    never_quiet h e = late (
        quiet_at (checks cfg ctx regime macro_stop_mult)
          (checks-Sells cfg ctx regime macro_stop_mult) e 11 _ refl)
      where
        late : check_time_exit cfg ctx ≢ quiet
        late q = unfold check_time_exit in ground arith

    -- From the maximum of holding days on the verdict is a signal to sell, or else the scale-outs
    -- are on and their levels in the settings cannot be read, which raises.
    pub evaluate_exit-IsDecided :
        cfg.max_holding_days ≤ℤ ctx.holding_days
        → IsDecided (evaluate_exit cfg ctx regime macro_stop_mult)
    evaluate_exit-IsDecided h =
        decided (evaluate_exit cfg ctx regime macro_stop_mult) refl (never_quiet h)
