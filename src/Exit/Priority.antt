-- ===== src/Exit/Priority.antt =====
-- The loop of `evaluate_exit`: the rules in their order, and what a verdict says of each of them.
use prime_jennie.Prelude.{
  Bool, false, if◌then◌else◌, ℕ, zero, suc, get_elem?, ◌≡◌, true, List, [], ◌∷◌, All, ◌⨾◌, arith,
  Option, none, some,
}
use prime_jennie.Enums.{MarketRegime}
use prime_jennie.Float.{Float}
use prime_jennie.Config.Sell.{SellConfig}
use prime_jennie.Config.Levels.{get_scale_out_levels}
use prime_jennie.Exit.Signal.{ExitSignal, PositionContext, Outcome, quiet, signal, raises}
use prime_jennie.Exit.Stops.{
  check_hard_stop, check_profit_floor, check_profit_lock, check_breakeven_stop, check_atr_stop,
  check_fixed_stop,
}
use prime_jennie.Exit.Profits.{
  check_trailing_take_profit, scale_out_at, scale_out_from, check_scale_out, rsi_overbought_at,
  check_rsi_overbought, check_profit_target, check_death_cross, check_time_exit,
}
use prime_jennie.Exit.Evaluate.{first_signal, checks, evaluate_exit}

-- A rule that speaks asks for a sale.
abbrev pub Sells : {F : Type 0} → Outcome F → Type 0
Sells quiet = Unit
Sells raises = Unit
Sells (signal s) = s.should_sell ≡ true

-- What a signal must satisfy, if there is one.
abbrev pub Speaks : {F : Type 0} → (ExitSignal F → Type 0) → Outcome F → Type 0
Speaks P quiet = Unit
Speaks P raises = Unit
Speaks P (signal s) = P s

-- The verdict on a list of rules: that of the first one that is not quiet.
pub data FirstOf {F : Type 0} : List (Outcome F) → Outcome F → Type 0 where
  none_left : FirstOf [] quiet
  passed : {rest : List (Outcome F)} {o : Outcome F} → FirstOf rest o → FirstOf (quiet ∷ rest) o
  found : {rest : List (Outcome F)} (s : ExitSignal F) → FirstOf (signal s ∷ rest) (signal s)
  failed : {rest : List (Outcome F)} → FirstOf (raises ∷ rest) raises

module _ {F : Type 0} where
  first_signal-FirstOf : (os : List (Outcome F)) → All Sells os → FirstOf os (first_signal os)
  unfolding first_signal
  first_signal-FirstOf [] h = none_left
  first_signal-FirstOf (quiet ∷ rest) h = passed (first_signal-FirstOf rest h.1)
  first_signal-FirstOf (raises ∷ rest) h = failed
  first_signal-FirstOf (signal s ∷ rest) h = simp h.0 (found s)

  -- If the verdict is quiet, so is every rule.
  pub quiet_at :
      (os : List (Outcome F))
      → All Sells os
      → first_signal os ≡ quiet
      → (n : ℕ) (o : Outcome F) → get_elem? os n ≡ some o
      → o ≡ quiet
  unfolding first_signal
  quiet_at [] h e n o at = cc
  quiet_at (quiet ∷ rest) h e zero o at = cc
  quiet_at (quiet ∷ rest) h e (suc n) o at = quiet_at rest h.1 e n o at
  quiet_at (raises ∷ rest) h e n o at = cc
  quiet_at (signal s ∷ rest) h e n o at = ground arith

  -- What holds of every signal of the rules holds of the verdict.
  pub first_signal-Speaks :
      (P : ExitSignal F → Type 0) (os : List (Outcome F))
      → All (Speaks P) os
      → Speaks P (first_signal os)
  unfolding first_signal
  first_signal-Speaks P [] h = tt
  first_signal-Speaks P (quiet ∷ rest) h = first_signal-Speaks P rest h.1
  first_signal-Speaks P (raises ∷ rest) h = tt
  first_signal-Speaks P (signal s ∷ rest) h =
      speaks_if s.should_sell s (first_signal rest) h.0 (first_signal-Speaks P rest h.1)
    where
      speaks_if :
          (b : Bool) (t : ExitSignal F) (o : Outcome F)
          → P t
          → Speaks P o
          → Speaks P (if b then signal t else o)
      speaks_if true t o p q = p
      speaks_if false t o p q = q

module _ {F : Type 0} ⦃num : Float F⦄ (cfg : SellConfig F) (ctx : PositionContext F) where
  scale_out_at-Sells : (o : Option (F × F)) → Sells (scale_out_at cfg ctx o)
  unfolding scale_out_at
  scale_out_at-Sells none = tt
  scale_out_at-Sells (some p) = ground arith

  scale_out_from-Sells : (o : Option (List (F × F))) → Sells (scale_out_from cfg ctx o)
  unfolding scale_out_from
  scale_out_from-Sells none = tt
  scale_out_from-Sells (some levels) = scale_out_at-Sells _

  rsi_overbought_at-Sells : (o : Option F) → Sells (rsi_overbought_at cfg ctx o)
  unfolding rsi_overbought_at
  rsi_overbought_at-Sells none = tt
  rsi_overbought_at-Sells (some r) = ground arith

  module _ (regime : MarketRegime) (macro_stop_mult : F) where
    pub checks-Sells : All Sells (checks cfg ctx regime macro_stop_mult)
    unfolding checks
    checks-Sells =
        (unfold check_hard_stop in ground arith)
        ⨾ (unfold check_profit_floor in ground arith)
        ⨾ (unfold check_profit_lock in ground arith)
        ⨾ (unfold check_breakeven_stop in ground arith)
        ⨾ (unfold check_atr_stop in ground arith)
        ⨾ (unfold check_fixed_stop in ground arith)
        ⨾ (unfold check_trailing_take_profit in ground arith)
        ⨾ (unfold check_scale_out in
            ground (arith, scale_out_from-Sells (get_scale_out_levels cfg regime)))
        ⨾ (unfold check_rsi_overbought in ground (arith, rsi_overbought_at-Sells ctx.rsi))
        ⨾ (unfold check_profit_target in ground arith)
        ⨾ (unfold check_death_cross in ground arith)
        ⨾ (unfold check_time_exit in ground arith)
        ⨾ tt

    pub evaluate_exit-FirstOf :
        FirstOf
          (checks cfg ctx regime macro_stop_mult)
          (evaluate_exit cfg ctx regime macro_stop_mult)
    unfolding evaluate_exit
    evaluate_exit-FirstOf = first_signal-FirstOf _ checks-Sells
