-- ===== src/Exit/Evaluate.antt =====
-- `evaluate_exit` of prime_jennie/services/monitor/exit_rules.py.
use prime_jennie.Prelude.{List, [], ◌∷◌, if◌then◌else◌}
use prime_jennie.Enums.{MarketRegime}
use prime_jennie.Float.{Float}
use prime_jennie.Config.Sell.{SellConfig}
use prime_jennie.Exit.Signal.{PositionContext, Outcome, quiet, signal, raises}
use prime_jennie.Exit.Stops.{
  check_hard_stop, check_profit_floor, check_profit_lock, check_breakeven_stop, check_atr_stop,
  check_fixed_stop,
}
use prime_jennie.Exit.Profits.{
  check_trailing_take_profit, check_scale_out, check_rsi_overbought, check_profit_target,
  check_death_cross, check_time_exit,
}

-- The loop over the rules: the first one that asks for a sale decides, and one that raises ends it.
unfoldable pub first_signal : {F : Type 0} → List (Outcome F) → Outcome F
first_signal [] = quiet
first_signal (quiet ∷ rest) = first_signal rest
first_signal (raises ∷ rest) = raises
first_signal (signal s ∷ rest) =
    let later = first_signal rest in if s.should_sell then signal s else later

module _ {F : Type 0} ⦃num : Float F⦄ where
  unfoldable pub checks : SellConfig F → PositionContext F → MarketRegime → F → List (Outcome F)
  checks cfg ctx regime macro_stop_mult =
      check_hard_stop ctx
      ∷ check_profit_floor ctx
      ∷ check_profit_lock cfg ctx
      ∷ check_breakeven_stop cfg ctx
      ∷ check_atr_stop cfg ctx macro_stop_mult
      ∷ check_fixed_stop cfg ctx macro_stop_mult regime
      ∷ check_trailing_take_profit cfg ctx regime
      ∷ check_scale_out cfg ctx regime
      ∷ check_rsi_overbought cfg ctx
      ∷ check_profit_target cfg ctx
      ∷ check_death_cross cfg ctx regime
      ∷ check_time_exit cfg ctx
      ∷ []

  unfoldable pub evaluate_exit : SellConfig F → PositionContext F → MarketRegime → F → Outcome F
  unfolding first_signal checks
  evaluate_exit cfg ctx regime macro_stop_mult =
      first_signal (checks cfg ctx regime macro_stop_mult)
