-- ===== src/Buyer/Gates.antt =====
-- The gates of `process_signal` in prime_jennie/services/buyer/executor.py: inert calls only until the lock
-- is tried.
use prime_jennie.Prelude.{◌≡◌, refl, Bool, true, false, not, Option, none, some, List, length}
use prime_jennie.Prelude.Int.{ℤ, pos, leb_ℤ}
use prime_jennie.Float.{Float}
use prime_jennie.Services.Calls.{Key, Call, Position, History, Env}
use prime_jennie.Services.Action.{pure, ask, ◌>>=◌}
use prime_jennie.Services.Keeps.{
  Leads, Keeps, Keeps-pure, Keeps-if, Keeps-attempt, Keeps-bind, Leads-bind, Leads-if, Leads-weaken,
}
use prime_jennie.Services.Trace.{is_inert}
use prime_jennie.Seller.Types.{truthy}
use prime_jennie.Buyer.Types.{BuySignal, BuyerConfig}
use prime_jennie.Buyer.Steps.{
  is_market_hours, get_positions, is_emergency_stopped, check_daily_limit, acquire_lock,
}
use prime_jennie.Buyer.Execute.{
  is_blocked, holds, if_locked, if_within_limit, if_cool, if_not_stopped_out, with_positions,
  if_not_stopped, if_open, process_signal,
}

ruleset keeping = (Keeps-pure, Keeps-if, Keeps-attempt, Keeps-bind)

module _ {F : Type 0} ⦃num : Float F⦄ (env : Env F) {P Q : History → Type 0}
    (before : (c : Call) → is_inert c ≡ true → Keeps P (ask env c))
    (weaken : (h : History) → P h → Q h) (corr : List ℤ → List ℤ → Option F) (cfg : BuyerConfig F)
    (signal : BuySignal F)
    (locked : (ps : List Position)
      → is_blocked signal.trade_tier ≡ false
      → num.lt signal.hybrid_score cfg.hard_floor_score ≡ false
      → holds signal.stock_code ps ≡ false
      → leb_ℤ cfg.max_portfolio_size (pos (length ps)) ≡ false
      → Leads P Q (acquire_lock env signal.stock_code >>= if_locked env corr cfg signal ps)) where
  is_market_hours-Keeps : Keeps P (is_market_hours env)
  unfolding is_market_hours
  is_market_hours-Keeps = search (keeping, before)

  get_positions-Keeps : Keeps P (get_positions env)
  unfolding get_positions
  get_positions-Keeps =
      Keeps-attempt _ (pure none)
        (Keeps-bind (ask env Call.kis_positions) _ (before Call.kis_positions refl)
          (λ ps. Keeps-pure (some ps)))
        (Keeps-pure none)

  is_emergency_stopped-Keeps : Keeps P (is_emergency_stopped env)
  unfolding is_emergency_stopped
  is_emergency_stopped-Keeps = search (keeping, before)

  check_daily_limit-Keeps : Keeps P (check_daily_limit env cfg)
  unfolding check_daily_limit
  check_daily_limit-Keeps = search (keeping, before)

  module _ (unblocked : is_blocked signal.trade_tier ≡ false)
      (above : num.lt signal.hybrid_score cfg.hard_floor_score ≡ false) where
    module _ (ps : List Position) (new : holds signal.stock_code ps ≡ false) where
      if_within_limit-Leads :
          (within : Bool) → Leads P Q (if_within_limit env corr cfg signal ps within)
      unfolding if_within_limit
      if_within_limit-Leads within =
          Leads-if (not within) _ _ (λ _. Leads-weaken _ (Keeps-pure _) weaken)
            (λ _.
              Leads-if (leb_ℤ cfg.max_portfolio_size (pos (length ps))) _ _
                (λ _. Leads-weaken _ (Keeps-pure _) weaken)
                (λ room. locked ps unblocked above new room))

      if_cool-Leads : (cooling : Bool) → Leads P Q (if_cool env corr cfg signal ps cooling)
      unfolding if_cool
      if_cool-Leads cooling =
          Leads-if cooling _ _ (λ _. Leads-weaken _ (Keeps-pure _) weaken)
            (λ _.
              Leads-bind (check_daily_limit env cfg) _ check_daily_limit-Keeps if_within_limit-Leads
                weaken)

      if_not_stopped_out-Leads :
          (cooling : Bool) → Leads P Q (if_not_stopped_out env corr cfg signal ps cooling)
      unfolding if_not_stopped_out
      if_not_stopped_out-Leads cooling =
          let c = Call.redis_get (Key.sell_cooldown signal.stock_code) in
          Leads-if cooling _ _ (λ _. Leads-weaken _ (Keeps-pure _) weaken)
            (λ _. Leads-bind (ask env c) _ (before c refl) (λ v. if_cool-Leads (truthy v)) weaken)

    with_positions-Leads :
        (ps : Option (List Position)) → Leads P Q (with_positions env corr cfg signal ps)
    unfolding with_positions
    with_positions-Leads none = Leads-weaken _ (Keeps-pure _) weaken
    with_positions-Leads (some ps) =
        let c = Call.redis_get (Key.stoploss_cooldown signal.stock_code) in
        Leads-if (holds signal.stock_code ps) _ _ (λ _. Leads-weaken _ (Keeps-pure _) weaken)
          (λ new.
            Leads-bind (ask env c) _ (before c refl)
              (λ v. if_not_stopped_out-Leads ps new (truthy v)) weaken)

  if_not_stopped-Leads : (stopped : Bool) → Leads P Q (if_not_stopped env corr cfg signal stopped)
  unfolding if_not_stopped
  if_not_stopped-Leads stopped =
      Leads-if stopped _ _ (λ _. Leads-weaken _ (Keeps-pure _) weaken)
        (λ _.
          Leads-if (is_blocked signal.trade_tier) _ _ (λ _. Leads-weaken _ (Keeps-pure _) weaken)
            (λ unblocked.
              Leads-if (num.lt signal.hybrid_score cfg.hard_floor_score) _ _
                (λ _. Leads-weaken _ (Keeps-pure _) weaken)
                (λ above.
                  Leads-bind (get_positions env) _ get_positions-Keeps
                    (with_positions-Leads unblocked above) weaken)))

  if_open-Leads : (open_now : Bool) → Leads P Q (if_open env corr cfg signal open_now)
  unfolding if_open
  if_open-Leads open_now =
      Leads-if (not open_now) _ _ (λ _. Leads-weaken _ (Keeps-pure _) weaken)
        (λ _.
          Leads-bind (is_emergency_stopped env) _ is_emergency_stopped-Keeps if_not_stopped-Leads
            weaken)

  pub process_signal-Leads : Leads P Q (process_signal env corr cfg signal)
  unfolding process_signal
  process_signal-Leads =
      Leads-bind (is_market_hours env) _ is_market_hours-Keeps if_open-Leads weaken
