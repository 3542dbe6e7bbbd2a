-- ===== src/Buyer/Calls.antt =====
-- The calls of `_execute_buy` in prime_jennie/services/buyer/executor.py.
use prime_jennie.Prelude.{
  ℕ, ◌≡◌, refl, Bool, true, false, not, Option, none, some, List, [], ◌∷◌, String,
}
use prime_jennie.Prelude.Int.{ℤ, pos}
use prime_jennie.Enums.{SectorGroup, MarketRegime}
use prime_jennie.Float.{Float}
use prime_jennie.Services.Calls.{Key, Call, Position, DailyPrice, OrderResult, Fill, History, Env}
use prime_jennie.Services.Action.{pure, attempt, ask}
use prime_jennie.Services.Keeps.{Keeps, Keeps-pure, Keeps-if, Keeps-attempt, Keeps-bind}
use prime_jennie.Kis.Polling.{status-Keeps, confirm_order-Keeps}
use prime_jennie.Services.Trace.{is_inert}
use prime_jennie.Buyer.Types.{BuySignal, BuyerConfig}
use prime_jennie.Buyer.Guard.{get_dynamic_sector_cap, check_all}
use prime_jennie.Buyer.Steps.{
  get_cash_balance, increment_buy_count, cleanup_position_state, daily_prices,
}
use prime_jennie.Buyer.Correlation.{
  max_correlation, check_portfolio_correlation, with_candidate, check_correlation,
}
use prime_jennie.Buyer.Place.{settle_limit, wait_limit, is_dry}
use prime_jennie.Buyer.Execute.{
  confirmed, confirm_buy, settle, ordered, correlation_passed, price_or_signal,
}

ruleset keeping = (Keeps-pure, Keeps-if, Keeps-attempt, Keeps-bind)

-- A fact about the history that no call but the order can break, and that the order keeps, is kept by
-- the steps before and after the order.
module _ {F : Type 0} ⦃num : Float F⦄ (env : Env F) (P : History → Type 0)
    (inert : (c : Call) → is_inert c ≡ true → Keeps P (ask env c)) where
  pub daily_prices-Keeps : (code : String) (days : ℕ) → Keeps P (daily_prices env code days)
  unfolding daily_prices
  daily_prices-Keeps code days = search (keeping, inert)

  pub get_cash_balance-Keeps : Keeps P (get_cash_balance env)
  unfolding get_cash_balance
  get_cash_balance-Keeps =
      Keeps-attempt _ (pure (pos 0))
        (Keeps-bind (ask env Call.kis_balance) _ (inert Call.kis_balance refl) (λ b. Keeps-pure b))
        (Keeps-pure (pos 0))

  module _ (cfg : BuyerConfig F) where
    cap-Keeps : (g : SectorGroup) → Keeps P (get_dynamic_sector_cap cfg env g)
    unfolding get_dynamic_sector_cap
    cap-Keeps g =
        let c = Call.sector_cap g in
        Keeps-if (not cfg.dynamic_sector_budget_enabled) (pure none)
          (attempt (ask env c) (pure none)) (λ _. Keeps-pure none)
          (λ _. Keeps-attempt (ask env c) (pure none) (inert c refl) (Keeps-pure none))

    pub check_all-Keeps :
        (g : SectorGroup) (amount cash total : ℤ) (ps : List Position) (regime : MarketRegime)
        → Keeps P (check_all cfg env g amount cash total ps regime)
    unfolding check_all
    check_all-Keeps g amount cash total ps regime = search (keeping, cap-Keeps)

    pub is_dry-Keeps : Keeps P (is_dry env cfg)
    unfolding is_dry
    is_dry-Keeps = search (keeping, inert)

    settle_limit-Keeps :
        (code : String) (q price : ℤ) (r : OrderResult) (cancelled : Bool)
        → Keeps P (settle_limit env cfg code q price r cancelled)
    unfolding settle_limit
    settle_limit-Keeps code q price r true = Keeps-pure _
    settle_limit-Keeps code q price r false = search (keeping, confirm_order-Keeps)

    pub wait_limit-Keeps :
        (code : String) (q price : ℤ) (r : OrderResult)
        → Keeps P (wait_limit env cfg code q price r)
    unfolding wait_limit
    wait_limit-Keeps code q price r = search (keeping, inert, settle_limit-Keeps) depth 8

    module _ (corr : List ℤ → List ℤ → Option F) where
      max_correlation-Keeps :
          (code : String) (xs : List ℤ) (ps : List Position) (m : F)
          → Keeps P (max_correlation env corr code xs ps m)
      unfolding max_correlation
      max_correlation-Keeps code xs [] m = Keeps-pure m
      max_correlation-Keeps code xs (p ∷ ps) m =
          let ih = max_correlation-Keeps code xs ps in search (keeping, daily_prices-Keeps, ih)

      with_candidate-Keeps :
          (code : String) (ps : List Position) (t : F) (daily : Option (List DailyPrice))
          → Keeps P (with_candidate env corr code ps t daily)
      unfolding with_candidate check_portfolio_correlation
      with_candidate-Keeps code ps t none = Keeps-pure true
      with_candidate-Keeps code ps t (some daily) = search (keeping, max_correlation-Keeps)

      module _ (signal : BuySignal F) where
        pub correlation_passed-Keeps :
            (ps : List Position) → Keeps P (correlation_passed env corr cfg signal ps)
        unfolding correlation_passed check_correlation
        correlation_passed-Keeps [] = Keeps-pure true
        correlation_passed-Keeps (p ∷ ps) =
            search (keeping, daily_prices-Keeps, with_candidate-Keeps)

        pub price_or_signal-Keeps : Keeps P (price_or_signal env corr cfg signal)
        unfolding price_or_signal
        price_or_signal-Keeps =
            let c = Call.kis_price signal.stock_code in
            Keeps-attempt _ (pure signal.signal_price)
              (Keeps-bind (ask env c) _ (inert c refl) (λ p. Keeps-pure p)) (Keeps-pure _)

        confirmed-Keeps :
            (order_no : String) (price : ℤ) (fill : Option (Fill F))
            → Keeps P (confirmed env corr cfg signal order_no price fill)
        unfolding confirmed
        confirmed-Keeps order_no price none = search (keeping, status-Keeps, inert)
        confirmed-Keeps order_no price (some f) = search keeping

        confirm_buy-Keeps :
            (order_no : String) (q price : ℤ)
            → Keeps P (confirm_buy env corr cfg signal order_no q price)
        unfolding confirm_buy
        confirm_buy-Keeps order_no q price = search (keeping, confirm_order-Keeps, confirmed-Keeps)

        increment-Keeps : Keeps P (increment_buy_count env)
        unfolding increment_buy_count
        increment-Keeps =
            let c = Call.redis_incr Key.buy_count 86_400 in
            Keeps-attempt _ (pure tt) (Keeps-bind (ask env c) _ (inert c refl) (λ _. Keeps-pure tt))
              (Keeps-pure tt)

        cleanup-Keeps : (code : String) → Keeps P (cleanup_position_state env code)
        unfolding cleanup_position_state
        cleanup-Keeps code =
            let c = Call.redis_clear code in
            Keeps-attempt _ (pure tt) (Keeps-bind (ask env c) _ (inert c refl) (λ _. Keeps-pure tt))
              (Keeps-pure tt)

        settle-Keeps :
            (order_no : String) (done : Option (ℤ × ℤ))
            → Keeps P (settle env corr cfg signal order_no done)
        unfolding settle
        settle-Keeps order_no none = Keeps-pure _
        settle-Keeps order_no (some done) = search (keeping, increment-Keeps, cleanup-Keeps)

        pub ordered-Keeps :
            (q price : ℤ) (r : OrderResult) → Keeps P (ordered env corr cfg signal q price r)
        unfolding ordered
        ordered-Keeps q price r = search (keeping, confirm_buy-Keeps, settle-Keeps)
