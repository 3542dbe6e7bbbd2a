-- ===== src/Buyer/Signals.antt =====
-- What a signal leads to in prime_jennie/services/buyer/executor.py: it makes inert calls, but for the
-- lock and the order.
use prime_jennie.Prelude.{◌≡◌, refl, Bool, true, not, ◌&&◌, Option, none, some, List, String, arith}
use prime_jennie.Prelude.Int.{ℤ, pos, ◌≤ℤ◌, leb_ℤ, ◌*ℤ◌, ◌+ℤ◌}
use prime_jennie.Enums.{is_momentum}
use prime_jennie.Float.{Float}
use prime_jennie.Services.Calls.{Call, Position, OrderRequest, History, Env}
use prime_jennie.Services.Action.{pure, ask}
use prime_jennie.Services.Keeps.{
  Leads, Keeps, Keeps-pure, Leads-attempt, Leads-bind, Leads-if, Leads-weaken,
}
use prime_jennie.Services.Trace.{is_inert}
use prime_jennie.Buyer.Types.{BuySignal, BuyerConfig, value_of_all}
use prime_jennie.Buyer.Guard.{check_all, GuardResult}
use prime_jennie.Buyer.Sized.{calculate_position_size_bounds}
use prime_jennie.Buyer.Steps.{get_cash_balance, daily_prices}
use prime_jennie.Buyer.Aligned.{IsAligned, align_tick_size-IsAligned}
use prime_jennie.Buyer.Place.{
  market_buy, limit_buy, no_order, limit_price_of, wait_limit, place_limit, place_market, is_dry,
  place, place_order,
}
use prime_jennie.Buyer.Execute.{
  sizing_request, if_guarded, sized_buy, if_uncorrelated, correlation_passed, priced_buy,
  price_or_signal, execute_buy, or_etc,
}
use prime_jennie.Buyer.Calls.{
  daily_prices-Keeps, get_cash_balance-Keeps, check_all-Keeps, is_dry-Keeps, wait_limit-Keeps,
  correlation_passed-Keeps, price_or_signal-Keeps, ordered-Keeps,
}

abbrev pub HasTick : Option ℤ → Type 0
HasTick none = Unit
HasTick (some p) = IsAligned p

-- An order for the stock, of 1 to 10000 shares, at the market or at a price that is a tick.
abbrev pub IsSoundBuy : String → OrderRequest → Type 0
IsSoundBuy code r =
    (r.stock_code ≡ code) × (pos 1 ≤ℤ r.quantity) × (r.quantity ≤ℤ pos 10_000) × HasTick r.price

module _ {F : Type 0} ⦃num : Float F⦄ (env : Env F) {P Q : History → Type 0}
    (before : (c : Call) → is_inert c ≡ true → Keeps P (ask env c))
    (after : (c : Call) → is_inert c ≡ true → Keeps Q (ask env c))
    (weaken : (h : History) → P h → Q h) (corr : List ℤ → List ℤ → Option F) (cfg : BuyerConfig F)
    (signal : BuySignal F)
    (buy : (r : OrderRequest)
      → IsSoundBuy signal.stock_code r
      → Leads P Q (ask env (Call.kis_buy r))) where
  module _ (q price : ℤ) (low : pos 1 ≤ℤ q) (high : q ≤ℤ pos 10_000) where
    place_limit-Leads :
        Leads P Q (place_limit env cfg signal.stock_code q (limit_price_of env cfg price))
    unfolding place_limit limit_price_of
    place_limit-Leads =
        let limit = limit_price_of env cfg price in
        let r = limit_buy signal.stock_code q limit in
        Leads-attempt _ (pure (no_order signal.stock_code q limit))
          (Leads-bind (ask env (Call.kis_buy r)) (wait_limit env cfg signal.stock_code q limit)
            (buy r (refl, low, high, align_tick_size-IsAligned _))
            (wait_limit-Keeps env Q after cfg signal.stock_code q limit) (λ h p. p))
          (Keeps-pure _)

    place_market-Leads : Leads P Q (place_market env cfg signal.stock_code q price)
    unfolding place_market
    place_market-Leads =
        let r = market_buy signal.stock_code q in
        Leads-attempt _ (pure (no_order signal.stock_code q price))
          (Leads-bind (ask env (Call.kis_buy r)) _ (buy r (refl, low, high, tt)) (λ x. Keeps-pure x)
            (λ h p. p))
          (Keeps-pure _)

    place-Leads : (dry : Bool) → Leads P Q (place env cfg signal q price dry)
    unfolding place
    place-Leads dry =
        Leads-if dry _ _ (λ _. Leads-weaken _ (Keeps-pure _) weaken)
          (λ _.
            Leads-if (cfg.momentum_limit_order_enabled && is_momentum signal.signal_type) _ _
              (λ _. place_limit-Leads) (λ _. place_market-Leads))

    place_order-Leads : Leads P Q (place_order env cfg signal q price)
    unfolding place_order
    place_order-Leads =
        Leads-bind (is_dry env cfg) _ (is_dry-Keeps env P before cfg) place-Leads weaken

    if_guarded-Leads : (g : GuardResult) → Leads P Q (if_guarded env corr cfg signal q price g)
    unfolding if_guarded
    if_guarded-Leads g =
        Leads-if (not g.passed) _ _ (λ _. Leads-weaken _ (Keeps-pure _) weaken)
          (λ _.
            Leads-bind (place_order env cfg signal q price) _ place_order-Leads
              (ordered-Keeps env Q after cfg corr signal q price) (λ h p. p))

  sized_buy-Leads :
      (ps : List Position) (price balance q : ℤ)
      → q ≤ℤ pos 10_000
      → Leads P Q (sized_buy env corr cfg signal ps price balance q)
  unfolding sized_buy
  sized_buy-Leads ps price balance q high =
      Leads-if (leb_ℤ q (pos 0)) _ _ (λ _. Leads-weaken _ (Keeps-pure _) weaken)
        (λ some_left.
          Leads-bind
            (check_all cfg env (or_etc signal.sector_group) (q *ℤ price) balance
              (balance +ℤ value_of_all ps) ps signal.market_regime)
            _
            (check_all-Keeps env P before cfg (or_etc signal.sector_group) (q *ℤ price) balance
              (balance +ℤ value_of_all ps) ps signal.market_regime)
            (if_guarded-Leads q price (ground arith) high) weaken)

  if_uncorrelated-Leads :
      (ps : List Position) (price : ℤ) (atr : F) (passed : Bool)
      → Leads P Q (if_uncorrelated env corr cfg signal ps price atr passed)
  unfolding if_uncorrelated
  if_uncorrelated-Leads ps price atr passed =
      Leads-if (not passed) _ _ (λ _. Leads-weaken _ (Keeps-pure _) weaken)
        (λ _.
          Leads-bind (get_cash_balance env) _ (get_cash_balance-Keeps env P before)
            (λ balance.
              sized_buy-Leads ps price balance _
                (calculate_position_size_bounds
                  (sizing_request env corr cfg signal ps price atr balance)).1)
            weaken)

  priced_buy-Leads :
      (ps : List Position) (price : ℤ) → Leads P Q (priced_buy env corr cfg signal ps price)
  unfolding priced_buy
  priced_buy-Leads ps price =
      Leads-if (leb_ℤ price (pos 0)) _ _ (λ _. Leads-weaken _ (Keeps-pure _) weaken)
        (λ _.
          Leads-bind (daily_prices env signal.stock_code 30) _
            (daily_prices-Keeps env P before signal.stock_code 30)
            (λ daily.
              Leads-bind (correlation_passed env corr cfg signal ps) _
                (correlation_passed-Keeps env P before cfg corr signal ps)
                (if_uncorrelated-Leads ps price _) weaken)
            weaken)

  pub execute_buy-Leads : (ps : List Position) → Leads P Q (execute_buy env corr cfg signal ps)
  unfolding execute_buy
  execute_buy-Leads ps =
      Leads-bind (price_or_signal env corr cfg signal) _
        (price_or_signal-Keeps env P before cfg corr signal) (priced_buy-Leads ps) weaken
