-- ===== src/Seller/Calls.antt =====
-- The calls of `_execute_sell` in prime_jennie/services/seller/executor.py.
use prime_jennie.Prelude.Int.{◌*ℤ◌, pos, ◌≤ℤ◌, min_ℤ, leb_ℤ}
use prime_jennie.Seller.Types.{market_order}
use prime_jennie.Kis.Polling.{status-Keeps, confirm_order-Keeps}
use prime_jennie.Services.Trace.{is_inert}
use prime_jennie.Prelude.{
  ◌≡◌, refl, Bool, true, false, Option, none, some, String, if◌then◌else◌, arith,
}
use prime_jennie.Prelude.Int.{ℤ}
use prime_jennie.Float.{Float}
use prime_jennie.Services.Calls.{Key, Call, Position, Fill, OrderResult, History, Env}
use prime_jennie.Services.Action.{pure, ask}
use prime_jennie.Services.Keeps.{
  Leads, Keeps, Keeps-pure, Keeps-if, Keeps-attempt, Keeps-bind, Leads-attempt, Leads-bind,
  Leads-if, Leads-weaken,
}
use prime_jennie.Seller.Types.{no_sale, skipped, nothing_to_sell, SellOrder, SellerConfig}
use prime_jennie.Seller.Steps.{set_cooldown, set_sell_cooldown, cleanup_position_state}
use prime_jennie.Seller.Confirm.{price_or_signal, after_sale, is_dry, confirmed, confirm_sale}
use prime_jennie.Seller.Execute.{
  settle, accepted, place_order, dry_sale, real_sale, execute_sell, sell_at, priced_sale,
  sell_shares,
}

-- A fact about the history that no call but the order can break, and that the order keeps, is kept by
-- the whole sale.
ruleset keeping = (Keeps-pure, Keeps-if, Keeps-attempt, Keeps-bind)

module _ {F : Type 0} ⦃num : Float F⦄ (env : Env F) (P : History → Type 0)
    (inert : (c : Call) → is_inert c ≡ true → Keeps P (ask env c)) where
  module _ (cfg : SellerConfig) (order : SellOrder) (position : Position) where
    set_cooldown-Keeps : (code : String) → Keeps P (set_cooldown env cfg code)
    unfolding set_cooldown
    set_cooldown-Keeps code =
        let c =
          Call.redis_setex (Key.stoploss_cooldown code)
            (cfg.stoploss_cooldown_days *ℤ pos 86_400) in
        Keeps-attempt (ask env c) (pure tt) (inert c refl) (Keeps-pure tt)

    set_sell_cooldown-Keeps : (code : String) → Keeps P (set_sell_cooldown env code)
    unfolding set_sell_cooldown
    set_sell_cooldown-Keeps code =
        let c = Call.redis_setex (Key.sell_cooldown code) (pos 86_400) in
        Keeps-attempt (ask env c) (pure tt) (inert c refl) (Keeps-pure tt)

    cleanup_position_state-Keeps : (code : String) → Keeps P (cleanup_position_state env code)
    unfolding cleanup_position_state
    cleanup_position_state-Keeps code =
        let c = Call.redis_clear code in
        Keeps-attempt (ask env c) (pure tt) (inert c refl) (Keeps-pure tt)

    after_sale-Keeps : (sell_qty : ℤ) → Keeps P (after_sale env cfg order position sell_qty)
    unfolding after_sale
    after_sale-Keeps sell_qty =
        search (keeping, set_cooldown-Keeps, set_sell_cooldown-Keeps, cleanup_position_state-Keeps)

    confirmed-Keeps :
        (order_no : String) (price : ℤ) (fill : Option (Fill F))
        → Keeps P (confirmed env cfg order_no price fill)
    unfolding confirmed
    confirmed-Keeps order_no price none = search (keeping, status-Keeps, inert)
    confirmed-Keeps order_no price (some f) = search keeping

    confirm_sale-Keeps :
        (order_no : String) (q price : ℤ) → Keeps P (confirm_sale env cfg order order_no q price)
    unfolding confirm_sale
    confirm_sale-Keeps order_no q price = search (keeping, confirm_order-Keeps, confirmed-Keeps)

    settle-Keeps :
        (order_no : String) (price : ℤ) (pct : F) (done : Option (ℤ × ℤ))
        → Keeps P (settle env cfg order position order_no price pct done)
    unfolding settle
    settle-Keeps order_no price pct none = search keeping
    settle-Keeps order_no price pct (some d) = search (keeping, after_sale-Keeps)

    accepted-Keeps :
        (q price : ℤ) (pct : F) (result : Option OrderResult)
        → Keeps P (accepted env cfg order position q price pct result)
    unfolding accepted
    accepted-Keeps q price pct none = search keeping
    accepted-Keeps q price pct (some r) = search (keeping, confirm_sale-Keeps, settle-Keeps)

    dry_sale-Keeps : (q price : ℤ) (pct : F) → Keeps P (dry_sale env cfg order position q price pct)
    unfolding dry_sale
    dry_sale-Keeps q price pct = search (keeping, after_sale-Keeps)

    is_dry-Keeps : Keeps P (is_dry env cfg)
    unfolding is_dry
    is_dry-Keeps = search (keeping, inert)

    place_order-Leads :
        {Q : History → Type 0} (q : ℤ)
        → Leads P Q (ask env (Call.kis_sell (market_order order q)))
        → Leads P Q (place_order env cfg order q)
    unfolding place_order
    place_order-Leads q sell =
        Leads-attempt _ (pure none)
          (Leads-bind (ask env (Call.kis_sell (market_order order q))) _ sell (λ r. Keeps-pure _)
            (λ h p. p))
          (Keeps-pure _)

    price_or_signal-Keeps : Keeps P (price_or_signal env cfg order)
    unfolding price_or_signal
    price_or_signal-Keeps =
        let c = Call.kis_price order.stock_code in
        Keeps-attempt (ask env c) (pure order.current_price) (inert c refl) (Keeps-pure _)

-- A sale makes inert calls only, but for the order itself, which may lead from one fact to another.
module _ {F : Type 0} ⦃num : Float F⦄ (env : Env F) {P Q : History → Type 0}
    (before : (c : Call) → is_inert c ≡ true → Keeps P (ask env c))
    (after : (c : Call) → is_inert c ≡ true → Keeps Q (ask env c))
    (weaken : (h : History) → P h → Q h) (cfg : SellerConfig) (order : SellOrder)
    (position : Position) where
  -- The order that a sale may place.
  abbrev pub IsSound : ℤ → Type 0
  IsSound q = (pos 1 ≤ℤ q) × (q ≤ℤ order.quantity) × (q ≤ℤ position.quantity)

  module _ (q : ℤ) (sell : Leads P Q (ask env (Call.kis_sell (market_order order q)))) where
    real_sale-Leads :
        (price : ℤ) (pct : F) → Leads P Q (real_sale env cfg order position q price pct)
    unfolding real_sale
    real_sale-Leads price pct =
        Leads-bind (place_order env cfg order q) _
          (place_order-Leads env P before cfg order position q sell)
          (accepted-Keeps env Q after cfg order position q price pct) (λ h p. p)

    chosen-Leads :
        (dry : Bool) (price : ℤ) (pct : F)
        → Leads P Q
            ((if dry then dry_sale env cfg else real_sale env cfg) order position q price pct)
    chosen-Leads true price pct =
        Leads-weaken _ (dry_sale-Keeps env P before cfg order position q price pct) weaken
    chosen-Leads false price pct = real_sale-Leads price pct

    sell_at-Leads : (price : ℤ) → Leads P Q (sell_at env cfg order position q price)
    unfolding sell_at
    sell_at-Leads price =
        Leads-bind (is_dry env cfg) _ (is_dry-Keeps env P before cfg order position)
          (λ dry. chosen-Leads dry price _) weaken

    priced_sale-Leads : (price : ℤ) → Leads P Q (priced_sale env cfg order position q price)
    unfolding priced_sale
    priced_sale-Leads price =
        Leads-if (leb_ℤ price (pos 0)) _ _ (λ _. Leads-weaken _ (Keeps-pure _) weaken)
          (λ _. sell_at-Leads price)

    sell_shares-Leads : Leads P Q (sell_shares env cfg order position q)
    unfolding sell_shares
    sell_shares-Leads =
        Leads-bind (price_or_signal env cfg order) _
          (price_or_signal-Keeps env P before cfg order position) priced_sale-Leads weaken

  pub execute_sell-Leads :
      ((q : ℤ) → IsSound q → Leads P Q (ask env (Call.kis_sell (market_order order q))))
      → Leads P Q (execute_sell env cfg order position)
  unfolding execute_sell
  execute_sell-Leads sell =
      let q = min_ℤ order.quantity position.quantity in
      Leads-if (leb_ℤ q (pos 0)) (pure (no_sale skipped order nothing_to_sell))
        (sell_shares env cfg order position q) (λ _. Leads-weaken _ (Keeps-pure _) weaken)
        (λ some_left. sell_shares-Leads q (sell q (ground arith)))
