-- ===== src/Seller/Cooldown.antt =====
-- The cooldowns after a sale in prime_jennie/services/seller/executor.py.
use prime_jennie.Prelude.{
  ◌≡◌, refl, Bool, true, false, not, Option, none, some, List, [], ◌∷◌, String, if◌then◌else◌,
}
use prime_jennie.Prelude.Int.{ℤ}
use prime_jennie.Float.{Float}
use prime_jennie.Services.Calls.{OrderResult, Key, Call, Position, History, Env}
use prime_jennie.Services.Action.{Action, ok, pure, ask}
use prime_jennie.Services.Keeps.{
  Leads, Keeps, Keeps-pure, Keeps-if, Keeps-attempt, Leads-attempt, Leads-ask,
}
use prime_jennie.Seller.Types.{no_sale, SellOrder, SellerConfig, SellResult}
use prime_jennie.Seller.Steps.{get_positions, acquire_lock, release_lock}
use prime_jennie.Seller.Execute.{
  execute_sell, if_locked, with_position, if_not_stopped, if_open, process_signal,
}
use prime_jennie.Services.Gives.{
  Holds-ok, Gives, Any, Gives-Leads, Gives-pure, Gives-if, Gives-finally, Gives-after, Gives-bind,
}
use prime_jennie.Services.Keeps.{Keeps-ask, Leads-ask}
use prime_jennie.Prelude.{◌⨾◌, All, ◌⊎◌, inl, inr}
use prime_jennie.Prelude.Int.{pos, ◌*ℤ◌, leb_ℤ, min_ℤ}
use prime_jennie.Seller.Types.{is_cooldown_reason, success}
use prime_jennie.Seller.Steps.{set_cooldown, set_sell_cooldown, cleanup_position_state}
use prime_jennie.Seller.Confirm.{after_sale, price_or_signal, is_dry}
use prime_jennie.Seller.Execute.{
  settle, accepted, place_order, dry_sale, real_sale, sell_at, priced_sale, sell_shares,
}

-- The call was made.
abbrev pub Asked : Call → History → Type 0
Asked c [] = ⊥
Asked c (e ∷ h) = (e.call ≡ c) ⊎ Asked c h

module _ (cfg : SellerConfig) (order : SellOrder) where
  abbrev day_long : Call
  day_long = Call.redis_setex (Key.sell_cooldown order.stock_code) (pos 86_400)

  abbrev days_long : Call
  days_long =
      Call.redis_setex (Key.stoploss_cooldown order.stock_code)
        (cfg.stoploss_cooldown_days *ℤ pos 86_400)

  -- The cooldowns that a sale sets.
  abbrev pub cooldowns : List Call
  cooldowns =
      if is_cooldown_reason order.sell_reason then day_long ∷ days_long ∷ [] else day_long ∷ []

module _ {F : Type 0} (env : Env F) where
  Asked-ask : (c d : Call) → Keeps (Asked c) (ask env d)
  Asked-ask c d = Keeps-ask env d (λ h b p. inr p)

  ask-Asked : (P : History → Type 0) (c : Call) → Leads P (Asked c) (ask env c)
  ask-Asked P c = Leads-ask env {P = P} {Q = Asked c} c (λ h b p. inl refl)

  module _ ⦃num : Float F⦄ (cfg : SellerConfig) (order : SellOrder) where
    -- The cooldown of a day was set, and that of several days if the reason asks for it.
    abbrev Cooling : History → Type 0
    Cooling h =
        Asked (day_long cfg order) h
        × (is_cooldown_reason order.sell_reason ≡ true → Asked (days_long cfg order) h)

    abbrev Long : History → Type 0
    Long h = is_cooldown_reason order.sell_reason ≡ true → Asked (days_long cfg order) h

    Long-ask : (d : Call) → Keeps Long (ask env d)
    Long-ask d = Keeps-ask env d (λ h b p e. inr (p e))

    Cooling-ask : (d : Call) → Keeps Cooling (ask env d)
    Cooling-ask d = Keeps-ask env d (λ h b p. (inr p.0, λ e. inr (p.1 e)))

    set_cooldown-Leads :
        Leads Any (Asked (days_long cfg order)) (set_cooldown env cfg order.stock_code)
    unfolding set_cooldown
    set_cooldown-Leads =
        Leads-attempt (ask env (days_long cfg order)) (pure tt)
          (ask-Asked Any (days_long cfg order)) (Keeps-pure tt)

    set_sell_cooldown-Leads : Leads Long Cooling (set_sell_cooldown env order.stock_code)
    unfolding set_sell_cooldown
    set_sell_cooldown-Leads =
        Leads-attempt (ask env (day_long cfg order)) (pure tt)
          (Leads-ask env {P = Long} {Q = Cooling} (day_long cfg order)
            (λ h b p. (inl refl, λ e. inr (p e))))
          (Keeps-pure tt)

    cleanup_position_state-Keeps : Keeps Cooling (cleanup_position_state env order.stock_code)
    unfolding cleanup_position_state
    cleanup_position_state-Keeps =
        let c = Call.redis_clear order.stock_code in
        Keeps-attempt (ask env c) (pure tt) (Cooling-ask c) (Keeps-pure tt)

    -- an action that leads to `R` if the test holds
    when-Leads :
        {R : History → Type 0} (b : Bool) (m : Action (Unit {0}))
        → Leads Any R m
        → Leads Any (λ h. b ≡ true → R h) (if b then m else pure tt)
    when-Leads true m k = record { at = λ h p e. k.at h tt }
    when-Leads false m k = record { at = λ h p e. cc }

    -- a success is followed by the cooldowns
    abbrev Cooled : SellResult F → History → Type 0
    Cooled r h = r.status ≡ success → Cooling h

    module _ (position : Position) where
      after_sale-Gives :
          (sell_qty : ℤ) → Gives Any (λ _. Cooling) (after_sale env cfg order position sell_qty)
      unfolding after_sale
      after_sale-Gives sell_qty =
          Gives-after _ _
            (Gives-Leads _ (when-Leads (is_cooldown_reason order.sell_reason) _ set_cooldown-Leads))
            (λ _.
              Gives-after (set_sell_cooldown env order.stock_code) _
                (Gives-Leads _ set_sell_cooldown-Leads)
                (λ _. Gives-Leads _ (
                  Keeps-if (leb_ℤ position.quantity sell_qty)
                    (cleanup_position_state env order.stock_code) (pure tt)
                    (λ _. cleanup_position_state-Keeps) (λ _. Keeps-pure tt))))

      settle-Gives :
          (order_no : String) (price : ℤ) (pct : F) (done : Option (ℤ × ℤ))
          → Gives Any Cooled (settle env cfg order position order_no price pct done)
      unfolding settle no_sale
      settle-Gives order_no price pct none = Gives-pure _ (λ h p e. cc)
      settle-Gives order_no price pct (some (q, sold_at)) =
          Gives-after _ _ (after_sale-Gives q) (λ _. Gives-pure _ (λ h p e. p))

      accepted-Gives :
          (q price : ℤ) (pct : F) (result : Option OrderResult)
          → Gives Any Cooled (accepted env cfg order position q price pct result)
      unfolding accepted no_sale
      accepted-Gives q price pct none = Gives-pure _ (λ h p e. cc)
      accepted-Gives q price pct (some r) =
          Gives-if (not r.success) _ _ (λ _. Gives-pure _ (λ h p e. cc))
            (λ _. Gives-bind _ _ (λ done. settle-Gives _ price pct done))

      chosen-Gives :
          (dry : Bool) (q price : ℤ) (pct : F)
          → Gives Any Cooled
              ((if dry then dry_sale env cfg else real_sale env cfg) order position q price pct)
      unfolding dry_sale real_sale
      chosen-Gives true q price pct =
          Gives-after _ _ (after_sale-Gives q) (λ _. Gives-pure _ (λ h p e. p))
      chosen-Gives false q price pct =
          Gives-bind (place_order env cfg order q) _ (accepted-Gives q price pct)

      priced_sale-Gives :
          (q price : ℤ) → Gives Any Cooled (priced_sale env cfg order position q price)
      unfolding priced_sale sell_at no_sale
      priced_sale-Gives q price =
          Gives-if (leb_ℤ price (pos 0)) _ _ (λ _. Gives-pure _ (λ h p e. cc))
            (λ _. Gives-bind (is_dry env cfg) _ (λ dry. chosen-Gives dry q price _))

      execute_sell-Gives : Gives Any Cooled (execute_sell env cfg order position)
      unfolding execute_sell sell_shares no_sale
      execute_sell-Gives =
          let q = min_ℤ order.quantity position.quantity in
          Gives-if (leb_ℤ q (pos 0)) _ _ (λ _. Gives-pure _ (λ h p e. cc))
            (λ _. Gives-bind (price_or_signal env cfg order) _ (λ price. priced_sale-Gives q price))

      release_lock-Cooled :
          (r : SellResult F) → Keeps (Cooled r) (release_lock env order.stock_code)
      unfolding release_lock
      release_lock-Cooled r =
          let c = Call.redis_delete (Key.lock_sell order.stock_code) in
          Keeps-attempt (ask env c) (pure tt)
            (Keeps-ask env {P = Cooled r} c (λ h b p e. (inr (p e).0, λ l. inr ((p e).1 l))))
            (Keeps-pure tt)

      if_locked-Gives : (b : Bool) → Gives Any Cooled (if_locked env cfg order position b)
      unfolding if_locked no_sale
      if_locked-Gives true = Gives-finally _ _ execute_sell-Gives release_lock-Cooled
      if_locked-Gives false = Gives-pure _ (λ h p e. cc)

    with_position-Gives : (p : Option Position) → Gives Any Cooled (with_position env cfg order p)
    unfolding with_position no_sale
    with_position-Gives none = Gives-pure _ (λ h p e. cc)
    with_position-Gives (some p) =
        Gives-bind (acquire_lock env order.stock_code) _ (if_locked-Gives p)

    process_signal-Cooled : Gives Any Cooled (process_signal env cfg order)
    unfolding process_signal if_open if_not_stopped no_sale
    process_signal-Cooled = Gives-bind _ _ (λ now.
        Gives-if (not now) _ _ (λ _. Gives-pure _ (λ h p e. cc))
          (λ _. Gives-bind _ _ (λ stopped.
            Gives-if stopped _ _ (λ _. Gives-pure _ (λ h p e. cc))
              (λ _. Gives-bind (get_positions env) _ (λ ps. with_position-Gives _)))))

    cooling-All :
        (b : Bool) (h : History)
        → Asked (day_long cfg order) h
        → (b ≡ true → Asked (days_long cfg order) h)
        → All
            (λ c. Asked c h)
            (if b then day_long cfg order ∷ days_long cfg order ∷ [] else day_long cfg order ∷ [])
    cooling-All true h p q = p ⨾ q refl ⨾ tt
    cooling-All false h p q = p ⨾ tt

    -- Where a signal ends with success, dry or real, every cooldown was asked for: that of a day on the
    -- stock, and for a stop loss, a death cross or a break-even stop also that of several days.
    pub process_signal-Asked :
        (h : History) (r : SellResult F)
        → (process_signal env cfg order h).0 ≡ ok r
        → r.status ≡ success
        → All (λ c. Asked c (process_signal env cfg order h).1) (cooldowns cfg order)
    process_signal-Asked h r e s =
        let c =
          Holds-ok Cooled (process_signal env cfg order h) r (process_signal-Cooled.at h tt) e s in
        cooling-All (is_cooldown_reason order.sell_reason) _ c.0 c.1
