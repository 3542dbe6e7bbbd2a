-- ===== src/Monitor/Pending.antt =====
-- Sales of all shares by prime_jennie/services/monitor/app.py: the flag of a sale under way.
use text.Mathlib.Text.{◌==◌}
use prime_jennie.Prelude.{
  ◌+◌, ◌≤◌, ◌≡◌, refl, Bool, true, false, not, Option, none, some, List, [], ◌∷◌, ◌++◌, String,
  if◌then◌else◌, Bool-cases, inl, inr, arith,
}
use prime_jennie.Prelude.Int.{ℤ, pos, ltb_ℤ, leb_ℤ}
use prime_jennie.Enums.{MarketRegime, SellReason}
use prime_jennie.Float.{Float, whole}
use prime_jennie.Config.Sell.{SellConfig}
use prime_jennie.Float.Order.{IsOrdered, lit-IsNumber}
use prime_jennie.Exit.Signal.{ExitSignal, PositionContext, Outcome}
use prime_jennie.Exit.Evaluate.{evaluate_exit}
use prime_jennie.Exit.Priority.{Speaks}
use prime_jennie.Exit.Reasons.{IsShare, IsPartial, evaluate_exit-IsShare}
use prime_jennie.Services.Calls.{Position}
use prime_jennie.Seller.Types.{SellOrder}
use prime_jennie.Monitor.State.{
  Monitor, Readings, Effect, Done, done, find_held, put_held, is_suppressed,
}
use prime_jennie.Monitor.Orders.{
  order_of, sell_quantity, scale_out_effect, rsi_effect, emit_sell_order, emit_forced_liquidation,
  is_forced_now,
}
use prime_jennie.Monitor.Evaluate.{
  context_of, watermark_effects, floor_effects, evaluate_at, evaluate_priced, evaluate_position,
}
use prime_jennie.Monitor.Tick.{
  snapshot_of, publish_live_snapshot, after, then_snapshot, on_verdict, context_or_default, judge,
  watch, tick_of, process_tick,
}
use prime_jennie.Monitor.Sales.{
  is_whole, full_sales, allowance, full_sales-append, Spends, idle-Spends, if-Spends, after-Spends,
  order_spent, none_free, disarm_free, snapshot_of_free, if-free,
}

module _ {F : Type 0} ⦃num : Float F⦄ (code : String) where
  open num use {of_int, lt, le}

  scale_out_effect_free :
      (c : String) (reason : SellReason) (pct : F)
      → full_sales code (scale_out_effect c reason pct ++ rsi_effect c reason) ≡ 0
  unfolding full_sales
  scale_out_effect_free c reason pct = ground arith

  -- A signal for a reason that sells all is for all.
  abbrev IsWhole : ExitSignal F → Type 0
  IsWhole signal = is_whole signal.reason ≡ true → le (whole 100) signal.quantity_pct ≡ true

  -- An order for a reason that may sell a part.
  partial_spent :
      (m : Monitor F) (order : SellOrder) (es : List (Effect F))
      → is_whole order.sell_reason ≡ false
      → full_sales code es ≡ 0
      → Spends code m (done m (Effect.publish order ∷ es))
  unfolding full_sales
  partial_spent m order es part h = record {
    spent = elim (Bool-cases (code == order.stock_code)) [
      | inl e ↦ ground (arith, e, part, h)
      | inr e ↦ ground (arith, e, h)
    ];
  }

  emit_sell_order-Spends :
      (r : Readings F) (m : Monitor F) (p : Position) (signal : ExitSignal F)
      → IsWhole signal
      → m.pending_sell p.stock_code ≡ false
      → Spends code m (emit_sell_order r m p signal)
  unfolding emit_sell_order
  emit_sell_order-Spends r m p signal all free =
      let order = order_of p signal.reason (sell_quantity p signal.quantity_pct) in
      let more =
        scale_out_effect p.stock_code signal.reason signal.quantity_pct
        ++ rsi_effect p.stock_code signal.reason in
      let more_free = scale_out_effect_free p.stock_code signal.reason signal.quantity_pct in
      if-Spends code m (is_suppressed r.stop r.pause) _ _
        (idle-Spends code m m (Effect.log_suppressed order ∷ []) false (unfold full_sales in refl)
          refl)
        (if-Spends code m (not r.accepts) _ _
          (idle-Spends code m m [] true (unfold full_sales in refl) refl)
          (elim (Bool-cases (le (whole 100) signal.quantity_pct)) [
            | inl e ↦ rw e (order_spent code m order more free more_free)
            | inr e ↦ rw e (partial_spent m order more (ground (arith, e, all)) more_free)
          ]))

  emit_forced_liquidation-Spends :
      (r : Readings F) (m : Monitor F) (p : Position)
      → m.pending_sell p.stock_code ≡ false
      → Spends code m (emit_forced_liquidation r m p)
  unfolding emit_forced_liquidation
  emit_forced_liquidation-Spends r m p free =
      let refused = idle-Spends code m m [] true (unfold full_sales in refl) refl in
      if-Spends code m (ltb_ℤ p.quantity (pos 1)) _ _ refused (
        if-Spends code m (not r.accepts) _ _ refused (
          order_spent code m (order_of p SellReason.forced_liquidation p.quantity) _ free
            (disarm_free F code r.targets_left p.stock_code)))

  on_verdict-Spends :
      (r : Readings F) (m : Monitor F) (p : Position) (o : Outcome F)
      → Speaks IsWhole o
      → m.pending_sell p.stock_code ≡ false
      → Spends code m (on_verdict r m p o)
  unfolding on_verdict
  on_verdict-Spends r m p Outcome.quiet all free =
      idle-Spends code m m [] false (unfold full_sales in refl) refl
  on_verdict-Spends r m p Outcome.raises all free =
      idle-Spends code m m [] false (unfold full_sales in refl) refl
  on_verdict-Spends r m p (Outcome.signal signal) all free =
      if-Spends code m signal.should_sell _ _ (emit_sell_order-Spends r m p signal all free)
        (idle-Spends code m m [] false (unfold full_sales in refl) refl)

  snapshot-Spends :
      (r : Readings F) (m₀ m : Monitor F) (es : List (Effect F))
      → full_sales code es + allowance code m ≤ allowance code m₀
      → Spends code m₀ (after es (publish_live_snapshot r m))
  unfolding publish_live_snapshot
  snapshot-Spends r m₀ m es h =
      elim (Bool-cases (lt (num.sub r.seconds m.last_snapshot_publish) (whole 30))) [
        | inl e ↦
            rw e
              (record { spent = omega (arith, full_sales-append code es [], none_free F code, h) })
        | inr e ↦ rw e (record {
          spent = omega (
            arith,
            full_sales-append code es (snapshot_of m.positions),
            snapshot_of_free F code m.positions,
            h,
          );
        })
      ]

  then_snapshot-Spends :
      (r : Readings F) (m : Monitor F) (d : Done F)
      → Spends code m d
      → Spends code m (then_snapshot r d)
  unfolding then_snapshot
  then_snapshot-Spends r m d s = snapshot-Spends r m d.state d.effects s.spent

  if-Whole :
      (b : Bool) (x y : List (Effect F) × Outcome F)
      → Speaks IsWhole x.1
      → Speaks IsWhole y.1
      → Speaks IsWhole (if b then x else y).1
  if-Whole true x y h k = h
  if-Whole false x y h k = k

  module _ (laws : IsOrdered num) (cfg : SellConfig F) (r : Readings F) (m : Monitor F)
      (p : Position) where
    share_IsWhole :
        (ctx : PositionContext F) (regime : MarketRegime) (signal : ExitSignal F)
        → IsShare cfg ctx regime signal
        → IsWhole signal
    share_IsWhole ctx regime signal (_, inl all) h = rw all (lit-IsNumber laws 100 0)
    share_IsWhole ctx regime signal (_, inr part) h = absurd (partial_reason signal.reason h part)
      where
        partial_reason :
            (reason : SellReason)
            → is_whole reason ≡ true
            → IsPartial cfg ctx regime reason signal.quantity_pct
            → ⊥
        partial_reason reason h part = ground (arith, h, part)

    verdict_IsWhole :
        (ctx : PositionContext F) (regime : MarketRegime) (mult : F) (o : Outcome F)
        → evaluate_exit cfg ctx regime mult ≡ o
        → Speaks IsWhole o
    verdict_IsWhole ctx regime mult Outcome.quiet e = tt
    verdict_IsWhole ctx regime mult Outcome.raises e = tt
    verdict_IsWhole ctx regime mult (Outcome.signal signal) e =
        share_IsWhole ctx regime signal (evaluate_exit-IsShare cfg ctx regime mult signal e)

    evaluate-Whole :
        (current : Option ℤ) (regime : MarketRegime) (mult : F)
        → Speaks IsWhole (evaluate_priced cfg r m p current regime mult).1
    unfolding evaluate_priced evaluate_at
    evaluate-Whole none regime mult = tt
    evaluate-Whole (some current) regime mult = if-Whole (leb_ℤ current (pos 0)) _ _ tt (
        if-Whole (le (of_int p.average_buy_price) (whole 0)) _ _ tt (
          verdict_IsWhole (context_of cfg r m p (of_int current) (of_int p.average_buy_price))
            regime mult _ refl))

    written_free :
        (price buy : F)
        → full_sales code
            (watermark_effects cfg r m p price buy ++ floor_effects cfg r m p price buy)
          ≡ 0
    unfolding full_sales
    written_free price buy = ground arith

    evaluate_free :
        (current : Option ℤ) (regime : MarketRegime) (mult : F)
        → full_sales code (evaluate_priced cfg r m p current regime mult).0 ≡ 0
    unfolding evaluate_priced evaluate_at
    evaluate_free none regime mult = none_free F code
    evaluate_free (some current) regime mult =
        if-free code (leb_ℤ current (pos 0)) _ _ (none_free F code) (
          if-free code (le (of_int p.average_buy_price) (whole 0)) _ _ (none_free F code)
            (written_free (of_int current) (of_int p.average_buy_price)))

    judge-Spends :
        (context : Option (Option (MarketRegime × F)))
        → m.pending_sell p.stock_code ≡ false
        → Spends code m (judge cfg r m p context)
    unfolding judge evaluate_position
    judge-Spends none free = idle-Spends code m m [] true (none_free F code) refl
    judge-Spends (some known) free =
        let context = context_or_default known in
        then_snapshot-Spends r m _ (
          after-Spends code m _ _ (evaluate_free p.current_price context.0 context.1)
            (on_verdict-Spends r m p _ (evaluate-Whole p.current_price context.0 context.1) free))

    watch-Spends : Spends code m (watch cfg r m p)
    unfolding watch
    watch-Spends = elim (Bool-cases (m.pending_sell p.stock_code)) [
      | inl e ↦ rw e (idle-Spends code m m [] false (none_free F code) refl)
      | inr e ↦ rw e (
          if-Spends code m (is_forced_now r) _ _ (emit_forced_liquidation-Spends r m p e)
            (judge-Spends r.context e))
    ]

  tick_of-Spends :
      (laws : IsOrdered num) (cfg : SellConfig F) (r : Readings F) (m : Monitor F) (price : F)
      (o : Option Position)
      → Spends code m (tick_of cfg r m price o)
  unfolding tick_of
  tick_of-Spends laws cfg r m price none = idle-Spends code m m [] false (none_free F code) refl
  tick_of-Spends laws cfg r m price (some p) =
      let p' = record p { current_price = some (num.truncate price) } in
      let m' = record m { positions = put_held p' m.positions } in
      record { spent = (watch-Spends laws cfg r m' p').spent }

  pub process_tick-Spends :
      (laws : IsOrdered num) (cfg : SellConfig F) (r : Readings F) (m : Monitor F) (stock : String)
      (price : F)
      → Spends code m (process_tick cfg r m stock price)
  unfolding process_tick
  process_tick-Spends laws cfg r m stock price =
      tick_of-Spends laws cfg r m price (find_held stock m.positions)
