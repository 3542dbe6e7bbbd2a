-- ===== src/Scanner/Emits.antt =====
-- The signals that `_publish_signal` of prime_jennie/services/scanner/app.py lets out, and what waits for its
-- confirmation.
use text.Mathlib.Text.{◌==◌}
use prime_jennie.Prelude.{
  ◌≡◌, refl, Bool-cases, inl, inr, Bool, true, false, not, ◌&&◌, any, Option, none, some, String,
  if◌then◌else◌, arith,
}
use prime_jennie.Prelude.Int.{pos, ltb_ℤ, leb_ℤ, ◌+ℤ◌}
use prime_jennie.Enums.{SignalType, is_momentum}
use prime_jennie.Float.{Float}
use prime_jennie.Config.Sell.{Text}
use prime_jennie.Scanner.Types.{ScannerConfig, TradingContext, WatchlistEntry}
use prime_jennie.Scanner.Gates.{is_blocked, check_strategy_alignment}
use prime_jennie.Scanner.Detect.{Detection}
use prime_jennie.Scanner.Loop.{
  signal_name, Pending, Scanner, Emitted, Readings, is_flag, is_suppressed, assign, publish_signal,
  set_pending, signal_of, confirm_pending, emit_type, emit_detection, publish_type,
}

-- The stop flag is not read as set, and neither is the pause flag, which is not read at all where the
-- reading of the stop flag fails.
abbrev pub IsOn : Option (Option Text) → Option (Option Text) → Type 0
IsOn none pause = Unit
IsOn (some stop) pause = (is_flag (some stop) ≡ false) × (is_flag pause ≡ false)

is_suppressed-IsOn :
    (stop pause : Option (Option Text)) → is_suppressed stop pause ≡ false → IsOn stop pause
unfolding is_suppressed
is_suppressed-IsOn none pause h = tt
is_suppressed-IsOn (some stop) pause h = elim (Bool-cases (is_flag (some stop))) [
  | inl e ↦ absurd (ground (arith, h, e))
  | inr e ↦ (e, ground (arith, h, e))
]

module _ {F : Type 0} where
  -- What waits is a momentum of a stock that is not blocked.
  abbrev pub IsHeld : Option (Pending F) → Type 0
  IsHeld none = Unit
  IsHeld (some p) = (is_blocked p.entry.trade_tier ≡ false) × (is_momentum p.signal_type ≡ true)

  abbrev pub IsSound : Scanner F → Type 0
  IsSound s = (code : String) → IsHeld (s.pending_momentum code)

module _ {F : Type 0} ⦃num : Float F⦄ (config : ScannerConfig F) (readings : Readings F)
    (stock_code : String) where
  -- A published signal is one of the stock, which is not blocked, by a strategy that the context
  -- does not avoid, while trading is on and the stream takes it.
  abbrev pub IsFit : TradingContext F → Emitted F → Type 0
  IsFit ctx (Emitted.published signal) =
      (signal.stock_code ≡ stock_code)
      × (is_blocked signal.trade_tier ≡ false)
      × (any (λ s. s == signal_name signal.signal_type) ctx.strategies_to_avoid ≡ false)
      × IsOn readings.stop readings.pause
      × (readings.accepts ≡ true)
  IsFit ctx _ = Unit

  pub record Ends (ctx : TradingContext F) (m : Scanner F × Emitted F) : Type 0 where
    pub sound : IsSound m.0
    pub fit : IsFit ctx m.1

  pub ends :
      (ctx : TradingContext F) (s : Scanner F) (e : Emitted F)
      → IsSound s
      → IsFit ctx e
      → Ends ctx (s, e)
  ends ctx s e h k = record { sound = h; fit = k }

  pub if-Ends :
      (ctx : TradingContext F) (b : Bool) (m n : Scanner F × Emitted F)
      → (b ≡ true → Ends ctx m)
      → (b ≡ false → Ends ctx n)
      → Ends ctx (if b then m else n)
  if-Ends ctx true m n h k = h refl
  if-Ends ctx false m n h k = k refl

  aligned_lem :
      (name : String) (ctx : TradingContext F)
      → not (check_strategy_alignment name ctx).passed ≡ false
      → any (λ s. s == name) ctx.strategies_to_avoid ≡ false
  unfolding check_strategy_alignment
  aligned_lem name ctx h = ground (arith, h)

  pub publish_signal-Ends :
      (s : Scanner F) (entry : WatchlistEntry F) (t : SignalType) (price : F)
      → is_blocked entry.trade_tier ≡ false
      → IsSound s
      → Ends s.context (publish_signal config readings stock_code s entry t price)
  unfolding publish_signal
  publish_signal-Ends s entry t price clear sound =
      let times = assign stock_code (some readings.sent_at) s.last_signal_times in
      let signal = signal_of config readings stock_code s entry t price in
      if-Ends s.context (not (check_strategy_alignment (signal_name t) s.context).passed) _ _
        (λ _. ends s.context s Emitted.quiet sound tt)
        (λ aligned.
          if-Ends s.context (is_suppressed readings.stop readings.pause) _ _
            (λ _. ends s.context s (Emitted.suppressed signal) sound tt)
            (λ free.
              if-Ends s.context readings.accepts _ _
                (λ accepted.
                  ends s.context (record s { last_signal_times = times }) (Emitted.published signal)
                    sound
                    (
                      refl,
                      clear,
                      aligned_lem (signal_name t) s.context aligned,
                      is_suppressed-IsOn readings.stop readings.pause free,
                      accepted,
                    ))
                (λ _. ends s.context s Emitted.failed sound tt)))

  pub set_pending-IsSound :
      (s : Scanner F) (p : Option (Pending F))
      → IsHeld p
      → IsSound s
      → IsSound (set_pending config readings stock_code p s)
  set_pending-IsSound s p h sound code = ground (arith, h, sound code)

  pub confirm_pending-Ends :
      (s : Scanner F) (price : F) (p : Pending F)
      → IsHeld (some p)
      → IsSound s
      → Ends s.context (confirm_pending config readings stock_code s price p)
  unfolding confirm_pending
  confirm_pending-Ends s price p held sound =
      let waited = p.bars_waited +ℤ pos 1 in
      let gone = set_pending config readings stock_code none s in
      let still : Pending F = record p { bars_waited = waited } in
      let cleared : IsSound gone = set_pending-IsSound s none tt sound in
      if-Ends s.context (num.le p.initial_price price) _ _
        (λ _. publish_signal-Ends gone p.entry p.signal_type price held.0 cleared)
        (λ _.
          if-Ends s.context (leb_ℤ config.momentum_confirmation_bars waited) _ _
            (λ _. ends s.context gone Emitted.quiet cleared tt)
            (λ _.
              ends s.context (set_pending config readings stock_code (some still) s) Emitted.quiet
                (set_pending-IsSound s (some still) held sound) tt))

  module _ (entry : WatchlistEntry F) (price : F) where
    pub publish_type-Ends :
        (s : Scanner F) (t : Option SignalType)
        → is_blocked entry.trade_tier ≡ false
        → IsSound s
        → Ends s.context (publish_type config readings stock_code entry price s t)
    unfolding publish_type
    publish_type-Ends s none clear sound = ends s.context s _ sound tt
    publish_type-Ends s (some t) clear sound = publish_signal-Ends s entry t price clear sound

    and_right : (a b : Bool) → (a && b) ≡ true → b ≡ true
    and_right a b h = ground (arith, h)

    pub emit_type-Ends :
        (s : Scanner F) (t : Option SignalType)
        → is_blocked entry.trade_tier ≡ false
        → IsSound s
        → Ends s.context (emit_type config readings stock_code entry price s t)
    unfolding emit_type
    emit_type-Ends s none clear sound = ends s.context s _ sound tt
    emit_type-Ends s (some t) clear sound =
        if-Ends s.context (ltb_ℤ (pos 0) config.momentum_confirmation_bars && is_momentum t) _ _
          (λ e.
            let p : Pending F = record {
              signal_type = t;
              initial_price = price;
              entry = entry;
              bars_waited = pos 0;
            } in
            ends s.context (set_pending config readings stock_code (some p) s) Emitted.quiet
              (set_pending-IsSound s (some p) (clear, and_right _ (is_momentum t) e) sound) tt)
          (λ _. publish_signal-Ends s entry t price clear sound)

    pub emit_detection-Ends :
        (s : Scanner F) (d : Detection)
        → is_blocked entry.trade_tier ≡ false
        → IsSound s
        → Ends s.context (emit_detection config readings stock_code entry price s d)
    unfolding emit_detection
    emit_detection-Ends s none clear sound = ends s.context s _ sound tt
    emit_detection-Ends s (some none) clear sound = ends s.context s _ sound tt
    emit_detection-Ends s (some (some r)) clear sound =
        if-Ends s.context r.detected _ _ (λ _. emit_type-Ends s r.signal_type clear sound)
          (λ _. ends s.context s _ sound tt)
