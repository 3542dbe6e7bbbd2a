-- ===== src/Scanner/Sound.antt =====
-- What a tick publishes (prime_jennie/services/scanner/app.py), and what waits for its confirmation.
use mathlib.Core.Path.{subst}
use prime_jennie.Prelude.Maybe.{◌>>=◌}
use prime_jennie.Scanner.Times.{time_of}
use prime_jennie.Prelude.{
  ℕ, ◌≡◌, refl, sym, Bool, true, false, not, ◌||◌, Option, none, some, List, [], ◌∷◌, String, All,
  if◌then◌else◌, Bool-cases, inl, inr, arith,
}
use prime_jennie.Prelude.Int.{ℤ, pos}
use prime_jennie.Enums.{TradeTier}
use prime_jennie.Float.{Float}
use prime_jennie.Bars.{Bar, update}
use prime_jennie.Scanner.Types.{ScannerConfig, WatchlistEntry}
use prime_jennie.Scanner.Gates.{
  GateResult, within, check_stoploss_cooldown, check_sell_cooldown, is_blocked, check_trade_tier,
  first_failure, gates, run_all_gates,
}
use prime_jennie.Scanner.Strategies.{StrategyResult, missed}
use prime_jennie.Scanner.Openings.{OpeningRange, widened, detect_conviction_entry}
use prime_jennie.Scanner.Grounds.{Backed}
use prime_jennie.Scanner.Emits.{
  IsHeld, IsSound, IsFit, Ends, ends, if-Ends, confirm_pending-Ends, publish_type-Ends,
  emit_detection-Ends,
}
use prime_jennie.Scanner.Loop.{Pending, Scanner, Emitted, Readings, assign, update_opening_range}
use prime_jennie.Scanner.Tick.{
  after_gates, gated, after_orb, after_conviction, is_cool, detect, ranged, on_bar, on_entry,
  found_in, process_tick,
}

abbrev pub IsPassed : Option GateResult → Type 0
IsPassed none = ⊥
IsPassed (some r) = r.passed ≡ true

first_failure-All : (rs : List (Option GateResult)) → IsPassed (first_failure rs) → All IsPassed rs
unfolding first_failure
first_failure-All [] h = tt
first_failure-All (none ∷ rs) h = absurd h
first_failure-All (some r ∷ rs) h = elim (Bool-cases r.passed) [
  | inl e ↦ (e, first_failure-All rs (ground (arith, h, e)))
  | inr e ↦ absurd (ground (arith, h, e))
]

unnegated : (b : Bool) → not b ≡ false → b ≡ true
unnegated true h = refl
unnegated false h = absurd (ground (arith, h))

trade_tier_passed : (t : TradeTier) → (check_trade_tier t).passed ≡ true → is_blocked t ≡ false
unfolding check_trade_tier
trade_tier_passed t h = ground (arith, h)

guarded-Backed :
    (a b : Bool) (m : Option StrategyResult)
    → Backed (λ r. b ≡ false) (if a || b then some missed else m)
guarded-Backed true b m = λ h. absurd (ground (arith, h))
guarded-Backed false true m = λ h. absurd (ground (arith, h))
guarded-Backed false false none = tt
guarded-Backed false false (some r) = λ h. refl

-- a state that waits for the same as another, in the same context
abbrev IsLike : {F : Type 0} → Scanner F → Option (Scanner F) → Type 0
IsLike s none = Unit
IsLike s (some s') = IsSound s' × (s.context ≡ s'.context)

widened-IsLike :
    {F : Type 0} (s : Scanner F) (ranges : String → Option (OpeningRange F)) (a b : Option ℕ)
    (test : ℕ → ℕ → Bool)
    → IsSound s
    → IsLike s
        (a >>= λ x. b >>= λ y. some (if test x y then record s { opening_ranges = ranges } else s))
widened-IsLike s ranges none b test sound = tt
widened-IsLike s ranges (some x) none test sound = tt
widened-IsLike s ranges (some x) (some y) test sound = elim (Bool-cases (test x y)) [
  | inl e ↦ rw e (sound, refl)
  | inr e ↦ rw e (sound, refl)
]

module _ {F : Type 0} ⦃num : Float F⦄ (config : ScannerConfig F) (readings : Readings F)
    (stock_code : String) (entry : WatchlistEntry F) (price : F) (s : Scanner F)
    (sound : IsSound s) where
  after_gates-Ends :
      (o : Option GateResult)
      → (IsPassed o → is_blocked entry.trade_tier ≡ false)
      → Ends config readings stock_code s.context
          (after_gates config readings stock_code entry price s o)
  unfolding after_gates
  after_gates-Ends none h = ends config readings stock_code s.context s Emitted.failed sound tt
  after_gates-Ends (some r) h =
      if-Ends config readings stock_code s.context (not r.passed) _ _
        (λ _. ends config readings stock_code s.context s Emitted.quiet sound tt)
        (λ e.
          emit_detection-Ends config readings stock_code entry price s _ (h (unnegated r.passed e))
            sound)

  gated-Ends :
      Ends config readings stock_code s.context (gated config readings stock_code entry price s)
  unfolding gated run_all_gates gates
  gated-Ends =
      after_gates-Ends _
        (λ h. trade_tier_passed entry.trade_tier (first_failure-All _ h).1.1.1.1.1.1.1.1.1.1.0)

  after_orb-Ends :
      (o : Option StrategyResult)
      → Ends config readings stock_code s.context
          (after_orb config readings stock_code entry price s o)
  unfolding after_orb
  after_orb-Ends none = ends config readings stock_code s.context s Emitted.failed sound tt
  after_orb-Ends (some orb) =
      let stopped = ends config readings stock_code s.context s Emitted.quiet sound tt in
      if-Ends config readings stock_code s.context (not orb.detected) _ _ (λ _. gated-Ends)
        (λ _.
          if-Ends config readings stock_code s.context
            (not (is_cool config readings stock_code entry price s)) _ _ (λ _. stopped)
            (λ _.
              if-Ends config readings stock_code s.context
                (not (check_stoploss_cooldown stock_code readings.redis).passed) _ _ (λ _. stopped)
                (λ _.
                  if-Ends config readings stock_code s.context
                    (not (check_sell_cooldown stock_code readings.redis).passed) _ _ (λ _. stopped)
                    (λ _.
                      if-Ends config readings stock_code s.context
                        (not (check_trade_tier entry.trade_tier).passed) _ _ (λ _. stopped)
                        (λ e.
                          publish_type-Ends config readings stock_code entry price s orb.signal_type
                            (trade_tier_passed entry.trade_tier (unnegated _ e)) sound)))))

  after_conviction-Ends :
      (o : Option StrategyResult)
      → Backed (λ r. is_blocked entry.trade_tier ≡ false) o
      → Ends config readings stock_code s.context
          (after_conviction config readings stock_code entry price s o)
  unfolding after_conviction
  after_conviction-Ends none h = ends config readings stock_code s.context s Emitted.failed sound tt
  after_conviction-Ends (some conv) h =
      if-Ends config readings stock_code s.context (not conv.detected) _ _
        (λ _.
          if-Ends config readings stock_code s.context config.orb_enabled _ _
            (λ _. after_orb-Ends _) (λ _. gated-Ends))
        (λ e.
          if-Ends config readings stock_code s.context
            (not (is_cool config readings stock_code entry price s)) _ _
            (λ _. ends config readings stock_code s.context s Emitted.quiet sound tt)
            (λ _.
              publish_type-Ends config readings stock_code entry price s conv.signal_type
                (h (unnegated conv.detected e)) sound))

  detect-Ends :
      Ends config readings stock_code s.context (detect config readings stock_code entry price s)
  unfolding detect
  detect-Ends = after_conviction-Ends _ (
      unfold detect_conviction_entry in
      guarded-Backed (not config.conviction_entry_enabled) (is_blocked entry.trade_tier) _)

module _ {F : Type 0} ⦃num : Float F⦄ (config : ScannerConfig F) (interval : ℤ) (max_history : ℕ)
    (readings : Readings F) (stock_code : String) (price : F) where
  ranged-Ends :
      (s : Scanner F) (entry : WatchlistEntry F) (o : Option (Scanner F))
      → IsSound s
      → IsLike s o
      → Ends config readings stock_code s.context
          (ranged config interval max_history readings stock_code price entry s o)
  unfolding ranged
  ranged-Ends s entry none sound h =
      ends config readings stock_code s.context s Emitted.failed sound tt
  ranged-Ends s entry (some s') sound h =
      subst
        (λ ctx.
          Ends config readings stock_code ctx (detect config readings stock_code entry price s'))
        (sym h.1) (detect-Ends config readings stock_code entry price s' h.0)

  update_opening_range-IsLike :
      (s : Scanner F) (bar : Bar F)
      → IsSound s
      → IsLike s (update_opening_range config readings stock_code s bar)
  unfolding update_opening_range
  update_opening_range-IsLike s bar sound =
      widened-IsLike s
        (assign stock_code
          (some (widened (s.opening_ranges stock_code) bar (readings.local_date bar.timestamp)))
          s.opening_ranges)
        (time_of (pos 9) (pos 0)) (time_of (pos 9) config.orb_range_minutes)
        (λ x y. within x y (readings.local_time bar.timestamp)) sound

  on_bar-Ends :
      (entry : WatchlistEntry F) (s : Scanner F) (completed : Option (Bar F))
      (p : Option (Pending F))
      → IsHeld p
      → IsSound s
      → Ends config readings stock_code s.context
          (on_bar config interval max_history readings stock_code price entry s completed p)
  unfolding on_bar
  on_bar-Ends entry s none p held sound =
      ends config readings stock_code s.context s Emitted.quiet sound tt
  on_bar-Ends entry s (some bar) (some p) held sound =
      confirm_pending-Ends config readings stock_code s price p held sound
  on_bar-Ends entry s (some bar) none held sound =
      ranged-Ends s entry _ sound (update_opening_range-IsLike s bar sound)

  on_entry-Ends :
      (volume : ℤ) (s : Scanner F) (o : Option (WatchlistEntry F))
      → IsSound s
      → Ends config readings stock_code s.context
          (on_entry config interval max_history readings stock_code price volume s o)
  unfolding on_entry
  on_entry-Ends volume s none sound =
      ends config readings stock_code s.context s Emitted.quiet sound tt
  on_entry-Ends volume s (some entry) sound =
      let next =
        update interval max_history readings.engine_time readings.today stock_code price volume
          s.bar_engine in
      on_bar-Ends entry (record s { bar_engine = next.0 }) next.1 (s.pending_momentum stock_code)
        (sound stock_code) sound

  -- Where all that waits is a momentum of a stock that is not blocked, it is so after a tick, and a
  -- signal that the tick publishes is one of its stock, which is not blocked, by a strategy that the
  -- context does not avoid, and in the stream; and the stop flag is not read as set, and neither is
  -- the pause flag, which the code does not read where the reading of the stop flag fails.
  pub process_tick-IsSound :
      (volume : ℤ) (s : Scanner F)
      → IsSound s
      → IsSound (process_tick config interval max_history readings stock_code price volume s).0
        × IsFit config readings stock_code s.context
            (process_tick config interval max_history readings stock_code price volume s).1
  unfolding process_tick
  process_tick-IsSound volume s sound =
      let done =
        on_entry-Ends volume s
          (found_in config interval max_history readings stock_code price s.watchlist) sound in
      (done.sound, done.fit)
