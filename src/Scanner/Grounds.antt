-- ===== src/Scanner/Grounds.antt =====
-- What each detector of prime_jennie/services/scanner/strategies.py says of the bars and the stock.
use mathlib.Core.List.{reverse}
use prime_jennie.Prelude.{
  ℕ, ◌≤◌, last_of, length, ◌≡◌, refl, true, false, ◌&&◌, ◌||◌, leb, if◌then◌else◌, Option, none,
  some, List, [], ◌∷◌, arith,
}
use prime_jennie.Prelude.Maybe.{◌>>=◌}
use prime_jennie.Prelude.Int.{ℤ}
use prime_jennie.Enums.{MarketRegime, SignalType, is_bull}
use prime_jennie.Float.{Float, whole, minus}
use prime_jennie.Float.Order.{◌≼◌, ◌≺◌}
use prime_jennie.Bars.{Bar}
use prime_jennie.Scanner.Times.{parse_time}
use prime_jennie.Scanner.Types.{ScannerConfig, WatchlistEntry}
use prime_jennie.Scanner.Gates.{is_bear, is_blocked}
use prime_jennie.Scanner.Averages.{but_last, closes_of, compute_sma}
use prime_jennie.Scanner.Signs.{
  IsRecent, IsCrossed, IsRise, IsContinued, IsDip, IsHighest, IsInWindow,
}
use prime_jennie.Scanner.Strategies.{
  StrategyResult, percent_over, crossing, detect_golden_cross, momentum_within, momentum_of,
  detect_momentum, price_change, continuation, detect_momentum_continuation, dip_within, dip_of,
  dip_since, detect_dip_buy, breakout_over, highest, last_close, detect_volume_breakout,
}
use prime_jennie.Scanner.Openings.{
  is_sideways, is_heated, is_old, has_run, is_off_vwap, is_convinced, conviction_at,
  detect_conviction_entry,
}

-- a result that may be an exception is borne out where it detects
abbrev pub Backed : (StrategyResult → Type 0) → Option StrategyResult → Type 0
Backed P none = Unit
Backed P (some r) = r.detected ≡ true → P r

module _ {F : Type 0} ⦃num : Float F⦄ (bars : List (Bar F)) (regime : MarketRegime)
    (entry : WatchlistEntry F) (current_price : F) (rsi : Option F) (volume_ratio vwap : F)
    (config : ScannerConfig F) (now : ℤ) (current : ℕ) where
  open num use {lit, lt, le}

  -- What each strategy says.
  abbrev pub Grounds : SignalType → Type 0
  Grounds SignalType.golden_cross =
      ((is_bull regime || is_sideways regime) ≡ true)
      × (21 ≤ length bars)
      × (lt volume_ratio (lit 15 1) ≡ false)
      × IsCrossed (compute_sma (closes_of bars) 5) (compute_sma (closes_of bars) 20)
          (compute_sma (but_last (closes_of bars)) 5) (compute_sma (but_last (closes_of bars)) 20)
  Grounds SignalType.momentum =
      (5 ≤ length bars) × IsRise (lit 15 1) config.momentum_max_gain_pct (reverse bars)
  Grounds SignalType.momentum_continuation =
      (is_bull regime ≡ true)
      × (21 ≤ length bars)
      × (lt entry.llm_score (whole 65) ≡ false)
      × IsContinued (price_change (reverse (closes_of bars))) (compute_sma (closes_of bars) 5)
          (compute_sma (closes_of bars) 20)
  Grounds SignalType.dip_buy =
      (5 ≤ length bars)
      × IsRecent now entry.scored_at
      × IsDip regime (last_of 5 bars) (last_close (reverse bars))
  Grounds SignalType.volume_breakout =
      (20 ≤ length bars)
      × (lt volume_ratio (lit 30 1) ≡ false)
      × IsHighest (but_last (last_of 20 bars)) (last_close (reverse bars))
  Grounds SignalType.watchlist_conviction =
      (config.conviction_entry_enabled ≡ true)
      × (is_blocked entry.trade_tier ≡ false)
      × (is_bear regime ≡ false)
      × ((is_sideways regime && lt entry.hybrid_score (whole 75)) ≡ false)
      × (is_old entry.scored_at now ≡ false)
      × ((le config.conviction_min_hybrid_score entry.hybrid_score
            || le config.conviction_min_llm_score entry.llm_score)
          ≡ true)
      × IsInWindow config current
      × (has_run bars current_price config ≡ false)
      × (is_off_vwap current_price vwap ≡ false)
      × (is_heated rsi ≡ false)
  Grounds SignalType.rsi_rebound = ⊥
  Grounds SignalType.orb_breakout = ⊥

  abbrev pub GroundsOf : Option SignalType → Type 0
  GroundsOf none = ⊥
  GroundsOf (some t) = Grounds t

  abbrev pub HasGrounds : StrategyResult → Type 0
  HasGrounds r = GroundsOf r.signal_type

  crossing-HasGrounds :
      (a b c d : Option F)
      → compute_sma (closes_of bars) 5 ≡ a
      → compute_sma (closes_of bars) 20 ≡ b
      → compute_sma (but_last (closes_of bars)) 5 ≡ c
      → compute_sma (but_last (closes_of bars)) 20 ≡ d
      → (is_bull regime || is_sideways regime) ≡ true
      → 21 ≤ length bars
      → (crossing volume_ratio a b c d).detected ≡ true
      → HasGrounds (crossing volume_ratio a b c d)
  unfolding crossing
  crossing-HasGrounds (some a) (some b) (some c) (some d) ea eb ec ed h k e =
      let crossed : c ≼ d
          → b ≺ a
          → IsCrossed (compute_sma (closes_of bars) 5) (compute_sma (closes_of bars) 20)
              (compute_sma (but_last (closes_of bars)) 5)
              (compute_sma (but_last (closes_of bars)) 20) =
        λ x y. rw (ea, eb, ec, ed) (x, y) in
      ground (arith, crossed)
  crossing-HasGrounds none b c d ea eb ec ed h k e = absurd (ground (arith, e))
  crossing-HasGrounds (some a) none c d ea eb ec ed h k e = absurd (ground (arith, e))
  crossing-HasGrounds (some a) (some b) none d ea eb ec ed h k e = absurd (ground (arith, e))
  crossing-HasGrounds (some a) (some b) (some c) none ea eb ec ed h k e = absurd (ground (arith, e))

  pub golden_cross-HasGrounds :
      (is_bull regime || is_sideways regime) ≡ true
      → (detect_golden_cross bars volume_ratio).detected ≡ true
      → HasGrounds (detect_golden_cross bars volume_ratio)
  unfolding detect_golden_cross
  golden_cross-HasGrounds h = ground (
    arith,
    crossing-HasGrounds (compute_sma (closes_of bars) 5) (compute_sma (closes_of bars) 20)
        (compute_sma (but_last (closes_of bars)) 5) (compute_sma (but_last (closes_of bars)) 20)
        refl refl refl refl h,
  )

  continuation-HasGrounds :
      (c : F) (a b : Option F)
      → price_change (reverse (closes_of bars)) ≡ c
      → compute_sma (closes_of bars) 5 ≡ a
      → compute_sma (closes_of bars) 20 ≡ b
      → is_bull regime ≡ true
      → 21 ≤ length bars
      → (continuation entry.llm_score (lit 50 1) c a b).detected ≡ true
      → HasGrounds (continuation entry.llm_score (lit 50 1) c a b)
  unfolding continuation
  continuation-HasGrounds c (some a) (some b) ec ea eb h k e =
      let continued : le a b ≡ false
          → lt c (lit 20 1) ≡ false
          → lt (lit 50 1) c ≡ false
          → IsContinued (price_change (reverse (closes_of bars))) (compute_sma (closes_of bars) 5)
              (compute_sma (closes_of bars) 20) =
        λ x y z. rw (ec, ea, eb) (x, y, z) in
      ground (arith, continued)
  continuation-HasGrounds c none b ec ea eb h k e = absurd (ground (arith, e))
  continuation-HasGrounds c (some a) none ec ea eb h k e = absurd (ground (arith, e))

  pub momentum_continuation-HasGrounds :
      (detect_momentum_continuation bars regime entry.llm_score (lit 50 1)).detected ≡ true
      → HasGrounds (detect_momentum_continuation bars regime entry.llm_score (lit 50 1))
  unfolding detect_momentum_continuation
  momentum_continuation-HasGrounds = ground (
    arith,
    continuation-HasGrounds (price_change (reverse (closes_of bars)))
        (compute_sma (closes_of bars) 5) (compute_sma (closes_of bars) 20) refl refl refl,
  )

  momentum_of-Backed :
      (bs : List (Bar F))
      → reverse bars ≡ bs
      → 5 ≤ length bars
      → Backed HasGrounds (momentum_of (lit 15 1) config.momentum_max_gain_pct bs)
  unfolding momentum_of momentum_within
  momentum_of-Backed (b ∷ _ ∷ _ ∷ _ ∷ b' ∷ _) e h =
      let gain = percent_over (num.div b.close b'.start) in
      let risen : lt gain (lit 15 1) ≡ false
          → lt config.momentum_max_gain_pct gain ≡ false
          → IsRise (lit 15 1) config.momentum_max_gain_pct (reverse bars) =
        λ x y. rw e (x, y) in
      ground (arith, risen)
  momentum_of-Backed [] e h = ground arith
  momentum_of-Backed (_ ∷ []) e h = ground arith
  momentum_of-Backed (_ ∷ _ ∷ []) e h = ground arith
  momentum_of-Backed (_ ∷ _ ∷ _ ∷ []) e h = ground arith
  momentum_of-Backed (_ ∷ _ ∷ _ ∷ _ ∷ []) e h = ground arith

  pub momentum-Backed :
      Backed HasGrounds (detect_momentum bars (lit 15 1) config.momentum_max_gain_pct)
  unfolding detect_momentum
  momentum-Backed = ground (arith, momentum_of-Backed (reverse bars) refl)

  dip_of-Backed :
      (bs : List (Bar F))
      → last_of 5 bars ≡ bs
      → 5 ≤ length bars
      → IsRecent now entry.scored_at
      → Backed HasGrounds (dip_of regime bs (last_close (reverse bars)))
  unfolding dip_of dip_within
  dip_of-Backed [] e h k = ground arith
  dip_of-Backed (b ∷ bs) e h k =
      let dip = percent_over (num.div (last_close (reverse bars)) (highest b.high bs)) in
      let dipped : (if is_bull regime then minus 30 1 else minus 50 1) ≼ dip
          → dip ≼ (if is_bull regime then minus 5 1 else minus 20 1)
          → IsDip regime (last_of 5 bars) (last_close (reverse bars)) =
        λ x y. rw e (x, y) in
      ground (arith, k, dipped)

  dip_since-Backed :
      (o : Option ℤ)
      → entry.scored_at ≡ o
      → 5 ≤ length bars
      → Backed HasGrounds (dip_since o now bars regime)
  unfolding dip_since
  dip_since-Backed none e h = ground arith
  dip_since-Backed (some t) e h = ground (arith, dip_of-Backed (last_of 5 bars) refl h, e)

  pub dip_buy-Backed : Backed HasGrounds (detect_dip_buy bars entry regime now)
  unfolding detect_dip_buy
  dip_buy-Backed = ground (arith, dip_since-Backed entry.scored_at refl)

  breakout_over-HasGrounds :
      (bs : List (Bar F))
      → but_last (last_of 20 bars) ≡ bs
      → 20 ≤ length bars
      → lt volume_ratio (lit 30 1) ≡ false
      → (breakout_over bs (last_close (reverse bars))).detected ≡ true
      → HasGrounds (breakout_over bs (last_close (reverse bars)))
  unfolding breakout_over
  breakout_over-HasGrounds [] e h k d = absurd (ground (arith, d))
  breakout_over-HasGrounds (b ∷ bs) e h k d =
      let over : le (last_close (reverse bars)) (highest b.high bs) ≡ false
          → IsHighest (but_last (last_of 20 bars)) (last_close (reverse bars)) =
        λ x. rw e x in
      ground (arith, over)

  pub volume_breakout-HasGrounds :
      (detect_volume_breakout bars volume_ratio (lit 30 1)).detected ≡ true
      → HasGrounds (detect_volume_breakout bars volume_ratio (lit 30 1))
  unfolding detect_volume_breakout
  volume_breakout-HasGrounds =
      ground (arith, breakout_over-HasGrounds (but_last (last_of 20 bars)) refl)

  conviction_at-HasGrounds :
      (s e : ℕ)
      → parse_time config.conviction_window_start ≡ some s
      → parse_time config.conviction_window_end ≡ some e
      → config.conviction_entry_enabled ≡ true
      → is_blocked entry.trade_tier ≡ false
      → is_convinced entry regime config now ≡ true
      → (conviction_at bars current_price vwap rsi config current s e).detected ≡ true
      → HasGrounds (conviction_at bars current_price vwap rsi config current s e)
  unfolding conviction_at is_convinced
  conviction_at-HasGrounds s e es ee h k c d =
      let window : (leb s current && leb current e) ≡ true → IsInWindow config current =
        λ i. record { start = s; end = e; start_read = es; end_read = ee; inside = i } in
      ground (arith, c, d, window)

  in_window-Backed :
      (s e : Option ℕ)
      → parse_time config.conviction_window_start ≡ s
      → parse_time config.conviction_window_end ≡ e
      → config.conviction_entry_enabled ≡ true
      → is_blocked entry.trade_tier ≡ false
      → is_convinced entry regime config now ≡ true
      → Backed HasGrounds (
          s >>= λ start.
          e >>= λ end. some (conviction_at bars current_price vwap rsi config current start end))
  in_window-Backed none e es ee h k c = tt
  in_window-Backed (some s) none es ee h k c = tt
  in_window-Backed (some s) (some e) es ee h k c = conviction_at-HasGrounds s e es ee h k c

  pub conviction-Backed :
      Backed HasGrounds
        (detect_conviction_entry bars entry current_price vwap rsi regime config now current)
  unfolding detect_conviction_entry
  conviction-Backed = ground (
    arith,
    in_window-Backed (parse_time config.conviction_window_start)
        (parse_time config.conviction_window_end) refl refl,
  )
