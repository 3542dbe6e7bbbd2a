-- ===== src/Scanner/Loop.antt =====
-- `BuyScanner` of prime_jennie/services/scanner/app.py: what a tick does to its state, and the signal that
-- it emits. What the methods read of the clock and of Redis is an argument; log lines are left out.
use text.Mathlib.Text.{◌==◌}
use prime_jennie.Prelude.{
  ℕ, Bool, true, false, not, ◌&&◌, Option, none, some, List, ◌∷◌, String, if◌then◌else◌,
}
use prime_jennie.Prelude.Maybe.{◌>>=◌}
use prime_jennie.Prelude.Int.{ℤ, pos, ◌+ℤ◌, ltb_ℤ, leb_ℤ}
use prime_jennie.Enums.{SignalType, is_momentum}
use prime_jennie.Float.{Float}
use prime_jennie.Config.Sell.{Text}
use prime_jennie.Bars.{Bar, Engine}
use prime_jennie.Buyer.Types.{BuySignal}
use prime_jennie.Scanner.Times.{time_of}
use prime_jennie.Scanner.Types.{ScannerConfig, TradingContext, WatchlistEntry}
use prime_jennie.Scanner.Gates.{Clock, Redis, within, check_strategy_alignment}
use prime_jennie.Scanner.Openings.{OpeningRange, widened}
use prime_jennie.Scanner.Detect.{Detection}

-- the value of a signal type, as the context names it
abbrev pub signal_name : SignalType → String
signal_name SignalType.golden_cross = "GOLDEN_CROSS"
signal_name SignalType.rsi_rebound = "RSI_REBOUND"
signal_name SignalType.momentum = "MOMENTUM"
signal_name SignalType.momentum_continuation = "MOMENTUM_CONTINUATION"
signal_name SignalType.dip_buy = "DIP_BUY"
signal_name SignalType.volume_breakout = "VOLUME_BREAKOUT"
signal_name SignalType.watchlist_conviction = "WATCHLIST_CONVICTION"
signal_name SignalType.orb_breakout = "ORB_BREAKOUT"

-- a momentum that waits for its confirmation; the time of its creation is left out, which is not read
pub record Pending (F : Type 0) : Type 0 where
  pub signal_type : SignalType
  pub initial_price : F
  pub entry : WatchlistEntry F
  pub bars_waited : ℤ

pub record Scanner (F : Type 0) : Type 0 where
  pub bar_engine : Engine F
  pub watchlist : Option (List (WatchlistEntry F))
  pub context : TradingContext F
  pub last_signal_times : String → Option F
  pub pending_momentum : String → Option (Pending F)
  pub opening_ranges : String → Option (OpeningRange F)

-- What comes of a tick: an exception, nothing, a signal that is only logged, or one that is published.
pub data Emitted (F : Type 0) : Type 0 where
  failed : Emitted F
  quiet : Emitted F
  suppressed : BuySignal F → Emitted F
  published : BuySignal F → Emitted F

-- what a tick may read: the clock of the bars, the two times of the detectors, the gates' clock, the
-- time after a publication, the time of the day and the date of a time stamp in Seoul, and Redis: the
-- lives of keys, the two flags (`none` where reading raises), and whether the stream takes a message
pub record Readings (F : Type 0) : Type 0 where
  pub engine_time : F
  pub today : String
  pub utc : ℤ
  pub seoul : ℕ
  pub clock : Clock F
  pub sent_at : F
  pub local_time : ℤ → ℕ
  pub local_date : ℤ → String
  pub redis : Redis
  pub stop : Option (Option Text)
  pub pause : Option (Option Text)
  pub accepts : Bool

abbrev pub is_flag : Option (Option Text) → Bool
is_flag (some (some (_ ∷ _))) = true
is_flag _ = false

-- `_is_trading_suppressed`: the second flag is read where the first is read and not set
unfoldable pub is_suppressed : Option (Option Text) → Option (Option Text) → Bool
is_suppressed none pause = false
is_suppressed (some stop) pause = if is_flag (some stop) then true else is_flag pause

abbrev pub assign : {A : Type 0} → String → Option A → (String → Option A) → String → Option A
assign key value dict k = if k == key then value else dict k

module _ {F : Type 0} ⦃num : Float F⦄ (config : ScannerConfig F) (readings : Readings F)
    (stock_code : String) where
  open num use {truncate, le}

  abbrev pub signal_of : Scanner F → WatchlistEntry F → SignalType → F → BuySignal F
  signal_of s entry t price = record {
    stock_code = stock_code;
    stock_name = entry.stock_name;
    signal_type = t;
    signal_price = truncate price;
    llm_score = entry.llm_score;
    hybrid_score = entry.hybrid_score;
    trade_tier = entry.trade_tier;
    risk_tag = entry.risk_tag;
    market_regime = s.context.market_regime;
    sector_group = entry.sector_group;
    position_multiplier = s.context.position_multiplier;
  }

  unfoldable pub publish_signal :
      Scanner F → WatchlistEntry F → SignalType → F → Scanner F × Emitted F
  unfolding is_suppressed
  publish_signal s entry t price =
      let signal = signal_of s entry t price in
      let times = assign stock_code (some readings.sent_at) s.last_signal_times in
      if not (check_strategy_alignment (signal_name t) s.context).passed
      then (s, Emitted.quiet)
      else if is_suppressed readings.stop readings.pause
      then (s, Emitted.suppressed signal)
      else if readings.accepts
      then (record s { last_signal_times = times }, Emitted.published signal)
      else (s, Emitted.failed)

  abbrev pub set_pending : Option (Pending F) → Scanner F → Scanner F
  set_pending p s = record s { pending_momentum = assign stock_code p s.pending_momentum }

  unfoldable pub confirm_pending : Scanner F → F → Pending F → Scanner F × Emitted F
  unfolding publish_signal
  confirm_pending s price p =
      let waited = p.bars_waited +ℤ pos 1 in
      if le p.initial_price price
      then publish_signal (set_pending none s) p.entry p.signal_type price
      else if leb_ℤ config.momentum_confirmation_bars waited
      then (set_pending none s, Emitted.quiet)
      else (set_pending (some (record p { bars_waited = waited })) s, Emitted.quiet)

  -- The state with the opening range of the stock after a bar; `none` is the error of the settings.
  unfoldable pub update_opening_range : Scanner F → Bar F → Option (Scanner F)
  unfolding time_of widened
  update_opening_range s bar = do
    range_start ← time_of (pos 9) (pos 0)
    range_end ← time_of (pos 9) config.orb_range_minutes
    some (
        if within range_start range_end (readings.local_time bar.timestamp)
        then record s {
          opening_ranges =
              assign stock_code
                (some
                  (widened (s.opening_ranges stock_code) bar (readings.local_date bar.timestamp)))
                s.opening_ranges;
        }
        else s)

  module _ (entry : WatchlistEntry F) (price : F) where
    -- A strategy that passed the gates: a momentum waits, another one is published.
    unfoldable pub emit_type : Scanner F → Option SignalType → Scanner F × Emitted F
    unfolding publish_signal
    emit_type s none = (s, Emitted.failed)
    emit_type s (some t) =
        let pending : Pending F = record {
          signal_type = t;
          initial_price = price;
          entry = entry;
          bars_waited = pos 0;
        } in
        if ltb_ℤ (pos 0) config.momentum_confirmation_bars && is_momentum t
        then (set_pending (some pending) s, Emitted.quiet)
        else publish_signal s entry t price

    unfoldable pub emit_detection : Scanner F → Detection → Scanner F × Emitted F
    unfolding emit_type
    emit_detection s none = (s, Emitted.failed)
    emit_detection s (some none) = (s, Emitted.quiet)
    emit_detection s (some (some r)) =
        if r.detected then emit_type s r.signal_type else (s, Emitted.quiet)

    -- A detector whose signals pass the gates for less is published at once.
    unfoldable pub publish_type : Scanner F → Option SignalType → Scanner F × Emitted F
    unfolding publish_signal
    publish_type s none = (s, Emitted.failed)
    publish_type s (some t) = publish_signal s entry t price
