-- ===== src/Monitor/State.antt =====
-- The state of `PriceMonitor` in prime_jennie/services/monitor/app.py, what it reads from outside, and what it
-- writes there. The database copy of the watermarks, log lines and the status are left out.
use text.Mathlib.Text.{◌==◌}
use prime_jennie.Prelude.{
  ℕ, Bool, true, false, Option, none, some, List, [], ◌∷◌, String, if◌then◌else◌,
}
use prime_jennie.Prelude.Int.{ℤ}
use prime_jennie.Enums.{MarketRegime}
use prime_jennie.Config.Sell.{Text}
use prime_jennie.Services.Calls.{Position}
use prime_jennie.Seller.Types.{SellOrder}

-- `IndicatorCache`
pub record Indicators : Type 0 where
  pub macd_bearish : Bool
  pub death_cross : Bool

-- A dictionary is a function or, where the order counts, the list of its values.
pub record Monitor (F : Type 0) : Type 0 where
  pub positions : List Position
  pub rsi_cache : String → Option F
  pub atr_cache : String → Option F
  pub indicator_cache : String → Option Indicators
  pub pending_sell : String → Bool
  pub last_snapshot_publish : F

-- What a tick may read; `none` is an exception. The counter of the scale-outs is a number. The
-- context may be missing.
pub record Readings (F : Type 0) : Type 0 where
  pub armed : Option (Option Text)
  pub is_target : Option Bool
  pub targets_left : Option ℕ
  pub context : Option (Option (MarketRegime × F))
  pub watermark : Option (Option Text)
  pub profit_floor : Option (Option Text)
  pub scale_out : Option (Option ℕ)
  pub rsi_sold : Option (Option Text)
  pub stop : Option (Option Text)
  pub pause : Option (Option Text)
  -- whether the stream takes an order
  pub accepts : Bool
  -- the time in microseconds, and in seconds
  pub utc : ℤ
  pub seconds : F

-- What the monitor asks of Redis.
pub data Effect (F : Type 0) : Type 0 where
  set_watermark : String → F → Effect F
  set_profit_floor : String → Effect F
  publish : SellOrder → Effect F
  log_suppressed : SellOrder → Effect F
  increment_scale_out : String → Effect F
  set_rsi_sold : String → Effect F
  remove_target : String → Effect F
  disarm : Effect F
  publish_snapshot : Effect F
  cleanup : String → Effect F

-- the state after a step, what it asked for, and whether it raised
pub record Done (F : Type 0) : Type 0 where
  pub state : Monitor F
  pub effects : List (Effect F)
  pub has_raised : Bool

abbrev pub done : {F : Type 0} → Monitor F → List (Effect F) → Done F
done m es = record { state = m; effects = es; has_raised = false }

abbrev pub raised : {F : Type 0} → Monitor F → List (Effect F) → Done F
raised m es = record { state = m; effects = es; has_raised = true }

unfoldable pub find_held : String → List Position → Option Position
find_held code [] = none
find_held code (p ∷ ps) =
    let rest = find_held code ps in if p.stock_code == code then some p else rest

-- `positions[p.stock_code] = p`
unfoldable pub put_held : Position → List Position → List Position
put_held q [] = q ∷ []
put_held q (p ∷ ps) =
    let rest = put_held q ps in if p.stock_code == q.stock_code then q ∷ ps else p ∷ rest

abbrev pub is_set : Option (Option Text) → Bool
is_set (some (some (_ ∷ _))) = true
is_set _ = false

-- `_is_trading_suppressed`
unfoldable pub is_suppressed : Option (Option Text) → Option (Option Text) → Bool
is_suppressed none pause = false
is_suppressed (some stop) pause = if is_set (some stop) then true else is_set pause

abbrev pub set_pending : {F : Type 0} → String → Monitor F → Monitor F
set_pending code m = record m { pending_sell = λ c. if c == code then true else m.pending_sell c }
