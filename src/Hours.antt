-- ===== src/Hours.antt =====
-- prime_jennie/infra/market_hours.py: trading days with their cache, and the sessions of a day. The clock
-- and the day of the week are arguments, and so is what the checker of holidays answers if a call asks it: `none`
-- where it raises. It may answer differently each time.
use text.Mathlib.Text.{◌==◌}
use prime_jennie.Prelude.{
  ℕ, ◌+◌, ◌*◌, Bool, true, false, not, ◌&&◌, Option, none, some, String, ltb, leb, if◌then◌else◌,
}
mod Sessions
mod Remembered
mod Tests

abbrev pub Cache : Type 0
Cache = String → Option Bool

-- `self._cache[key] = result`
unfoldable pub remember : String → Bool → Cache → Cache
remember key result cache k = if k == key then some result else cache k

-- an answer is remembered; where the checker raises, the day counts and nothing is remembered
unfoldable pub checked : String → Option Bool → Cache → Bool × Cache
checked key none cache = (true, cache)
checked key (some result) cache = (result, remember key result cache)

-- what the checker, if there is one, would answer now
abbrev pub Checker : Type 0
Checker = Option (Option Bool)

unfoldable pub ask_checker : Checker → String → Cache → Bool × Cache
ask_checker none key cache = (true, remember key true cache)
ask_checker (some answer) key cache = checked key answer cache

unfoldable pub after_cache : Checker → ℕ → String → Cache → Option Bool → Bool × Cache
after_cache checker weekday key cache (some result) = (result, cache)
after_cache checker weekday key cache none =
    if leb 5 weekday then (false, remember key false cache) else ask_checker checker key cache

-- with the ISO text of the day and its weekday, 0 for Monday
unfoldable pub is_trading_day : Checker → ℕ → String → Cache → Bool × Cache
is_trading_day checker weekday key cache = after_cache checker weekday key cache (cache key)

pub data Session : Type 0 where
  holiday pre_market pre_opening regular closing after_hours : Session

unfoldable pub session_at : ℕ → Bool × Session
session_at t =
    if ltb t 900
    then (false, pre_market)
    else if ltb t 930
    then (true, pre_opening)
    else if ltb t 1530
    then (true, regular)
    else if ltb t 1600
    then (true, closing)
    else (false, after_hours)

unfoldable pub market_at : Bool → ℕ → Bool × Session
market_at trading_day t = if not trading_day then (false, holiday) else session_at t

unfoldable pub streaming_at : Bool → ℕ → Bool
streaming_at trading_day t = if not trading_day then false else leb 850 t && leb t 1535

module _ (checker : Checker) (weekday : ℕ) (key : String) (hour minute : ℕ) (cache : Cache) where
  unfoldable pub is_market_open : (Bool × Session) × Cache
  is_market_open =
      let (trading_day, remembered) = is_trading_day checker weekday key cache in
      (market_at trading_day (hour * 100 + minute), remembered)

  unfoldable pub is_streaming_hours : Bool × Cache
  is_streaming_hours =
      let (trading_day, remembered) = is_trading_day checker weekday key cache in
      (streaming_at trading_day (hour * 100 + minute), remembered)
