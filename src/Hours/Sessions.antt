-- ===== src/Hours/Sessions.antt =====
-- When the market of prime_jennie/infra/market_hours.py is open, and how days are remembered.
use prime_jennie.Prelude.{ℕ, ◌+◌, ◌*◌, ◌≡◌, Bool, true, ◌&&◌, String, ltb, leb, arith, ◌↔◌}
use prime_jennie.Hours.{
  Cache, Checker, is_trading_day, pre_opening, session_at, market_at, is_market_open,
}

market_at_lem :
    (trading_day : Bool) (t : ℕ)
    → ((market_at trading_day t).0 ≡ (trading_day && (leb 900 t && ltb t 1600)))
      × (((market_at trading_day t).1 ≡ pre_opening)
          ↔ ((trading_day && (leb 900 t && ltb t 930)) ≡ true))
unfolding market_at session_at
market_at_lem trading_day t = (ground arith, ((λ e. ground arith), (λ e. ground arith)))

-- The market is open exactly on trading days from 09:00 to before 16:00, and it is in the session
-- called pre-opening exactly from 09:00 to before 09:30 of these.
pub is_market_open_lem :
    (checker : Checker) (weekday : ℕ) (key : String) (hour minute : ℕ) (cache : Cache)
    → let day = (is_trading_day checker weekday key cache).0 in
      let verdict = (is_market_open checker weekday key hour minute cache).0 in
      let t = hour * 100 + minute in
      ((verdict.0 ≡ (day && (leb 900 t && ltb t 1600)))
        × ((verdict.1 ≡ pre_opening) ↔ ((day && (leb 900 t && ltb t 930)) ≡ true)))
unfolding is_market_open
is_market_open_lem checker weekday key hour minute cache =
    market_at_lem (is_trading_day checker weekday key cache).0 (hour * 100 + minute)
