-- ===== src/Hours/Tests.antt =====
-- Days and minutes of prime_jennie/infra/market_hours.py.
use prime_jennie.Prelude.{◌≡◌, ◌↔◌, true, false, none, some, [], ◌∷◌}
use prime_jennie.Hours.{
  after_cache, ask_checker, checked, Cache, Checker, is_trading_day, is_market_open, pre_opening,
}
use prime_jennie.Hours.Sessions.{is_market_open_lem}
use prime_jennie.Hours.Remembered.{ask_all, is_trading_day_again}

abbrev empty : Cache
empty key = none

abbrev no_holiday : Checker
no_holiday = some (some true)

is_market_open_lem_example :
    ((is_market_open no_holiday 0 "2026-01-05" 9 10 empty).0.0 ≡ true)
    × (((is_market_open no_holiday 0 "2026-01-05" 9 10 empty).0.1 ≡ pre_opening) ↔ (true ≡ true))
unfolding is_trading_day after_cache ask_checker checked
is_market_open_lem_example = is_market_open_lem no_holiday 0 "2026-01-05" 9 10 empty

-- Another day is asked for in between, and the checker would answer otherwise by then.
is_trading_day_again_example :
    is_trading_day (some (some false)) 0 "2026-01-05" (
      ask_all
        (record { checker = none; weekday = 1; key = "2026-01-06" } ∷ [])
        (is_trading_day (some (some true)) 0 "2026-01-05" empty).1)
    ≡ (
      (is_trading_day (some (some true)) 0 "2026-01-05" empty).0,
      ask_all
          (record { checker = none; weekday = 1; key = "2026-01-06" } ∷ [])
          (is_trading_day (some (some true)) 0 "2026-01-05" empty).1,
    )
is_trading_day_again_example =
    is_trading_day_again true 0 "2026-01-05" empty
      (record { checker = none; weekday = 1; key = "2026-01-06" } ∷ []) (some (some false))
