-- ===== src/Buyer/Steps.antt =====
-- The helpers of `BuyExecutor` in prime_jennie/services/buyer/executor.py: flags, limits, locks.
use prime_jennie.Prelude.{
  ℕ, ◌+◌, ◌-◌, ◌*◌, Bool, true, false, not, ◌&&◌, Option, none, some, List, [], ◌∷◌, String, leb,
  if◌then◌else◌,
}
use prime_jennie.Prelude.Int.{ℤ, pos, leb_ℤ}
use prime_jennie.Config.Sell.{Text}
use prime_jennie.Services.Calls.{Key, Call, Position, DailyPrice, Env}
use prime_jennie.Services.Action.{Action, pure, attempt, ask, ◌>>=◌, ◌>>◌}
use prime_jennie.Seller.Types.{truthy}
use prime_jennie.Buyer.Types.{BuyerConfig}

-- `int(text)` of the digits that `incr` writes
unfoldable pub parse_digits : ℕ → Text → Option ℕ
parse_digits n [] = some n
parse_digits n (c ∷ cs) =
    let rest = parse_digits (n * 10 + (c - 48)) cs in if leb 48 c && leb c 57 then rest else none

-- `not (count and int(count) >= limit)`, where a text that is no number counts as an exception
unfoldable pub is_below : ℤ → Option ℕ → Bool
is_below limit none = true
is_below limit (some n) = not (leb_ℤ limit (pos n))

unfoldable pub within_limit : ℤ → Option Text → Bool
within_limit limit none = true
within_limit limit (some []) = true
within_limit limit (some (c ∷ cs)) = is_below limit (parse_digits 0 (c ∷ cs))

module _ {F : Type 0} (env : Env F) where
  -- 09:00 to 15:30 in microseconds, both ends included
  unfoldable pub is_market_hours : Action Bool
  is_market_hours = do
    now ← ask env Call.clock
    pure (leb (9 * 3_600_000_000) now && leb now (31 * 1_800_000_000))

  -- the positions, or nothing if they cannot be had
  unfoldable pub get_positions : Action (Option (List Position))
  get_positions = attempt (do ps ← ask env Call.kis_positions; pure (some ps)) (pure none)

  unfoldable pub get_cash_balance : Action ℤ
  get_cash_balance = attempt (do b ← ask env Call.kis_balance; pure b) (pure (pos 0))

  unfoldable pub is_emergency_stopped : Action Bool
  is_emergency_stopped =
      attempt (do v ← ask env (Call.redis_get Key.emergency_stop); pure (truthy v)) (pure false)

  unfoldable pub check_daily_limit : BuyerConfig F → Action Bool
  check_daily_limit cfg =
      attempt
        (do
          count ← ask env (Call.redis_get Key.buy_count)
          pure (within_limit cfg.max_buy_count_per_day count))
        (pure true)

  unfoldable pub increment_buy_count : Action (Unit {0})
  increment_buy_count =
      attempt (do ask env (Call.redis_incr Key.buy_count 86_400); pure tt) (pure tt)

  unfoldable pub acquire_lock : String → Action Bool
  acquire_lock code = attempt (ask env (Call.redis_set_nx (Key.lock_buy code) 180)) (pure false)

  unfoldable pub release_lock : String → Action (Unit {0})
  release_lock code = attempt (ask env (Call.redis_delete (Key.lock_buy code))) (pure tt)

  unfoldable pub cleanup_position_state : String → Action (Unit {0})
  cleanup_position_state code = attempt (do ask env (Call.redis_clear code); pure tt) (pure tt)

  -- the daily prices, or nothing if they cannot be had
  unfoldable pub daily_prices : String → ℕ → Action (Option (List DailyPrice))
  daily_prices code days =
      attempt (do ps ← ask env (Call.kis_daily_prices code days); pure (some ps)) (pure none)
