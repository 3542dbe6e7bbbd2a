-- ===== src/Seller/Steps.antt =====
-- The helpers of `SellExecutor` in prime_jennie/services/seller/executor.py: flags, locks, cooldowns.
use prime_jennie.Prelude.{◌*◌, Bool, false, ◌&&◌, List, [], String, leb}
use prime_jennie.Prelude.Int.{pos, ◌*ℤ◌}
use prime_jennie.Services.Calls.{Key, Call, Position, Env}
use prime_jennie.Services.Action.{Action, pure, attempt, ask, ◌>>=◌}
use prime_jennie.Seller.Types.{SellerConfig, truthy}

module _ {F : Type 0} (env : Env F) where
  -- 09:00 to 15:30 in microseconds, both ends included
  unfoldable pub is_market_hours : Action Bool
  is_market_hours = do
    now ← ask env Call.clock
    pure (leb (9 * 3_600_000_000) now && leb now (31 * 1_800_000_000))

  unfoldable pub get_positions : Action (List Position)
  get_positions = attempt (ask env Call.kis_positions) (pure [])

  unfoldable pub is_emergency_stopped : Action Bool
  is_emergency_stopped =
      attempt (do v ← ask env (Call.redis_get Key.emergency_stop); pure (truthy v)) (pure false)

  unfoldable pub acquire_lock : String → Action Bool
  acquire_lock code = attempt (ask env (Call.redis_set_nx (Key.lock_sell code) 30)) (pure false)

  unfoldable pub release_lock : String → Action (Unit {0})
  release_lock code = attempt (ask env (Call.redis_delete (Key.lock_sell code))) (pure tt)

  unfoldable pub set_cooldown : SellerConfig → String → Action (Unit {0})
  set_cooldown cfg code =
      attempt
        (ask env (
          Call.redis_setex (Key.stoploss_cooldown code) (cfg.stoploss_cooldown_days *ℤ pos 86_400)))
        (pure tt)

  unfoldable pub set_sell_cooldown : String → Action (Unit {0})
  set_sell_cooldown code =
      attempt (ask env (Call.redis_setex (Key.sell_cooldown code) (pos 86_400))) (pure tt)

  unfoldable pub cleanup_position_state : String → Action (Unit {0})
  cleanup_position_state code = attempt (ask env (Call.redis_clear code)) (pure tt)
