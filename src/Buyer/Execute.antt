-- ===== src/Buyer/Execute.antt =====
-- `process_signal` and `_execute_buy` of prime_jennie/services/buyer/executor.py. The stale multiplier is
-- that of zero days, as in the source.
use text.Mathlib.Text.{◌==◌}
use prime_jennie.Prelude.{
  Bool, true, false, not, ◌&&◌, ◌||◌, Option, none, some, List, [], ◌∷◌, String, leb, length, any,
  if◌then◌else◌,
}
use prime_jennie.Prelude.Int.{ℤ, pos, ◌+ℤ◌, ◌*ℤ◌, leb_ℤ}
use prime_jennie.Enums.{TradeTier, SectorGroup}
use prime_jennie.Float.{Float, whole}
use prime_jennie.Services.Calls.{Key, Call, Position, DailyPrice, OrderResult, Fill, Env}
use prime_jennie.Services.Action.{Action, pure, attempt, finally, ask, ◌>>=◌, ◌>>◌}
use prime_jennie.Kis.{check_order_status, confirm_order}
use prime_jennie.Seller.Types.{truthy, or_empty, recheck}
use prime_jennie.Buyer.Types.{
  BuySignal, BuyerConfig, value_of_all, Status, skipped, error, success, Why, outside_market_hours,
  emergency_stop, blocked_tier, hard_floor, position_fetch_failed, already_holding, cooldown_active,
  sell_cooldown, daily_limit, portfolio_full, lock_failed, invalid_price, correlated,
  position_size_0, guard, order_failed, order_not_filled, no_reason, ExecutionResult,
}
use prime_jennie.Buyer.Atr.{calculate_atr, clamp_atr}
use prime_jennie.Buyer.Sizing.{SizingRequest, calculate_position_size}
use prime_jennie.Buyer.Guard.{GuardResult, check_all}
use prime_jennie.Buyer.Steps.{
  is_market_hours, get_positions, get_cash_balance, is_emergency_stopped, check_daily_limit,
  increment_buy_count, acquire_lock, release_lock, cleanup_position_state, daily_prices,
}
use prime_jennie.Buyer.Correlation.{check_correlation}
use prime_jennie.Buyer.Place.{place_order}

abbrev pub is_blocked : TradeTier → Bool
is_blocked TradeTier.blocked = true
is_blocked _ = false

-- `[p.sector_group for p in positions if p.sector_group is not None]`
abbrev pub with_group : Option SectorGroup → List SectorGroup → List SectorGroup
with_group none gs = gs
with_group (some g) gs = g ∷ gs

unfoldable pub held_sectors : List Position → List SectorGroup
held_sectors [] = []
held_sectors (p ∷ ps) = with_group p.sector_group (held_sectors ps)

abbrev pub or_etc : Option SectorGroup → SectorGroup
or_etc none = SectorGroup.etc
or_etc (some g) = g

unfoldable pub holds : String → List Position → Bool
holds code positions = any (λ p. p.stock_code == code) positions

module _ {F : Type 0} ⦃num : Float F⦄ (env : Env F)
    (calculate_correlation : List ℤ → List ℤ → Option F) (cfg : BuyerConfig F)
    (signal : BuySignal F) where
  open num use {lit, of_int, truncate, mul, lt}

  unfoldable pub no_buy : Status → Why → ExecutionResult
  no_buy status why = record {
    status = status;
    stock_code = signal.stock_code;
    stock_name = signal.stock_name;
    order_no = "";
    quantity = pos 0;
    price = pos 0;
    reason = why;
  }

  unfoldable pub bought : String → ℤ × ℤ → ExecutionResult
  bought order_no (quantity, price) = record {
    status = success;
    stock_code = signal.stock_code;
    stock_name = signal.stock_name;
    order_no = order_no;
    quantity = quantity;
    price = price;
    reason = no_reason;
  }

  -- 2% of the price where the daily prices give no range
  unfoldable pub atr_from : ℤ → Option (List DailyPrice) → F
  atr_from current_price none =
      clamp_atr (mul (of_int current_price) (lit 2 2)) (of_int current_price)
  atr_from current_price (some daily) =
      if leb 2 (length daily) && lt (whole 0) (calculate_atr daily)
      then clamp_atr (calculate_atr daily) (of_int current_price)
      else clamp_atr (mul (of_int current_price) (lit 2 2)) (of_int current_price)

  unfoldable pub sizing_request : List Position → ℤ → F → ℤ → SizingRequest F
  sizing_request positions current_price atr balance = record {
    stock_price = current_price;
    atr = atr;
    available_cash = balance;
    portfolio_value = value_of_all positions;
    llm_score = signal.llm_score;
    hybrid_score = signal.hybrid_score;
    trade_tier = signal.trade_tier;
    risk_tag = signal.risk_tag;
    sector_group = signal.sector_group;
    held_sector_groups = held_sectors positions;
    portfolio_risk_pct = whole 0;
    position_multiplier = signal.position_multiplier;
    stale_days = pos 0;
  }

  -- the quantity and the price, as far as the order could be confirmed
  unfoldable pub confirmed : String → ℤ → Option (Fill F) → Action (Option (ℤ × ℤ))
  confirmed order_no current_price (some fill) = pure (
      some (
        fill.filled_qty,
        if lt (whole 0) fill.avg_price then truncate fill.avg_price else current_price,
      ))
  confirmed order_no current_price none = do
    ask env (Call.kis_cancel order_no)
    status ← check_order_status env order_no
    pure (recheck current_price status)

  unfoldable pub confirm_buy : String → ℤ → ℤ → Action (Option (ℤ × ℤ))
  confirm_buy order_no quantity current_price =
      if order_no == "" || order_no == "DRYRUN-0000"
      then pure (some (quantity, current_price))
      else do fill ← confirm_order env order_no 5; confirmed order_no current_price fill

  unfoldable pub settle : String → Option (ℤ × ℤ) → Action ExecutionResult
  settle order_no none = pure (no_buy error order_not_filled)
  settle order_no (some done) = do
    increment_buy_count env
    cleanup_position_state env signal.stock_code
    pure (bought order_no done)

  unfoldable pub ordered : ℤ → ℤ → OrderResult → Action ExecutionResult
  ordered quantity current_price result =
      if not result.success then pure (no_buy error order_failed) else do
        done ← confirm_buy (or_empty result.order_no) quantity current_price
        settle (or_empty result.order_no) done

  unfoldable pub if_guarded : ℤ → ℤ → GuardResult → Action ExecutionResult
  if_guarded quantity current_price guard_result =
      if not guard_result.passed then pure (no_buy skipped guard) else do
        result ← place_order env cfg signal quantity current_price
        ordered quantity current_price result

  unfoldable pub sized_buy : List Position → ℤ → ℤ → ℤ → Action ExecutionResult
  sized_buy positions current_price balance quantity =
      if leb_ℤ quantity (pos 0) then pure (no_buy skipped position_size_0) else do
        guard_result ←
            check_all cfg env (or_etc signal.sector_group) (quantity *ℤ current_price) balance
              (balance +ℤ value_of_all positions) positions signal.market_regime
        if_guarded quantity current_price guard_result

  unfoldable pub if_uncorrelated : List Position → ℤ → F → Bool → Action ExecutionResult
  if_uncorrelated positions current_price atr passed =
      if not passed then pure (no_buy skipped correlated) else do
        balance ← get_cash_balance env
        sized_buy positions current_price balance
            (calculate_position_size (sizing_request positions current_price atr balance)).quantity

  -- `if correlation_check_enabled and positions`
  unfoldable pub correlation_passed : List Position → Action Bool
  correlation_passed [] = pure true
  correlation_passed (p ∷ ps) =
      if cfg.correlation_check_enabled
      then check_correlation env calculate_correlation cfg signal.stock_code (p ∷ ps)
      else pure true

  unfoldable pub priced_buy : List Position → ℤ → Action ExecutionResult
  priced_buy positions current_price =
      if leb_ℤ current_price (pos 0) then pure (no_buy error invalid_price) else do
        daily ← daily_prices env signal.stock_code 30
        passed ← correlation_passed positions
        if_uncorrelated positions current_price (atr_from current_price daily) passed

  unfoldable pub price_or_signal : Action ℤ
  price_or_signal =
      attempt (do p ← ask env (Call.kis_price signal.stock_code); pure p) (pure signal.signal_price)

  unfoldable pub execute_buy : List Position → Action ExecutionResult
  execute_buy positions = do current_price ← price_or_signal; priced_buy positions current_price

  unfoldable pub if_locked : List Position → Bool → Action ExecutionResult
  if_locked positions locked =
      if not locked
      then pure (no_buy skipped lock_failed)
      else finally (execute_buy positions) (release_lock env signal.stock_code)

  unfoldable pub if_within_limit : List Position → Bool → Action ExecutionResult
  if_within_limit positions within =
      if not within
      then pure (no_buy skipped daily_limit)
      else if leb_ℤ cfg.max_portfolio_size (pos (length positions))
      then pure (no_buy skipped portfolio_full)
      else (do locked ← acquire_lock env signal.stock_code; if_locked positions locked)

  unfoldable pub if_cool : List Position → Bool → Action ExecutionResult
  if_cool positions cooling =
      if cooling
      then pure (no_buy skipped sell_cooldown)
      else do within ← check_daily_limit env cfg; if_within_limit positions within

  unfoldable pub if_not_stopped_out : List Position → Bool → Action ExecutionResult
  if_not_stopped_out positions cooling =
      if cooling then pure (no_buy skipped cooldown_active) else do
        v ← ask env (Call.redis_get (Key.sell_cooldown signal.stock_code))
        if_cool positions (truthy v)

  unfoldable pub with_positions : Option (List Position) → Action ExecutionResult
  with_positions none = pure (no_buy skipped position_fetch_failed)
  with_positions (some positions) =
      if holds signal.stock_code positions then pure (no_buy skipped already_holding) else do
        v ← ask env (Call.redis_get (Key.stoploss_cooldown signal.stock_code))
        if_not_stopped_out positions (truthy v)

  unfoldable pub if_not_stopped : Bool → Action ExecutionResult
  if_not_stopped stopped =
      if stopped
      then pure (no_buy skipped emergency_stop)
      else if is_blocked signal.trade_tier
      then pure (no_buy skipped blocked_tier)
      else if lt signal.hybrid_score cfg.hard_floor_score
      then pure (no_buy skipped hard_floor)
      else (do positions ← get_positions env; with_positions positions)

  unfoldable pub if_open : Bool → Action ExecutionResult
  if_open open_now =
      if not open_now
      then pure (no_buy skipped outside_market_hours)
      else do stopped ← is_emergency_stopped env; if_not_stopped stopped

  unfoldable pub process_signal : Action ExecutionResult
  process_signal = do open_now ← is_market_hours env; if_open open_now
