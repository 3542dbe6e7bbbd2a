-- ===== src/Exit/Stops.antt =====
-- The rules that protect a position: [0] to [4] of prime_jennie/services/monitor/exit_rules.py.
use prime_jennie.Prelude.{not, ◌&&◌, ◌||◌, if◌then◌else◌}
use prime_jennie.Prelude.Int.{ℤ, pos, ◌-ℤ◌, ltb_ℤ}
use prime_jennie.Enums.{MarketRegime, SellReason, is_bull}
use prime_jennie.Float.{Float, whole, minus, fmin, fmax}
use prime_jennie.Config.Sell.{SellConfig}
use prime_jennie.Exit.Signal.{PositionContext, Outcome, quiet, sell_all}

module _ {F : Type 0} ⦃num : Float F⦄ where
  open num use {lit, of_int, neg, add, sub, mul, div, lt, le}

  -- [0]
  unfoldable pub check_hard_stop : PositionContext F → Outcome F
  check_hard_stop ctx =
      if le ctx.profit_pct (minus 10 0) then sell_all SellReason.stop_loss else quiet

  -- [1]
  unfoldable pub check_profit_floor : PositionContext F → Outcome F
  check_profit_floor ctx =
      if not ctx.profit_floor_active
      then quiet
      else if lt ctx.profit_pct ctx.profit_floor_level
      then sell_all SellReason.profit_floor
      else quiet

  -- the trigger of a profit lock, `max(low, min(atr_pct * mult, high))`
  unfoldable pub lock_trigger : F → F → F → F → F
  lock_trigger atr_pct mult low high = fmax low (fmin (mul atr_pct mult) high)

  -- [2]
  unfoldable pub check_profit_lock : SellConfig F → PositionContext F → Outcome F
  unfolding lock_trigger
  check_profit_lock cfg ctx =
      let atr_pct = mul (div ctx.atr ctx.buy_price) (whole 100) in
      let l2_trigger =
        lock_trigger atr_pct cfg.profit_lock_l2_mult cfg.profit_lock_l2_min
          cfg.profit_lock_l2_max in
      let l1_trigger =
        lock_trigger atr_pct cfg.profit_lock_l1_mult cfg.profit_lock_l1_min
          cfg.profit_lock_l1_max in
      if le ctx.buy_price (whole 0) || le ctx.atr (whole 0)
      then quiet
      else if le l2_trigger ctx.high_profit_pct && lt ctx.profit_pct cfg.profit_lock_l2_floor
      then sell_all SellReason.trailing_stop
      else if le l1_trigger ctx.high_profit_pct && lt ctx.profit_pct cfg.profit_lock_l1_floor
      then sell_all SellReason.trailing_stop
      else quiet

  -- [2.5]
  unfoldable pub check_breakeven_stop : SellConfig F → PositionContext F → Outcome F
  check_breakeven_stop cfg ctx =
      if not cfg.breakeven_enabled
      then quiet
      else if le cfg.breakeven_activation_pct ctx.high_profit_pct
          && lt ctx.profit_pct cfg.breakeven_floor_pct
      then sell_all SellReason.breakeven_stop
      else quiet

  -- the multiple of the ATR, tightened by a warning
  unfoldable pub atr_mult : SellConfig F → PositionContext F → F → F
  atr_mult cfg ctx macro_stop_mult =
      let base = mul cfg.atr_multiplier macro_stop_mult in
      if ctx.macd_bearish
      then mul base (lit 75 2)
      else if ctx.death_cross
      then mul base (lit 8 1)
      else base

  -- [3]
  unfoldable pub check_atr_stop : SellConfig F → PositionContext F → F → Outcome F
  unfolding atr_mult
  check_atr_stop cfg ctx macro_stop_mult =
      let stop_price = sub ctx.buy_price (mul ctx.atr (atr_mult cfg ctx macro_stop_mult)) in
      if le ctx.atr (whole 0)
      then quiet
      else if le ctx.current_price stop_price
      then sell_all SellReason.stop_loss
      else quiet

  -- the first day on which the stop is tightened
  unfoldable pub start_days : SellConfig F → MarketRegime → ℤ
  start_days cfg regime =
      if is_bull regime then cfg.time_tighten_start_days_bull else cfg.time_tighten_start_days

  -- how far the stop has come up by a day
  unfoldable pub tighten : SellConfig F → ℤ → ℤ → F
  tighten cfg days_over max_span =
      fmin cfg.time_tighten_max_reduction_pct
        (div (mul cfg.time_tighten_max_reduction_pct (of_int days_over)) (of_int max_span))

  -- the profit at or below which [4] sells
  unfoldable pub fixed_threshold : SellConfig F → ℤ → F → MarketRegime → F
  fixed_threshold cfg days macro_stop_mult regime =
      let base = mul (neg cfg.stop_loss_pct) macro_stop_mult in
      let start = start_days cfg regime in
      let span = cfg.max_holding_days -ℤ start in
      if cfg.time_tighten_enabled && ltb_ℤ start days
      then (if ltb_ℤ (pos 0) span then add base (tighten cfg (days -ℤ start) span) else base)
      else base

  -- [4]
  unfoldable pub check_fixed_stop : SellConfig F → PositionContext F → F → MarketRegime → Outcome F
  unfolding fixed_threshold
  check_fixed_stop cfg ctx macro_stop_mult regime =
      if le ctx.profit_pct (fixed_threshold cfg ctx.holding_days macro_stop_mult regime)
      then sell_all SellReason.stop_loss
      else quiet
