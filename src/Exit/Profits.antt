-- ===== src/Exit/Profits.antt =====
-- The rules that take a profit or end a position: [5] to [10] of
-- prime_jennie/services/monitor/exit_rules.py.
use prime_jennie.Prelude.{Bool, not, ◌&&◌, ◌||◌, Option, none, some, List, get_elem?, if◌then◌else◌}
use prime_jennie.Prelude.Int.{ℤ, pos, ◌-ℤ◌, ltb_ℤ, leb_ℤ, max_ℤ}
use prime_jennie.Enums.{
  MarketRegime, strong_bull, bull, sideways, bear, strong_bear, SellReason, is_bull,
}
use prime_jennie.Float.{Float, whole, minus}
use prime_jennie.Config.Sell.{SellConfig}
use prime_jennie.Config.Levels.{get_scale_out_levels}
use prime_jennie.Exit.Signal.{PositionContext, Outcome, quiet, raises, sell, sell_all}

module _ {F : Type 0} ⦃num : Float F⦄ where
  open num use {lit, of_int, truncate, sub, mul, div, lt, le}

  -- the high profit from which the trailing stop is on, lowered by a warning
  unfoldable pub activation_pct : SellConfig F → PositionContext F → F
  activation_pct cfg ctx =
      if ctx.macd_bearish
      then mul cfg.trailing_activation_pct (lit 8 1)
      else if ctx.death_cross
      then mul cfg.trailing_activation_pct (lit 7 1)
      else cfg.trailing_activation_pct

  unfoldable pub drop_pct : SellConfig F → MarketRegime → F
  drop_pct cfg strong_bull = whole 3
  drop_pct cfg bull = whole 3
  drop_pct cfg sideways = cfg.trailing_drop_from_high_pct
  drop_pct cfg bear = cfg.trailing_drop_from_high_pct
  drop_pct cfg strong_bear = whole 4

  -- [5]
  unfoldable pub check_trailing_take_profit :
      SellConfig F → PositionContext F → MarketRegime → Outcome F
  unfolding activation_pct drop_pct
  check_trailing_take_profit cfg ctx regime =
      let trailing_stop =
        mul ctx.high_watermark (sub (whole 1) (div (drop_pct cfg regime) (whole 100))) in
      if not cfg.trailing_enabled
      then quiet
      else if lt ctx.high_profit_pct (activation_pct cfg ctx)
      then quiet
      else if le ctx.current_price trailing_stop && le cfg.trailing_min_profit_pct ctx.profit_pct
      then sell_all SellReason.trailing_stop
      else quiet

  -- `max(1, int(quantity * sell_pct / 100))`
  unfoldable pub estimated_sell : ℤ → F → ℤ
  estimated_sell quantity sell_pct =
      max_ℤ (pos 1) (truncate (div (mul (of_int quantity) sell_pct) (whole 100)))

  -- the guard on the amount of the trade
  unfoldable pub is_small : SellConfig F → PositionContext F → ℤ → Bool
  is_small cfg ctx estimated =
      lt (mul (of_int estimated) ctx.current_price) cfg.min_transaction_amount
      || ltb_ℤ estimated cfg.min_sell_quantity

  -- the rest of [6], from the guard on what would remain
  unfoldable pub scale_out_rest : SellConfig F → ℤ → F → Outcome F
  scale_out_rest cfg remaining sell_pct =
      if ltb_ℤ remaining cfg.min_sell_quantity && lt sell_pct (whole 100)
      then sell_all SellReason.profit_target
      else sell SellReason.profit_target sell_pct

  unfoldable pub scale_out_at : SellConfig F → PositionContext F → Option (F × F) → Outcome F
  unfolding estimated_sell is_small scale_out_rest
  scale_out_at cfg ctx none = quiet
  scale_out_at cfg ctx (some (target_pct, sell_pct)) =
      let estimated = estimated_sell ctx.quantity sell_pct in
      let remaining = ctx.quantity -ℤ estimated in
      if lt ctx.profit_pct target_pct
      then quiet
      else if is_small cfg ctx estimated
      then (if lt (mul (of_int ctx.quantity) ctx.current_price)
            (mul cfg.min_transaction_amount (whole 2))
          then scale_out_rest cfg remaining (whole 100)
          else quiet)
      else scale_out_rest cfg remaining sell_pct

  -- `levels[current_level]`, or nothing to do past the last level
  unfoldable pub scale_out_from :
      SellConfig F → PositionContext F → Option (List (F × F)) → Outcome F
  unfolding scale_out_at
  scale_out_from cfg ctx none = raises
  scale_out_from cfg ctx (some levels) = scale_out_at cfg ctx (get_elem? levels ctx.scale_out_level)

  -- [6]
  unfoldable pub check_scale_out : SellConfig F → PositionContext F → MarketRegime → Outcome F
  unfolding scale_out_from
  check_scale_out cfg ctx regime =
      if not cfg.scale_out_enabled
      then quiet
      else scale_out_from cfg ctx (get_scale_out_levels cfg regime)

  unfoldable pub rsi_overbought_at : SellConfig F → PositionContext F → Option F → Outcome F
  rsi_overbought_at cfg ctx none = quiet
  rsi_overbought_at cfg ctx (some rsi) =
      if cfg.trailing_enabled && le cfg.trailing_activation_pct ctx.high_profit_pct
      then quiet
      else if le cfg.rsi_overbought_threshold rsi && le cfg.rsi_min_profit_pct ctx.profit_pct
      then sell SellReason.rsi_overbought (whole 50)
      else quiet

  -- [7]
  unfoldable pub check_rsi_overbought : SellConfig F → PositionContext F → Outcome F
  unfolding rsi_overbought_at
  check_rsi_overbought cfg ctx = if ctx.rsi_sold then quiet else rsi_overbought_at cfg ctx ctx.rsi

  -- [8]
  unfoldable pub check_profit_target : SellConfig F → PositionContext F → Outcome F
  check_profit_target cfg ctx =
      if cfg.trailing_enabled
      then quiet
      else if le cfg.profit_target_pct ctx.profit_pct
      then sell_all SellReason.profit_target
      else quiet

  -- [9]
  unfoldable pub check_death_cross : SellConfig F → PositionContext F → MarketRegime → Outcome F
  check_death_cross cfg ctx regime =
      if cfg.death_cross_bear_only && is_bull regime
      then quiet
      else if ctx.death_cross && lt ctx.profit_pct (minus 1 0)
      then sell_all SellReason.death_cross
      else quiet

  -- [10]
  unfoldable pub check_time_exit : SellConfig F → PositionContext F → Outcome F
  check_time_exit cfg ctx =
      if leb_ℤ cfg.max_holding_days ctx.holding_days then sell_all SellReason.time_exit else quiet
