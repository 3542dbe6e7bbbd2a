-- ===== src/Monitor/Tick.antt =====
-- `process_tick` of `PriceMonitor` in prime_jennie/services/monitor/app.py.
use prime_jennie.Prelude.{Option, none, some, List, [], ◌∷◌, ◌++◌, String, if◌then◌else◌}
use prime_jennie.Enums.{MarketRegime}
use prime_jennie.Float.{Float, whole}
use prime_jennie.Config.Sell.{SellConfig}
use prime_jennie.Exit.Signal.{Outcome}
use prime_jennie.Services.Calls.{Position}
use prime_jennie.Monitor.State.{Monitor, Readings, Effect, Done, done, raised, find_held, put_held}
use prime_jennie.Monitor.Orders.{emit_sell_order, emit_forced_liquidation, is_forced_now}
use prime_jennie.Monitor.Evaluate.{evaluate_position}

-- a snapshot where there are positions
abbrev pub snapshot_of : {F : Type 0} → List Position → List (Effect F)
snapshot_of [] = []
snapshot_of (_ ∷ _) = Effect.publish_snapshot ∷ []

module _ {F : Type 0} ⦃num : Float F⦄ where
  open num use {of_int, truncate, sub, lt}

  -- the snapshot of the positions, every 30 seconds
  unfoldable pub publish_live_snapshot : Readings F → Monitor F → Done F
  publish_live_snapshot r m =
      let m' = record m { last_snapshot_publish = r.seconds } in
      if lt (sub r.seconds m.last_snapshot_publish) (whole 30)
      then done m []
      else done m' (snapshot_of m.positions)

  -- what was asked for earlier, before what a step asks for
  abbrev pub after : List (Effect F) → Done F → Done F
  after es d = record d { effects = es ++ d.effects }

  -- An exception of the evaluation or of the order is logged, and the snapshot follows.
  unfoldable pub then_snapshot : Readings F → Done F → Done F
  unfolding publish_live_snapshot
  then_snapshot r d = after d.effects (publish_live_snapshot r d.state)

  unfoldable pub on_verdict : Readings F → Monitor F → Position → Outcome F → Done F
  unfolding emit_sell_order
  on_verdict r m p Outcome.quiet = done m []
  on_verdict r m p Outcome.raises = done m []
  on_verdict r m p (Outcome.signal signal) =
      if signal.should_sell then emit_sell_order r m p signal else done m []

  abbrev pub context_or_default : Option (MarketRegime × F) → MarketRegime × F
  context_or_default none = (MarketRegime.sideways, whole 1)
  context_or_default (some context) = context

  module _ (cfg : SellConfig F) (r : Readings F) where
    -- the position, priced at the tick, that waits for no sale and is not liquidated
    unfoldable pub judge : Monitor F → Position → Option (Option (MarketRegime × F)) → Done F
    unfolding then_snapshot on_verdict evaluate_position
    judge m p none = raised m []
    judge m p (some known) =
        let context = context_or_default known in
        let verdict = evaluate_position cfg r m p context.0 context.1 in
        then_snapshot r (after verdict.0 (on_verdict r m p verdict.1))

    unfoldable pub watch : Monitor F → Position → Done F
    unfolding judge emit_forced_liquidation is_forced_now
    watch m p =
        if m.pending_sell p.stock_code
        then done m []
        else if is_forced_now r
        then emit_forced_liquidation r m p
        else judge m p r.context

    unfoldable pub tick_of : Monitor F → F → Option Position → Done F
    unfolding watch put_held
    tick_of m price none = done m []
    tick_of m price (some p) =
        let p' = record p { current_price = some (truncate price) } in
        watch (record m { positions = put_held p' m.positions }) p'

    unfoldable pub process_tick : Monitor F → String → F → Done F
    unfolding tick_of find_held
    process_tick m code price = tick_of m price (find_held code m.positions)
