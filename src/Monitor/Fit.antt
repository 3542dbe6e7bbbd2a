-- ===== src/Monitor/Fit.antt =====
-- What a tick of prime_jennie/services/monitor/app.py asks for.
use prime_jennie.Prelude.{◌≡◌, Bool, true, false, ◌⊎◌, Option, none, some, All, String}
use prime_jennie.Prelude.Int.{ℤ, pos, ltb_ℤ}
use prime_jennie.Float.{Float}
use prime_jennie.Config.Sell.{Text}
use prime_jennie.Seller.Types.{is_forced}
use prime_jennie.Monitor.State.{Monitor, Readings, Effect, Done, is_set}
use prime_jennie.Monitor.Orders.{is_forced_now}
use prime_jennie.Monitor.Evaluate.{get_high_watermark}

-- The stop flag is not read as set, and neither is the pause flag, which is not read at all where the
-- reading of the stop flag fails.
abbrev pub IsOn : Option (Option Text) → Option (Option Text) → Type 0
IsOn none pause = Unit
IsOn (some stop) pause = (is_set (some stop) ≡ false) × (is_set pause ≡ false)

module _ {F : Type 0} ⦃num : Float F⦄ (r : Readings F) (code : String) (average : ℤ)
    (free : Bool) where
  open num use {of_int, lt}

  -- A watermark is written for the stock, above the one that is read. An order is one for at
  -- least one share of the stock, for which none is under way; it is forced, by the armed switch and
  -- the set of targets, or trading is on.
  abbrev pub IsFit : Effect F → Type 0
  IsFit (Effect.set_watermark c w) =
      (c ≡ code) × (lt (get_high_watermark r.watermark (of_int average)) w ≡ true)
  IsFit (Effect.publish order) =
      (order.stock_code ≡ code)
      × (free ≡ true)
      × (r.accepts ≡ true)
      × (ltb_ℤ order.quantity (pos 1) ≡ false)
      × (((is_forced order.sell_reason ≡ true) × (is_forced_now r ≡ true)) ⊎ IsOn r.stop r.pause)
  IsFit (Effect.set_profit_floor c) = c ≡ code
  IsFit (Effect.increment_scale_out c) = c ≡ code
  IsFit (Effect.set_rsi_sold c) = c ≡ code
  IsFit (Effect.remove_target c) = c ≡ code
  IsFit (Effect.cleanup c) = ⊥
  IsFit _ = Unit

  pub record Fits (d : Done F) : Type 0 where
    pub fits : All IsFit d.effects
