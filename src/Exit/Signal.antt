-- ===== src/Exit/Signal.antt =====
-- The two records of prime_jennie/services/monitor/exit_rules.py.
use prime_jennie.Prelude.{ℕ, Bool, true, Option}
use prime_jennie.Prelude.Int.{ℤ}
use prime_jennie.Enums.{SellReason}
use prime_jennie.Float.{Float, whole}

pub record ExitSignal (F : Type 0) : Type 0 where
  pub should_sell : Bool
  pub reason : SellReason
  pub quantity_pct : F

pub record PositionContext (F : Type 0) : Type 0 where
  pub current_price : F
  pub buy_price : F
  pub quantity : ℤ
  pub profit_pct : F
  pub high_watermark : F
  pub high_profit_pct : F
  pub atr : F
  pub rsi : Option F
  pub holding_days : ℤ
  pub scale_out_level : ℕ
  pub rsi_sold : Bool
  pub macd_bearish : Bool
  pub death_cross : Bool
  pub profit_floor_active : Bool
  pub profit_floor_level : F

-- What a rule does: it says nothing, asks for a sale, or raises.
pub data Outcome (F : Type 0) : Type 0 where
  quiet : Outcome F
  signal : ExitSignal F → Outcome F
  raises : Outcome F

module _ {F : Type 0} ⦃num : Float F⦄ where
  abbrev pub sell : SellReason → F → Outcome F
  sell reason pct = signal (record { should_sell = true; reason = reason; quantity_pct = pct })

  abbrev pub sell_all : SellReason → Outcome F
  sell_all reason = sell reason (whole 100)
