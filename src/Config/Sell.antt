-- ===== src/Config/Sell.antt =====
-- `SellConfig` of prime_jennie/domain/config.py.
use prime_jennie.Prelude.{ℕ, Bool, true, List}
use prime_jennie.Prelude.Int.{ℤ, pos}
use prime_jennie.Float.{Float, whole}

-- A text as its code points.
abbrev pub Text : Type 0
Text = List ℕ

pub record SellConfig (F : Type 0) : Type 0 where
  pub atr_multiplier : F
  pub stop_loss_pct : F
  pub trailing_enabled : Bool
  pub trailing_activation_pct : F
  pub trailing_atr_mult : F
  pub trailing_min_profit_pct : F
  pub trailing_drop_from_high_pct : F
  pub scale_out_enabled : Bool
  pub rsi_overbought_threshold : F
  pub rsi_min_profit_pct : F
  pub profit_target_pct : F
  pub max_holding_days : ℤ
  pub time_exit_bull_days : ℤ
  pub time_exit_sideways_days : ℤ
  pub profit_floor_activation : F
  pub profit_floor_level : F
  pub profit_lock_l1_mult : F
  pub profit_lock_l1_min : F
  pub profit_lock_l1_max : F
  pub profit_lock_l1_floor : F
  pub profit_lock_l2_mult : F
  pub profit_lock_l2_min : F
  pub profit_lock_l2_max : F
  pub profit_lock_l2_floor : F
  pub scale_out_levels_bull : Text
  pub scale_out_levels_bear : Text
  pub scale_out_levels_sideways : Text
  pub breakeven_enabled : Bool
  pub breakeven_activation_pct : F
  pub breakeven_floor_pct : F
  pub time_tighten_enabled : Bool
  pub time_tighten_start_days : ℤ
  pub time_tighten_start_days_bull : ℤ
  pub time_tighten_max_reduction_pct : F
  pub death_cross_bear_only : Bool
  pub min_transaction_amount : F
  pub min_sell_quantity : ℤ

module _ {F : Type 0} ⦃num : Float F⦄ where
  open num use {lit}

  -- The defaults of the source, which the environment may override.
  abbrev pub sell_defaults : Text → Text → Text → SellConfig F
  sell_defaults bull bear sideways = record {
    atr_multiplier = whole 2;
    stop_loss_pct = whole 6;
    trailing_enabled = true;
    trailing_activation_pct = whole 5;
    trailing_atr_mult = lit 15 1;
    trailing_min_profit_pct = whole 3;
    trailing_drop_from_high_pct = lit 35 1;
    scale_out_enabled = true;
    rsi_overbought_threshold = whole 75;
    rsi_min_profit_pct = whole 3;
    profit_target_pct = whole 10;
    max_holding_days = pos 30;
    time_exit_bull_days = pos 20;
    time_exit_sideways_days = pos 35;
    profit_floor_activation = whole 15;
    profit_floor_level = whole 10;
    profit_lock_l1_mult = lit 15 1;
    profit_lock_l1_min = lit 15 1;
    profit_lock_l1_max = whole 3;
    profit_lock_l1_floor = lit 2 1;
    profit_lock_l2_mult = lit 25 1;
    profit_lock_l2_min = whole 3;
    profit_lock_l2_max = whole 5;
    profit_lock_l2_floor = whole 1;
    scale_out_levels_bull = bull;
    scale_out_levels_bear = bear;
    scale_out_levels_sideways = sideways;
    breakeven_enabled = true;
    breakeven_activation_pct = whole 3;
    breakeven_floor_pct = lit 3 1;
    time_tighten_enabled = true;
    time_tighten_start_days = pos 10;
    time_tighten_start_days_bull = pos 15;
    time_tighten_max_reduction_pct = whole 2;
    death_cross_bear_only = true;
    min_transaction_amount = whole 500_000;
    min_sell_quantity = pos 50;
  }
