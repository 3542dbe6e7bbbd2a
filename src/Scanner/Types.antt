-- ===== src/Scanner/Types.antt =====
-- The settings and the context that prime_jennie/services/scanner reads: `ScannerConfig` of
-- prime_jennie/domain/config.py and `TradingContext` of prime_jennie/domain/macro.py. The date and the
-- raw multipliers are left out, which are only stored.
use prime_jennie.Prelude.{Bool, false, Option, List, [], String, codes}
use prime_jennie.Prelude.Int.{ℤ, pos}
use prime_jennie.Enums.{MarketRegime, VixRegime, SectorGroup, TradeTier, RiskTag}
use prime_jennie.Float.{Float}
use prime_jennie.Config.Sell.{Text}

pub record ScannerConfig (F : Type 0) : Type 0 where
  pub min_required_bars : ℤ
  pub signal_cooldown_seconds : ℤ
  pub rsi_guard_max : F
  pub rsi_guard_bull_max : F
  pub volume_ratio_warning : F
  pub vwap_deviation_warning : F
  pub no_trade_window_start : Text
  pub no_trade_window_end : Text
  pub danger_zone_start : Text
  pub danger_zone_end : Text
  pub conviction_entry_enabled : Bool
  pub conviction_min_hybrid_score : F
  pub conviction_min_llm_score : F
  pub conviction_max_gain_pct : F
  pub conviction_window_start : Text
  pub conviction_window_end : Text
  pub momentum_confirmation_bars : ℤ
  pub momentum_max_gain_pct : F
  pub orb_enabled : Bool
  pub orb_range_minutes : ℤ
  pub orb_min_volume_ratio : F
  pub orb_min_range_pct : F
  pub orb_max_range_pct : F
  pub orb_window_end : Text

pub record TradingContext (F : Type 0) : Type 0 where
  pub market_regime : MarketRegime
  pub position_multiplier : F
  pub stop_loss_multiplier : F
  pub vix_regime : VixRegime
  pub risk_off_level : ℤ
  pub favor_sectors : List SectorGroup
  pub avoid_sectors : List SectorGroup
  pub strategies_to_avoid : List String
  pub is_high_volatility : Bool

-- `WatchlistEntry` of prime_jennie/domain/watchlist.py, as the scanner reads it; `scored_at` is in
-- microseconds
pub record WatchlistEntry (F : Type 0) : Type 0 where
  pub stock_code : String
  pub stock_name : String
  pub llm_score : F
  pub hybrid_score : F
  pub rank : ℤ
  pub is_tradable : Bool
  pub trade_tier : TradeTier
  pub risk_tag : RiskTag
  pub sector_group : Option SectorGroup
  pub scored_at : Option ℤ

module _ {F : Type 0} ⦃num : Float F⦄ where
  open num use {lit}

  abbrev pub scanner_defaults : ScannerConfig F
  scanner_defaults = record {
    min_required_bars = pos 20;
    signal_cooldown_seconds = pos 600;
    rsi_guard_max = lit 750 1;
    rsi_guard_bull_max = lit 850 1;
    volume_ratio_warning = lit 20 1;
    vwap_deviation_warning = lit 2 2;
    no_trade_window_start = codes "09:00";
    no_trade_window_end = codes "09:15";
    danger_zone_start = codes "14:00";
    danger_zone_end = codes "15:00";
    conviction_entry_enabled = false;
    conviction_min_hybrid_score = lit 700 1;
    conviction_min_llm_score = lit 720 1;
    conviction_max_gain_pct = lit 30 1;
    conviction_window_start = codes "09:15";
    conviction_window_end = codes "10:30";
    momentum_confirmation_bars = pos 1;
    momentum_max_gain_pct = lit 70 1;
    orb_enabled = false;
    orb_range_minutes = pos 15;
    orb_min_volume_ratio = lit 20 1;
    orb_min_range_pct = lit 5 1;
    orb_max_range_pct = lit 50 1;
    orb_window_end = codes "10:30";
  }

  -- `TradingContext.default`
  abbrev pub context_default : TradingContext F
  context_default = record {
    market_regime = MarketRegime.sideways;
    position_multiplier = lit 8 1;
    stop_loss_multiplier = lit 12 1;
    vix_regime = VixRegime.normal;
    risk_off_level = pos 0;
    favor_sectors = [];
    avoid_sectors = [];
    strategies_to_avoid = [];
    is_high_volatility = false;
  }
