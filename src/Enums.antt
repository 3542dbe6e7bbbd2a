-- ===== src/Enums.antt =====
-- prime_jennie/domain/enums.py: the enumerations that the modelled services branch on.
use prime_jennie.Prelude.{
  get_elem?, List, [], ◌∷◌, Option, none, some, ◌≡◌, refl, sym, ap, ◌∙◌, arith, ℕ, ◌==◌, Bool, true,
  false,
}

pub data MarketRegime : Type 0 where
  strong_bull bull sideways bear strong_bear : MarketRegime

pub data TradeTier : Type 0 where
  tier1 tier2 blocked : TradeTier

pub data RiskTag : Type 0 where
  bullish neutral caution distribution_risk : RiskTag

pub data SignalType : Type 0 where
  golden_cross rsi_rebound momentum momentum_continuation dip_buy volume_breakout : SignalType
  watchlist_conviction orb_breakout : SignalType

pub data SellReason : Type 0 where
  profit_target stop_loss trailing_stop breakeven_stop rsi_overbought time_exit : SellReason
  profit_floor death_cross risk_off manual forced_liquidation : SellReason

pub data SectorTier : Type 0 where
  hot warm cool : SectorTier

pub data SectorGroup : Type 0 where
  semiconductor_it bio_health secondary_battery finance automobile construction : SectorGroup
  chemical steel_material food_consumer media_entertainment logistics_transport : SectorGroup
  telecom utility defense_shipbuilding etc : SectorGroup

pub data OrderType : Type 0 where
  market limit : OrderType

pub data VixRegime : Type 0 where
  low_vol normal elevated crisis : VixRegime

-- `regime in (MarketRegime.STRONG_BULL, MarketRegime.BULL)`
abbrev pub is_bull : MarketRegime → Bool
is_bull MarketRegime.strong_bull = true
is_bull MarketRegime.bull = true
is_bull _ = false

-- `signal_type in MOMENTUM_STRATEGIES`
abbrev pub is_momentum : SignalType → Bool
is_momentum SignalType.momentum = true
is_momentum SignalType.momentum_continuation = true
is_momentum _ = false

abbrev pub sector_index : SectorGroup → ℕ
sector_index SectorGroup.semiconductor_it = 0
sector_index SectorGroup.bio_health = 1
sector_index SectorGroup.secondary_battery = 2
sector_index SectorGroup.finance = 3
sector_index SectorGroup.automobile = 4
sector_index SectorGroup.construction = 5
sector_index SectorGroup.chemical = 6
sector_index SectorGroup.steel_material = 7
sector_index SectorGroup.food_consumer = 8
sector_index SectorGroup.media_entertainment = 9
sector_index SectorGroup.logistics_transport = 10
sector_index SectorGroup.telecom = 11
sector_index SectorGroup.utility = 12
sector_index SectorGroup.defense_shipbuilding = 13
sector_index SectorGroup.etc = 14

abbrev pub same_sector : SectorGroup → SectorGroup → Bool
same_sector a b = sector_index a == sector_index b

-- all groups, in the order of `sector_index`
abbrev sectors : List SectorGroup
sectors =
    SectorGroup.semiconductor_it ∷ SectorGroup.bio_health ∷ SectorGroup.secondary_battery
    ∷ SectorGroup.finance ∷ SectorGroup.automobile ∷ SectorGroup.construction ∷ SectorGroup.chemical
    ∷ SectorGroup.steel_material ∷ SectorGroup.food_consumer ∷ SectorGroup.media_entertainment
    ∷ SectorGroup.logistics_transport ∷ SectorGroup.telecom ∷ SectorGroup.utility
    ∷ SectorGroup.defense_shipbuilding ∷ SectorGroup.etc ∷ []

abbrev or_etc : Option SectorGroup → SectorGroup
or_etc none = SectorGroup.etc
or_etc (some g) = g

abbrev sector_at : ℕ → SectorGroup
sector_at n = or_etc (get_elem? sectors n)

at-index : (g : SectorGroup) → sector_at (sector_index g) ≡ g
at-index SectorGroup.semiconductor_it = refl
at-index SectorGroup.bio_health = refl
at-index SectorGroup.secondary_battery = refl
at-index SectorGroup.finance = refl
at-index SectorGroup.automobile = refl
at-index SectorGroup.construction = refl
at-index SectorGroup.chemical = refl
at-index SectorGroup.steel_material = refl
at-index SectorGroup.food_consumer = refl
at-index SectorGroup.media_entertainment = refl
at-index SectorGroup.logistics_transport = refl
at-index SectorGroup.telecom = refl
at-index SectorGroup.utility = refl
at-index SectorGroup.defense_shipbuilding = refl
at-index SectorGroup.etc = refl

pub eq_of_same_sector : (a b : SectorGroup) → same_sector a b ≡ true → a ≡ b
eq_of_same_sector a b e =
    let same : sector_index a ≡ sector_index b = ground (arith, e) in
    sym (at-index a) ∙ ap sector_at same ∙ at-index b
