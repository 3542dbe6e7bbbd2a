-- ===== src/Scout/Score.antt =====
-- `score_candidate` of prime_jennie/services/scout/quant.py and the validators of `QuantScore` of
-- prime_jennie/domain/scoring.py. The comparison that is only logged, the name of the stock and the text of
-- the reason are left out.
use prime_jennie.Prelude.{
  Bool, true, false, ◌&&◌, ltb, length, Option, none, some, [], ◌∷◌, String, if◌then◌else◌,
}
use prime_jennie.Enums.{MarketRegime, is_bull}
use prime_jennie.Float.{Float, whole, fmin, fmax}
use prime_jennie.Scanner.Gates.{fabs}
use prime_jennie.Scout.Enriched.{EnrichedCandidate}
use prime_jennie.Scout.Factors.{
  quality_score, value_score, news_score, sector_momentum_score, supply_demand_score,
}
use prime_jennie.Scout.Quant.{momentum_score, technical_score}

pub record QuantScore (F : Type 0) : Type 0 where
  pub stock_code : String
  pub total_score : F
  pub momentum_score : F
  pub quality_score : F
  pub value_score : F
  pub technical_score : F
  pub news_score : F
  pub supply_demand_score : F
  pub sector_momentum_score : F
  pub is_valid : Bool

-- What a call comes to: the exceptions are the ZeroDivisionError, the refusal of the total by its
-- range, and the ValueError of a total that is not the sum.
pub data Scoring (F : Type 0) : Type 0 where
  divided_by_zero out_of_range inconsistent : Scoring F
  scored : QuantScore F → Scoring F

abbrev pub in_bull : Option MarketRegime → Bool
in_bull none = false
in_bull (some regime) = is_bull regime

module _ {F : Type 0} ⦃num : Float F⦄ where
  open num use {lit, sum, round₁, add, sub, lt, le}

  -- max(0.0, min(100.0, total))
  abbrev pub capped : F → F
  capped total = fmax (lit 0 1) (fmin (lit 1000 1) total)

  abbrev pub total_of : F → F → F → F → F → F → F → F
  total_of momentum quality value technical news supply sector =
      add (add (add (add (add (add momentum quality) value) technical) news) supply) sector

  unfoldable pub check_total_vs_subscores : QuantScore F → Scoring F
  check_total_vs_subscores q =
      let raw_sum =
        total_of q.momentum_score q.quality_score q.value_score q.technical_score q.news_score
          q.supply_demand_score q.sector_momentum_score in
      if lt (lit 15 1) (fabs (sub q.total_score (capped raw_sum))) then inconsistent else scored q

  -- the construction of a `QuantScore`: the range of `Score`, and then the validator
  unfoldable pub validated : QuantScore F → Scoring F
  unfolding check_total_vs_subscores
  validated q =
      if le (whole 0) q.total_score && le q.total_score (whole 100)
      then check_total_vs_subscores q
      else out_of_range

  unfoldable pub neutral_score : EnrichedCandidate F → QuantScore F
  neutral_score candidate = record {
    stock_code = candidate.stock_code;
    total_score =
        sum (lit 100 1 ∷ lit 100 1 ∷ lit 100 1 ∷ lit 50 1 ∷ lit 50 1 ∷ lit 100 1 ∷ lit 50 1 ∷ []);
    momentum_score = lit 100 1;
    quality_score = lit 100 1;
    value_score = lit 100 1;
    technical_score = lit 50 1;
    news_score = lit 50 1;
    supply_demand_score = lit 100 1;
    sector_momentum_score = lit 50 1;
    is_valid = false;
  }

  -- the score of a candidate with prices enough, for its momentum
  unfoldable pub score_with : EnrichedCandidate F → F → QuantScore F
  unfolding quality_score value_score technical_score news_score supply_demand_score
      sector_momentum_score
  score_with candidate momentum =
      let quality = quality_score candidate in
      let value = value_score candidate in
      let technical = technical_score candidate.daily_prices in
      let news = news_score candidate in
      let supply_demand = supply_demand_score candidate in
      let sector_momentum = sector_momentum_score candidate in
      let total = total_of momentum quality value technical news supply_demand sector_momentum in
      record {
        stock_code = candidate.stock_code;
        total_score = round₁ (capped total);
        momentum_score = round₁ momentum;
        quality_score = round₁ quality;
        value_score = round₁ value;
        technical_score = round₁ technical;
        news_score = round₁ news;
        supply_demand_score = round₁ supply_demand;
        sector_momentum_score = round₁ sector_momentum;
        is_valid = true;
      }

  abbrev pub when_scored : EnrichedCandidate F → Option F → Scoring F
  when_scored candidate none = divided_by_zero
  when_scored candidate (some momentum) = validated (score_with candidate momentum)

  unfoldable pub score_candidate : EnrichedCandidate F → Option MarketRegime → Scoring F
  unfolding momentum_score validated neutral_score score_with
  score_candidate candidate market_regime =
      if ltb (length candidate.daily_prices) 20
      then validated (neutral_score candidate)
      else when_scored candidate
          (momentum_score candidate.daily_prices (in_bull market_regime) candidate.consensus)
