-- ===== src/Scout/Scored.antt =====
-- What `score_candidate` of prime_jennie/services/scout/quant.py gives.
use prime_jennie.Prelude.{
  ℕ, ◌≤◌, ◌≡◌, Bool, true, false, if◌then◌else◌, ltb, length, All, Option, none, some, [], ◌∷◌, ◌⨾◌,
  arith,
}
use prime_jennie.Enums.{MarketRegime}
use prime_jennie.Float.{Float, whole}
use prime_jennie.Float.Order.{◌≼◌, IsOrdered}
use prime_jennie.Float.Scaling.{IsScaling}
use prime_jennie.Scout.Enriched.{EnrichedCandidate}
use prime_jennie.Scout.Factors.{
  quality_score, value_score, news_score, sector_momentum_score, supply_demand_score,
}
use prime_jennie.Scout.Quant.{closes_of, technical_score}
use prime_jennie.Scout.Score.{
  QuantScore, Scoring, check_total_vs_subscores, validated, neutral_score, score_with, when_scored,
  capped, total_of, score_candidate, in_bull,
}
use prime_jennie.Scout.Ranges.{
  IsWithin, lit-nonneg, lit-IsWithin, fmin-IsWithin, quality_score-IsWithin, value_score-IsWithin,
  news_score-IsWithin, sector_momentum_score-IsWithin, supply_demand_score-IsWithin,
}
use prime_jennie.Scout.Traded.{IsTraded}
use prime_jennie.Scout.Momentum.{HasMomentum, momentum_score-HasMomentum}
use prime_jennie.Scout.Technical.{technical_score-IsWithin}

module _ {F : Type 0} ⦃num : Float F⦄ where
  -- every score of a candidate in its range
  pub record IsScored (q : QuantScore F) : Type 0 where
    pub total : IsWithin 100 q.total_score
    pub momentum : IsWithin 20 q.momentum_score
    pub quality : IsWithin 20 q.quality_score
    pub value : IsWithin 20 q.value_score
    pub technical : IsWithin 10 q.technical_score
    pub news : IsWithin 10 q.news_score
    pub supply_demand : IsWithin 20 q.supply_demand_score
    pub sector_momentum : IsWithin 10 q.sector_momentum_score

  -- a call that is left to the validator of the sum, with scores in their ranges
  pub record IsChecked (s : Scoring F) : Type 0 where
    pub score : QuantScore F
    pub is_scored : IsScored score
    pub is_checked : s ≡ check_total_vs_subscores score

  if-IsChecked :
      (b : Bool) (x y : Scoring F) → IsChecked x → IsChecked y → IsChecked (if b then x else y)
  if-IsChecked true x y h k = h
  if-IsChecked false x y h k = k

  module _ (laws : IsOrdered num) (scaling : IsScaling num) where
    open num use {lit, add, round₁}

    rounded : (n : ℕ) (x : F) → n ≤ 1000 → IsWithin n x → IsWithin n (round₁ x)
    rounded n x h (low, up) = (scaling.round₁_lower x low, scaling.round₁_upper x n h up)

    validated-IsChecked : (q : QuantScore F) → IsScored q → IsChecked (validated q)
    unfolding validated
    validated-IsChecked q h =
        let (low, up) = h.total in
        record { score = q; is_scored = h; is_checked = ground (arith, low, up) }

    neutral_score-IsScored : (c : EnrichedCandidate F) → IsScored (neutral_score c)
    unfolding neutral_score
    neutral_score-IsScored c =
        let ten = lit-IsWithin laws scaling 100 1 10 (omega arith) in
        let five = lit-IsWithin laws scaling 50 1 10 (omega arith) in
        let twenty = lit-IsWithin laws scaling 100 1 20 (omega arith) in
        let (low, up) =
          scaling.sum_bounds 10
            (lit 100 1 ∷ lit 100 1 ∷ lit 100 1 ∷ lit 50 1 ∷ lit 50 1 ∷ lit 100 1 ∷ lit 50 1 ∷ [])
            (ten ⨾ ten ⨾ ten ⨾ five ⨾ five ⨾ ten ⨾ five ⨾ tt) (omega arith) in
        record {
          total = (low, laws.le_trans _ _ _ up (laws.lit_mono 70 0 100 0 (omega arith)));
          momentum = twenty;
          quality = twenty;
          value = twenty;
          technical = five;
          news = five;
          supply_demand = twenty;
          sector_momentum = five;
        }

    capped-IsWithin : (x : F) → whole 0 ≼ x → IsWithin 100 (capped x)
    capped-IsWithin x h =
        let (low, up) = fmin-IsWithin laws scaling 1000 1 100 x (omega arith) h in
        ground (arith, low, up, lit-IsWithin laws scaling 0 1 100, lit-nonneg laws scaling 0 1)

    score_with-IsScored :
        (c : EnrichedCandidate F) (m : F) → IsWithin 20 m → IsScored (score_with c m)
    unfolding score_with
    score_with-IsScored c m h =
        let quality = quality_score-IsWithin laws scaling c in
        let value = value_score-IsWithin laws scaling c in
        let technical = technical_score-IsWithin laws scaling c.daily_prices in
        let news = news_score-IsWithin laws scaling c in
        let supply = supply_demand_score-IsWithin laws scaling c in
        let sector = sector_momentum_score-IsWithin laws scaling c in
        let total =
          total_of m (quality_score c) (value_score c) (technical_score c.daily_prices)
            (news_score c) (supply_demand_score c) (sector_momentum_score c) in
        record {
          total =
              rounded 100 (capped total) (omega arith)
                (capped-IsWithin total (search (scaling.add_nonneg) depth 10));
          momentum = rounded 20 m (omega arith) h;
          quality = rounded 20 (quality_score c) (omega arith) quality;
          value = rounded 20 (value_score c) (omega arith) value;
          technical = rounded 10 (technical_score c.daily_prices) (omega arith) technical;
          news = rounded 10 (news_score c) (omega arith) news;
          supply_demand = rounded 20 (supply_demand_score c) (omega arith) supply;
          sector_momentum = rounded 10 (sector_momentum_score c) (omega arith) sector;
        }

    when_scored-IsChecked :
        (c : EnrichedCandidate F) (o : Option F) → HasMomentum o → IsChecked (when_scored c o)
    when_scored-IsChecked c none h = absurd (ground (arith, h.has))
    when_scored-IsChecked c (some m) h =
        validated-IsChecked (score_with c m)
          (score_with-IsScored c m (ground (arith, h.has, h.within)))

    -- For floats with the laws of order and of scaling: where no closing price is 0, the score of a
    -- candidate never fails by a division, and its total is never refused by its range: only the
    -- comparison of the total with the sum may refuse it. The total is between 0 and 100; the
    -- momentum, the quality, the value and the supply are between 0 and 20; the technical score,
    -- the news and the sector are between 0 and 10.
    pub score_candidate-IsChecked :
        (c : EnrichedCandidate F) (regime : Option MarketRegime)
        → All IsTraded (closes_of c.daily_prices)
        → IsChecked (score_candidate c regime)
    unfolding score_candidate
    score_candidate-IsChecked c regime traded =
        if-IsChecked (ltb (length c.daily_prices) 20) _ _
          (validated-IsChecked (neutral_score c) (neutral_score-IsScored c))
          (when_scored-IsChecked c _ (
            momentum_score-HasMomentum laws scaling c.daily_prices (in_bull regime) c.consensus
              traded))
