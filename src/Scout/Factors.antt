-- ===== src/Scout/Factors.antt =====
-- The sub-scores of prime_jennie/services/scout/quant.py that read no prices of several days, and the linear
-- map. A step takes the score so far, as `score += ...` does.
use prime_jennie.Prelude.{◌&&◌, ◌||◌, Option, none, some, if◌then◌else◌}
use prime_jennie.Prelude.Int.{ℤ, pos, eqb_ℤ}
use prime_jennie.Float.{Float, whole, minus, fmin, fmax}
use prime_jennie.Scout.Enriched.{
  StockSnapshot, InvestorTradingSummary, FinancialTrend, ConsensusInfo, EnrichedCandidate,
}

module _ {F : Type 0} ⦃num : Float F⦄ where
  open num use {lit, of_int, add, sub, mul, div, lt, le, eq}

  unfoldable pub linear_map : F → F → F → F → F → F
  linear_map value in_min in_max out_min out_max =
      let clamped = fmax in_min (fmin in_max value) in
      if eq in_max in_min
      then div (add out_min out_max) (whole 2)
      else add out_min (mul (div (sub clamped in_min) (sub in_max in_min)) (sub out_max out_min))

  -- a value that is given and positive
  abbrev pub positive : Option F → Option F
  positive none = none
  positive (some x) = if lt (whole 0) x then some x else none

  abbrev pub or_else : Option F → Option F → Option F
  or_else (some x) y = some x
  or_else none y = y

  abbrev pub forward_roe_of : Option (ConsensusInfo F) → Option F
  forward_roe_of none = none
  forward_roe_of (some cons) = cons.forward_roe

  abbrev pub forward_per_of : Option (ConsensusInfo F) → Option F
  forward_per_of none = none
  forward_per_of (some cons) = positive cons.forward_per

  abbrev pub effective_per : FinancialTrend F → Option (ConsensusInfo F) → Option F
  effective_per ft cons = or_else (forward_per_of cons) (positive ft.per)

  abbrev pub roe_points : Option F → F
  roe_points none = lit 50 1
  roe_points (some roe) =
      if le (whole 15) roe
      then lit 100 1
      else if le (whole 10) roe
      then lit 80 1
      else if le (whole 5) roe
      then lit 50 1
      else if le (whole 0) roe
      then lit 20 1
      else lit 0 1

  abbrev pub asset_step : Option F → F → F
  asset_step none score = score
  asset_step (some pbr) score = add score (
      if lt pbr (lit 10 1)
      then lit 50 1
      else if lt pbr (lit 20 1)
      then lit 30 1
      else if lt pbr (lit 40 1)
      then lit 15 1
      else lit 10 1)

  abbrev pub stable_step : Option F → F → F
  stable_step none score = score
  stable_step (some per) score = add score (
      if le (whole 5) per && le per (whole 15)
      then lit 50 1
      else if le (whole 3) per && le per (whole 25)
      then lit 30 1
      else if le per (whole 50)
      then lit 10 1
      else lit 5 1)

  unfoldable pub quality_of : Option (FinancialTrend F) → Option (ConsensusInfo F) → F
  quality_of none cons = lit 100 1
  quality_of (some ft) cons = fmin (lit 200 1) (
      stable_step (effective_per ft cons) (
        asset_step (positive ft.pbr)
          (add (lit 0 1) (roe_points (or_else (forward_roe_of cons) ft.roe)))))

  unfoldable pub quality_score : EnrichedCandidate F → F
  unfolding quality_of
  quality_score candidate = quality_of candidate.financial_trend candidate.consensus

  abbrev pub discount_step : Option F → F → F
  discount_step none score = score
  discount_step (some per) score = add score (
      if lt per (whole 8)
      then lit 100 1
      else if lt per (whole 12)
      then lit 70 1
      else if lt per (whole 15)
      then lit 55 1
      else if lt per (whole 20)
      then lit 40 1
      else if lt per (whole 30)
      then lit 25 1
      else if lt per (whole 50)
      then lit 20 1
      else lit 15 1)

  abbrev pub book_step : Option F → F → F
  book_step none score = score
  book_step (some pbr) score = add score (
      if lt pbr (lit 7 1)
      then lit 50 1
      else if lt pbr (lit 10 1)
      then lit 40 1
      else if lt pbr (lit 15 1)
      then lit 25 1
      else if lt pbr (lit 30 1)
      then lit 15 1
      else lit 10 1)

  abbrev pub drawdown_points : F → F
  drawdown_points drawdown =
      if lt drawdown (minus 30 0)
      then lit 15 1
      else if lt drawdown (minus 15 0)
      then lit 35 1
      else if lt drawdown (minus 5 0)
      then lit 40 1
      else lit 50 1

  -- the price and the high of the year, where both are given and not 0
  abbrev pub high_step : ℤ → Option ℤ → F → F
  high_step price none score = score
  high_step price (some high) score =
      if eqb_ℤ high (pos 0) || eqb_ℤ price (pos 0)
      then score
      else add score
          (drawdown_points (mul (sub (div (of_int price) (of_int high)) (whole 1)) (whole 100)))

  abbrev pub snapshot_step : Option StockSnapshot → F → F
  snapshot_step none score = score
  snapshot_step (some snap) score = high_step snap.price snap.high_52w score

  unfoldable pub value_of :
      Option (FinancialTrend F) → Option (ConsensusInfo F) → Option StockSnapshot → F
  value_of none cons snap = lit 100 1
  value_of (some ft) cons snap = fmin (lit 200 1) (
      snapshot_step snap
        (book_step (positive ft.pbr) (discount_step (effective_per ft cons) (lit 0 1))))

  unfoldable pub value_score : EnrichedCandidate F → F
  unfolding value_of
  value_score candidate = value_of candidate.financial_trend candidate.consensus candidate.snapshot

  abbrev pub or_neutral : F → (F → F) → Option F → F
  or_neutral neutral f none = neutral
  or_neutral neutral f (some x) = f x

  unfoldable pub news_score : EnrichedCandidate F → F
  unfolding linear_map
  news_score candidate =
      or_neutral (lit 50 1) (λ x. linear_map x (whole 20) (whole 80) (whole 0) (whole 10))
        candidate.news_sentiment_avg

  unfoldable pub sector_momentum_score : EnrichedCandidate F → F
  unfolding linear_map
  sector_momentum_score candidate =
      or_neutral (lit 50 1) (λ x. linear_map x (minus 50 1) (lit 150 1) (lit 0 1) (lit 100 1))
        candidate.sector_avg_return_20d

  -- the points of a net purchase, `half` for none and at most `most`
  unfoldable pub net_buy_points : F → F → F → F
  net_buy_points half most amount =
      let points = add half (mul (div amount (lit 5_000_000_000 0)) half) in
      if lt (whole 0) amount
      then fmin most points
      else if lt amount (whole 0)
      then fmax (lit 0 1) points
      else half

  abbrev pub trend_points : Option F → F
  trend_points none = lit 30 1
  trend_points (some trend) =
      if lt (lit 10 1) trend
      then lit 60 1
      else if lt (lit 3 1) trend
      then lit 45 1
      else if lt (whole 0) trend
      then lit 30 1
      else if lt (minus 5 1) trend
      then lit 15 1
      else lit 0 1

  unfoldable pub supply_demand_of : Option (InvestorTradingSummary F) → F
  unfolding net_buy_points
  supply_demand_of none = lit 100 1
  supply_demand_of (some it) = fmin (lit 200 1) (
      add
        (add (add (lit 0 1) (net_buy_points (lit 30 1) (lit 60 1) it.foreign_net_buy_sum))
          (net_buy_points (lit 40 1) (lit 80 1) it.institution_net_buy_sum))
        (trend_points it.foreign_ratio_trend))

  unfoldable pub supply_demand_score : EnrichedCandidate F → F
  unfolding supply_demand_of
  supply_demand_score candidate = supply_demand_of candidate.investor_trading
