-- ===== src/Scout/Ranges.antt =====
-- The ranges of the sub-scores of prime_jennie/services/scout/quant.py that read no prices of several days.
use prime_jennie.Prelude.{
  ℕ, ◌≤◌, ◌<◌, inl, inr, Bool-cases, ◌*◌, ◌^◌, Bool, true, false, Option, none, some, if◌then◌else◌,
  arith,
}
use prime_jennie.Prelude.Int.{ℤ}
use prime_jennie.Float.{Float, whole, minus, fmin, fmax}
use prime_jennie.Float.Order.{◌≼◌, IsOrdered, fmin-le_left}
use prime_jennie.Float.Scaling.{IsScaling}
use prime_jennie.Scout.Enriched.{
  StockSnapshot, InvestorTradingSummary, FinancialTrend, ConsensusInfo, EnrichedCandidate,
}
use prime_jennie.Scout.Mapped.{linear_map_range, lit-IsSmall, minus-IsSmall, minus-lt_lit}
use prime_jennie.Scout.Factors.{
  quality_of, quality_score, value_of, value_score, news_score, sector_momentum_score,
  net_buy_points, supply_demand_of, supply_demand_score, asset_step, stable_step, discount_step,
  book_step, snapshot_step, high_step, effective_per, positive, roe_points, or_else, forward_roe_of,
  trend_points, or_neutral, linear_map,
}

module _ {F : Type 0} ⦃num : Float F⦄ where
  abbrev pub IsWithin : ℕ → F → Type 0
  IsWithin n x = (whole 0 ≼ x) × (x ≼ whole n)

  pub if-nonneg : (b : Bool) (x y : F) → whole 0 ≼ x → whole 0 ≼ y → whole 0 ≼ (if b then x else y)
  if-nonneg true x y p q = p
  if-nonneg false x y p q = q

  module _ (laws : IsOrdered num) (scaling : IsScaling num) where
    open num use {lit, lt, add, mul, div}

    pub lit-nonneg : (m k : ℕ) → whole 0 ≼ lit m k
    lit-nonneg m k = laws.lit_mono 0 0 m k (omega arith)

    pub lit-IsWithin : (m k n : ℕ) → m ≤ n * 10 ^ k → IsWithin n (lit m k)
    lit-IsWithin m k n h = (lit-nonneg m k, laws.lit_mono m k n 0 (omega (arith, h)))

    pub fmin-IsWithin :
        (m k n : ℕ) (s : F) → m ≤ n * 10 ^ k → whole 0 ≼ s → IsWithin n (fmin (lit m k) s)
    fmin-IsWithin m k n s h p =
        let (_, ns) = laws.refl_of_le (whole 0) s p in
        let (_, top) = lit-IsWithin m k n h in
        let (nl, _) = laws.refl_of_le (lit m k) (whole n) top in
        (
          ground (arith, p, lit-nonneg m k),
          laws.le_trans (fmin (lit m k) s) (lit m k) (whole n) (fmin-le_left laws (lit m k) s nl ns)
              top,
        )

    pub points : (score x : F) → whole 0 ≼ score → whole 0 ≼ x → whole 0 ≼ add score x
    points score x h k = scaling.add_nonneg score x h k

    pub ruleset nonneg = (if-nonneg, points, lit-nonneg)

    asset : (pbr : Option F) (score : F) → whole 0 ≼ score → whole 0 ≼ asset_step pbr score
    asset none score h = h
    asset (some pbr) score h = search nonneg

    stable : (per : Option F) (score : F) → whole 0 ≼ score → whole 0 ≼ stable_step per score
    stable none score h = h
    stable (some per) score h = search nonneg

    roe : (r : Option F) → whole 0 ≼ roe_points r
    roe none = search nonneg
    roe (some r) = search nonneg depth 10

    quality_of-IsWithin :
        (ft : Option (FinancialTrend F)) (cons : Option (ConsensusInfo F))
        → IsWithin 20 (quality_of ft cons)
    unfolding quality_of
    quality_of-IsWithin none cons = lit-IsWithin 100 1 20 (omega arith)
    quality_of-IsWithin (some ft) cons =
        fmin-IsWithin 200 1 20
          (stable_step (effective_per ft cons) (
            asset_step (positive ft.pbr)
              (add (lit 0 1) (roe_points (or_else (forward_roe_of cons) ft.roe)))))
          (omega arith) (search (nonneg, stable, asset, roe) depth 10)

    pub quality_score-IsWithin : (c : EnrichedCandidate F) → IsWithin 20 (quality_score c)
    unfolding quality_score
    quality_score-IsWithin c = quality_of-IsWithin c.financial_trend c.consensus

    discount : (per : Option F) (score : F) → whole 0 ≼ score → whole 0 ≼ discount_step per score
    discount none score h = h
    discount (some per) score h = search nonneg depth 10

    book : (pbr : Option F) (score : F) → whole 0 ≼ score → whole 0 ≼ book_step pbr score
    book none score h = h
    book (some pbr) score h = search nonneg depth 10

    high :
        (price : ℤ) (top : Option ℤ) (score : F)
        → whole 0 ≼ score
        → whole 0 ≼ high_step price top score
    high price none score h = h
    high price (some top) score h = search nonneg depth 10

    snapshot :
        (snap : Option StockSnapshot) (score : F)
        → whole 0 ≼ score
        → whole 0 ≼ snapshot_step snap score
    snapshot none score h = h
    snapshot (some snap) score h = high snap.price snap.high_52w score h

    value_of-IsWithin :
        (ft : Option (FinancialTrend F)) (cons : Option (ConsensusInfo F))
        (snap : Option StockSnapshot)
        → IsWithin 20 (value_of ft cons snap)
    unfolding value_of
    value_of-IsWithin none cons snap = lit-IsWithin 100 1 20 (omega arith)
    value_of-IsWithin (some ft) cons snap =
        fmin-IsWithin 200 1 20
          (snapshot_step snap
            (book_step (positive ft.pbr) (discount_step (effective_per ft cons) (lit 0 1))))
          (omega arith) (search (nonneg, snapshot, book, discount) depth 10)

    pub value_score-IsWithin : (c : EnrichedCandidate F) → IsWithin 20 (value_score c)
    unfolding value_score
    value_score-IsWithin c = value_of-IsWithin c.financial_trend c.consensus c.snapshot

    or_neutral-IsWithin :
        (neutral : F) (f : F → F) (x : Option F)
        → IsWithin 10 neutral
        → ((v : F) → IsWithin 10 (f v))
        → IsWithin 10 (or_neutral neutral f x)
    or_neutral-IsWithin neutral f none h k = h
    or_neutral-IsWithin neutral f (some v) h k = k v

    pub news_score-IsWithin : (c : EnrichedCandidate F) → IsWithin 10 (news_score c)
    unfolding news_score
    news_score-IsWithin c =
        or_neutral-IsWithin (lit 50 1)
          (λ x. linear_map x (whole 20) (whole 80) (whole 0) (whole 10)) c.news_sentiment_avg
          (lit-IsWithin 50 1 10 (omega arith))
          (λ x.
            linear_map_range laws scaling (whole 20) (whole 80) x 10 0 10
              (lit-IsSmall laws scaling 20 0 (omega arith))
              (lit-IsSmall laws scaling 80 0 (omega arith))
              (scaling.lit_lt 20 80 (omega arith) (omega arith)) (omega arith) (omega arith)
              (lit-IsSmall laws scaling 10 0 (omega arith)))

    pub sector_momentum_score-IsWithin :
        (c : EnrichedCandidate F) → IsWithin 10 (sector_momentum_score c)
    unfolding sector_momentum_score
    sector_momentum_score-IsWithin c =
        or_neutral-IsWithin (lit 50 1)
          (λ x. linear_map x (minus 50 1) (lit 150 1) (lit 0 1) (lit 100 1)) c.sector_avg_return_20d
          (lit-IsWithin 50 1 10 (omega arith))
          (λ x.
            linear_map_range laws scaling (minus 50 1) (lit 150 1) x 100 1 10
              (minus-IsSmall laws scaling 50 1 (omega arith))
              (lit-IsSmall laws scaling 150 1 (omega arith))
              (minus-lt_lit laws scaling 50 1 150 1 15 (omega arith) (omega arith) (omega arith))
              (omega arith) (omega arith) (lit-IsSmall laws scaling 100 1 (omega arith)))

    -- the lowest of the points of a sale is 0
    floored : (x : F) → whole 0 ≼ fmax (lit 0 1) x
    floored x =
        ground
          (arith, lit-nonneg 0 1, scaling.le_of_lt (lit 0 1) x, laws.le_trans (whole 0) (lit 0 1) x)

    net_buy :
        (m n : ℕ) (amount : F)
        → 0 < m
        → m ≤ 1000
        → whole 0 ≼ net_buy_points (lit m 1) (lit n 1) amount
    unfolding net_buy_points
    net_buy m n amount h k = elim (Bool-cases (lt (whole 0) amount)) [
      | inl bought ↦
          let paid =
            scaling.mul_lit (div amount (lit 5_000_000_000 0)) m
              (scaling.div_lit amount 5_000_000_000 (scaling.le_of_lt (whole 0) amount bought)
                (omega arith) (omega arith))
              h k in
          rw bought (search nonneg)
      | inr not_bought ↦
          rw not_bought (if-nonneg (lt amount (whole 0)) _ _ (floored _) (lit-nonneg m 1))
    ]

    trend : (t : Option F) → whole 0 ≼ trend_points t
    trend none = search nonneg
    trend (some t) = search nonneg depth 10

    supply_demand_of-IsWithin :
        (it : Option (InvestorTradingSummary F)) → IsWithin 20 (supply_demand_of it)
    unfolding supply_demand_of
    supply_demand_of-IsWithin none = lit-IsWithin 100 1 20 (omega arith)
    supply_demand_of-IsWithin (some it) =
        let foreign = net_buy 30 60 it.foreign_net_buy_sum (omega arith) (omega arith) in
        let institution = net_buy 40 80 it.institution_net_buy_sum (omega arith) (omega arith) in
        fmin-IsWithin 200 1 20
          (add
            (add (add (lit 0 1) (net_buy_points (lit 30 1) (lit 60 1) it.foreign_net_buy_sum))
              (net_buy_points (lit 40 1) (lit 80 1) it.institution_net_buy_sum))
            (trend_points it.foreign_ratio_trend))
          (omega arith) (search (nonneg, trend) depth 10)

    pub supply_demand_score-IsWithin :
        (c : EnrichedCandidate F) → IsWithin 20 (supply_demand_score c)
    unfolding supply_demand_score
    supply_demand_score-IsWithin c = supply_demand_of-IsWithin c.investor_trading
