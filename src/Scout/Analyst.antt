-- ===== src/Scout/Analyst.antt =====
-- prime_jennie/services/scout/analyst.py, with what the language model answers as an argument, `none` where the
-- call raises; its reason is left out. The prompt is a text for the model. `HybridScore` is the record
-- of the selection.
use prime_jennie.Prelude.{
  ℕ, ◌+◌, Bool, true, false, not, ◌&&◌, leb, ltb, length, last_of, map, Option, none, some, List,
  [], ◌∷◌, String, if◌then◌else◌,
}
use prime_jennie.Prelude.Int.{ℤ, pos, ◌-ℤ◌, max_ℤ, ltb_ℤ, eqb_ℤ}
use prime_jennie.Enums.{RiskTag, TradeTier}
use prime_jennie.Float.{Float, whole, minus, fmin, fmax}
use prime_jennie.Scanner.Averages.{rsi_of}
use prime_jennie.Scout.Select.{HybridScore, is_blocked}
use prime_jennie.Services.Calls.{DailyPrice}
use prime_jennie.Scout.Enriched.{StockSnapshot, InvestorTradingSummary, EnrichedCandidate}
use prime_jennie.Scout.Quant.{closes_of, steps_of, mean}
use prime_jennie.Scout.Score.{QuantScore}

pub record LlmResult (F : Type 0) : Type 0 where
  pub score : F
  pub grade : String

-- What a call comes to: a score that `Score` refuses, a rule of `HybridScore` that is broken, or
-- the score.
pub data Analysis (F : Type 0) : Type 0 where
  out_of_range broken_rule : Analysis F
  analysed : HybridScore F → Analysis F

abbrev pub is_distribution : RiskTag → Bool
is_distribution RiskTag.distribution_risk = true
is_distribution _ = false

abbrev pub max_of : List ℤ → ℤ
max_of [] = pos 0
max_of (x ∷ []) = x
max_of (x ∷ y ∷ ys) = max_ℤ x (max_of (y ∷ ys))

abbrev pub high_or : Option ℤ → ℤ → ℤ
high_or none other = other
high_or (some high) other = if eqb_ℤ high (pos 0) then other else high

module _ {F : Type 0} ⦃num : Float F⦄ where
  open num use {lit, of_int, truncate, round₁, add, sub, mul, div, lt, le}

  -- for a positive period
  unfoldable pub compute_rsi_quick : List ℤ → ℕ → Option F
  compute_rsi_quick closes period =
      let deltas = last_of period (steps_of closes) in
      if ltb (length closes) (period + 1)
      then none
      else some (
          rsi_of (mean period (map (λ d. max_ℤ (pos 0) d) deltas))
            (mean period (map (λ d. max_ℤ (pos 0) (pos 0 -ℤ d)) deltas)))

  unfoldable pub clamp_score : F → F → ℤ → F
  clamp_score raw quant clamp_range =
      let lo = fmax (lit 0 1) (sub quant (of_int clamp_range)) in
      let hi = fmin (lit 1000 1) (add quant (of_int clamp_range)) in fmax lo (fmin hi raw)

  unfoldable pub assign_trade_tier : F → TradeTier
  assign_trade_tier hybrid_score =
      if le (whole 60) hybrid_score
      then TradeTier.tier1
      else if le (whole 40) hybrid_score
      then TradeTier.tier2
      else TradeTier.blocked

  unfoldable pub score_to_grade : F → String
  score_to_grade score =
      if le (whole 80) score
      then "S"
      else if le (whole 65) score
      then "A"
      else if le (whole 50) score
      then "B"
      else if le (whole 35) score
      then "C"
      else "D"

  -- `rsi and rsi > limit`, for a positive limit
  abbrev pub hotter : F → Option F → Bool
  hotter limit none = false
  hotter limit (some rsi) = lt limit rsi

  -- a net sale of more than 3e9, of the foreign and of the institutional investors
  abbrev pub sold_by_foreign : Option (InvestorTradingSummary F) → Bool
  sold_by_foreign none = false
  sold_by_foreign (some it) = lt it.foreign_net_buy_sum (minus 3_000_000_000 0)

  abbrev pub sold_by_institution : Option (InvestorTradingSummary F) → Bool
  sold_by_institution none = false
  sold_by_institution (some it) = lt it.institution_net_buy_sum (minus 3_000_000_000 0)

  unfoldable pub drawdown_of : StockSnapshot → List ℤ → F
  drawdown_of snapshot closes =
      let high_52w = high_or snapshot.high_52w (max_of closes) in
      if ltb_ℤ (pos 0) high_52w
      then mul (sub (div (of_int snapshot.price) (of_int high_52w)) (whole 1)) (whole 100)
      else of_int (pos 0 -ℤ pos 100)

  abbrev pub is_distributed :
      Option StockSnapshot → List DailyPrice → Option (InvestorTradingSummary F) → Bool
  is_distributed none prices it = false
  is_distributed (some snapshot) prices it =
      leb 20 (length prices)
      && lt (minus 3 0) (drawdown_of snapshot (closes_of prices))
      && hotter (whole 70) (compute_rsi_quick (closes_of prices) 14)
      && sold_by_foreign it
      && sold_by_institution it

  abbrev pub is_overbought : Option StockSnapshot → ℕ → Option F → Bool
  is_overbought none days rsi = false
  is_overbought (some snapshot) days rsi = leb 14 days && hotter (whole 80) rsi

  unfoldable pub classify_risk_tag : QuantScore F → EnrichedCandidate F → RiskTag
  unfolding compute_rsi_quick drawdown_of
  classify_risk_tag quant candidate =
      if is_distributed candidate.snapshot candidate.daily_prices candidate.investor_trading
      then RiskTag.distribution_risk
      else if is_overbought candidate.snapshot (length candidate.daily_prices)
          (compute_rsi_quick (closes_of candidate.daily_prices) 14)
      then RiskTag.caution
      else if sold_by_foreign candidate.investor_trading
      then RiskTag.caution
      else if le (whole 12) quant.momentum_score
          && le (whole 12) quant.supply_demand_score
          && le (whole 10) quant.quality_score
      then RiskTag.bullish
      else RiskTag.neutral

  unfoldable pub check_business_rules : HybridScore F → Analysis F
  check_business_rules h =
      if is_blocked h.trade_tier && h.is_tradable
      then broken_rule
      else if is_distribution h.risk_tag && not h.veto_applied
      then broken_rule
      else analysed h

  abbrev pub is_score : F → Bool
  is_score x = le (whole 0) x && le x (whole 100)

  -- the construction of a `HybridScore`: the ranges of the scores, and then the rules
  unfoldable pub built : HybridScore F → Analysis F
  unfolding check_business_rules
  built h =
      if is_score h.quant_score && is_score h.llm_score && is_score h.hybrid_score
      then check_business_rules h
      else out_of_range

  abbrev pub answer_or_fallback : QuantScore F → Option (LlmResult F) → LlmResult F
  answer_or_fallback quant (some result) = result
  answer_or_fallback quant none = record {
    score = of_int (truncate quant.total_score);
    grade = score_to_grade quant.total_score;
  }

  -- the score for the answer of the model and the tag
  unfoldable pub hybrid_of : ℤ → QuantScore F → RiskTag → LlmResult F → HybridScore F
  unfolding clamp_score assign_trade_tier
  hybrid_of clamp_range quant risk_tag result =
      let clamped = clamp_score result.score quant.total_score clamp_range in
      let veto_applied = is_distribution risk_tag in
      let trade_tier = if veto_applied then TradeTier.blocked else assign_trade_tier clamped in
      record {
        stock_code = quant.stock_code;
        quant_score = quant.total_score;
        llm_score = result.score;
        hybrid_score = round₁ clamped;
        llm_grade = result.grade;
        risk_tag = risk_tag;
        trade_tier = trade_tier;
        is_tradable = not (is_blocked trade_tier);
        veto_applied = veto_applied;
      }

  unfoldable pub run_analyst :
      ℤ → QuantScore F → EnrichedCandidate F → Option (LlmResult F) → Analysis F
  unfolding built classify_risk_tag hybrid_of score_to_grade
  run_analyst clamp_range quant candidate answer = built (
      hybrid_of clamp_range quant (classify_risk_tag quant candidate)
        (answer_or_fallback quant answer))
