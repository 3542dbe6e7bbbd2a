-- ===== src/Scout/Analysed.antt =====
-- What `run_analyst` of prime_jennie/services/scout/analyst.py gives.
use prime_jennie.Prelude.{
  ℕ, ◌≤◌, ◌≡◌, refl, Bool, true, false, not, Option, none, some, if◌then◌else◌, arith,
}
use prime_jennie.Prelude.Int.{pos}
use prime_jennie.Enums.{RiskTag, TradeTier}
use prime_jennie.Float.{Float, whole, fmin, fmax}
use prime_jennie.Float.Order.{◌≼◌, IsOrdered}
use prime_jennie.Float.Scaling.{IsSmall, IsScaling}
use prime_jennie.Scout.Select.{HybridScore, is_blocked}
use prime_jennie.Scout.Enriched.{EnrichedCandidate}
use prime_jennie.Scout.Score.{QuantScore}
use prime_jennie.Scout.Analyst.{
  LlmResult, Analysis, analysed, is_distribution, clamp_score, assign_trade_tier, classify_risk_tag,
  check_business_rules, built, answer_or_fallback, hybrid_of, run_analyst,
}
use prime_jennie.Scout.Mapped.{clamped_bounds}
use prime_jennie.Scout.Ranges.{IsWithin}

module _ {F : Type 0} ⦃num : Float F⦄ (clamp_range : ℕ) (quant : QuantScore F) where
  open num use {lit, of_int, round₁, add, sub}

  -- a score within the range of the clamp around the quant score, and its grade of trading
  pub record IsAnalysed (h : HybridScore F) : Type 0 where
    pub clamped : F
    pub above : fmax (lit 0 1) (sub quant.total_score (of_int (pos clamp_range))) ≼ clamped
    pub below : clamped ≼ fmin (lit 1000 1) (add quant.total_score (of_int (pos clamp_range)))
    pub hybrid : h.hybrid_score ≡ round₁ clamped
    pub within : IsWithin 100 h.hybrid_score
    pub tradable : h.is_tradable ≡ not (is_blocked h.trade_tier)
    pub vetoed : is_distribution h.risk_tag ≡ true → h.is_tradable ≡ false
    pub strong : h.is_tradable ≡ true → whole 40 ≼ clamped

  pub record IsGiven (o : Analysis F) : Type 0 where
    pub hybrid : HybridScore F
    pub is_given : o ≡ analysed hybrid
    pub is_analysed : IsAnalysed hybrid

  module _ (laws : IsOrdered num) (scaling : IsScaling num) (small : clamp_range ≤ 1000)
      (quant_range : IsWithin 100 quant.total_score) where
    above_first : (x y : F) → x ≼ x → x ≼ fmax x y
    above_first x y h = ground (arith, scaling.le_of_lt x y)

    below_first : (x y : F) → x ≼ x → fmin x y ≼ x
    below_first x y h = ground (arith, scaling.le_of_lt y x)

    quant_IsSmall : IsSmall num quant.total_score
    quant_IsSmall = (
      laws.le_trans _ _ _ (scaling.minus-le-zero 1000 0) quant_range.0,
      laws.le_trans _ _ _ quant_range.1 (laws.lit_mono 100 0 1000 0 (omega arith)),
    )

    quant_top : quant.total_score ≼ lit 1000 1
    quant_top = laws.le_trans _ _ _ quant_range.1 (laws.lit_mono 100 0 1000 1 (omega arith))

    quant_bottom : lit 0 1 ≼ quant.total_score
    quant_bottom = laws.le_trans _ _ _ (laws.lit_mono 0 1 0 0 (omega arith)) quant_range.0

    low_high :
        fmax (lit 0 1) (sub quant.total_score (of_int (pos clamp_range)))
        ≼ fmin (lit 1000 1) (add quant.total_score (of_int (pos clamp_range)))
    low_high =
        let q = quant.total_score in
        let r = of_int (pos clamp_range) in
        let (r0, r1) = scaling.of_int_bounds clamp_range small in
        let down = scaling.sub_below q r quant_IsSmall r0 r1 in
        let up = scaling.add_above q r quant_IsSmall r0 r1 in
        let down_top = laws.le_trans _ _ _ down quant_top in
        let bottom_up = laws.le_trans _ _ _ quant_bottom up in
        let across = laws.le_trans _ _ _ down up in
        let bottom_top = laws.lit_mono 0 1 1000 1 (omega arith) in
        ground (arith, down_top, bottom_up, across, bottom_top)

    clamp_score-between :
        (raw : F)
        → (fmax (lit 0 1) (sub quant.total_score (of_int (pos clamp_range)))
            ≼ clamp_score raw quant.total_score (pos clamp_range))
          × (clamp_score raw quant.total_score (pos clamp_range)
              ≼ fmin (lit 1000 1) (add quant.total_score (of_int (pos clamp_range))))
    unfolding clamp_score
    clamp_score-between raw = clamped_bounds laws scaling _ _ raw low_high

    clamp_score-IsWithin :
        (raw : F) → IsWithin 100 (clamp_score raw quant.total_score (pos clamp_range))
    clamp_score-IsWithin raw =
        let (low, high) = clamp_score-between raw in
        let c = clamp_score raw quant.total_score (pos clamp_range) in
        let q = quant.total_score in
        let r = of_int (pos clamp_range) in
        (
          laws.le_trans _ _ _ (laws.lit_mono 0 0 0 1 (omega arith)) (
              laws.le_trans _ _ _
                (above_first (lit 0 1) (sub q r) (laws.lit_mono 0 1 0 1 (omega arith))) low),
          laws.le_trans _ _ _ high (
              laws.le_trans _ _ _
                (below_first (lit 1000 1) (add q r) (laws.lit_mono 1000 1 1000 1 (omega arith)))
                (laws.lit_mono 1000 1 100 0 (omega arith))),
        )

    -- the answer of the model, or the quant score without its digits
    answer-IsWithin :
        (answer : Option (LlmResult F))
        → ((r : LlmResult F) → answer ≡ some r → IsWithin 100 r.score)
        → IsWithin 100 (answer_or_fallback quant answer).score
    answer-IsWithin none h =
        scaling.truncate_bounds quant.total_score 100 (omega arith) quant_range.0 quant_range.1
    answer-IsWithin (some r) h = h r refl

    tier-IsStrong :
        (c : F) (veto : Bool)
        → not (is_blocked (if veto then TradeTier.blocked else assign_trade_tier c)) ≡ true
        → whole 40 ≼ c
    unfolding assign_trade_tier
    tier-IsStrong c veto h =
        ground (arith, laws.le_trans (whole 40) (whole 60) c, laws.lit_mono 40 0 60 0)

    hybrid_of-IsAnalysed :
        (tag : RiskTag) (result : LlmResult F)
        → IsAnalysed (hybrid_of (pos clamp_range) quant tag result)
    unfolding hybrid_of
    hybrid_of-IsAnalysed tag result =
        let c = clamp_score result.score quant.total_score (pos clamp_range) in
        let (low, high) = clamp_score-between result.score in
        let (bottom, top) = clamp_score-IsWithin result.score in
        record {
          clamped = c;
          above = low;
          below = high;
          hybrid = refl;
          within = (scaling.round₁_lower c bottom, scaling.round₁_upper c 100 (omega arith) top);
          tradable = refl;
          vetoed = λ h. ground arith;
          strong = λ h. tier-IsStrong c (is_distribution tag) h;
        }

    built-IsGiven :
        (tag : RiskTag) (result : LlmResult F)
        → IsWithin 100 result.score
        → IsGiven (built (hybrid_of (pos clamp_range) quant tag result))
    unfolding built hybrid_of check_business_rules
    built-IsGiven tag result (low, high) =
        let h = hybrid_of (pos clamp_range) quant tag result in
        let sound = hybrid_of-IsAnalysed tag result in
        let (bottom, top) = sound.within in
        record {
          hybrid = h;
          is_given = ground (arith, quant_range.0, quant_range.1, bottom, top);
          is_analysed = sound;
        }

    -- For floats with the laws of order and of scaling: where the range of the clamp is at most
    -- 1000, the quant score is between 0 and 100, and so is the score of the model, if it answers,
    -- the analysis is never refused. Its score is the clamped score, rounded: it is between 0 and
    -- 100, and before the rounding between the quant score less and plus the range of the clamp, as
    -- floats, and between 0 and 100. It is tradable if and only if its tier is not the blocked one;
    -- then its clamped score is at least 40. With the tag of a distribution it is not tradable.
    pub run_analyst-IsGiven :
        (candidate : EnrichedCandidate F) (answer : Option (LlmResult F))
        → ((r : LlmResult F) → answer ≡ some r → IsWithin 100 r.score)
        → IsGiven (run_analyst (pos clamp_range) quant candidate answer)
    unfolding run_analyst
    run_analyst-IsGiven candidate answer h =
        built-IsGiven (classify_risk_tag quant candidate) (answer_or_fallback quant answer)
          (answer-IsWithin answer h)
