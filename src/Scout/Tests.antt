-- ===== src/Scout/Tests.antt =====
-- A run of the selection of prime_jennie/services/scout on three stocks of one sector.
use prime_jennie.Prelude.{
  zero, suc, last_of, take, drop, ◌+◌, ◌*◌, ◌≡◌, refl, ℕ, true, false, Option, none, some, List, [],
  ◌∷◌, String, All, count_if, arith,
}
use prime_jennie.Prelude.Int.{ℤ, pos, ◌-ℤ◌, ◌+ℤ◌, ◌≤ℤ◌}
use prime_jennie.Enums.{MarketRegime, RiskTag, TradeTier, SectorGroup, same_sector}
use prime_jennie.Float.{whole, minus}
use prime_jennie.Float.Fixed.{Fixed, fixed, Fixed-IsOrdered, Fixed-IsScaling}
use prime_jennie.Scanner.Averages.{rsi_of, smooth}
use prime_jennie.Services.Calls.{DailyPrice}
use prime_jennie.Scout.Enriched.{EnrichedCandidate}
use prime_jennie.Scout.Quant.{closes_of}
use prime_jennie.Scout.Score.{QuantScore, Scoring, score_candidate}
use prime_jennie.Scout.Analyst.{LlmResult, clamp_score, run_analyst}
use prime_jennie.Scout.Ranges.{IsWithin}
use prime_jennie.Scout.Traded.{IsTraded}
use prime_jennie.Scout.Scored.{IsChecked, score_candidate-IsChecked}
use prime_jennie.Scout.Analysed.{IsGiven, run_analyst-IsGiven}
use prime_jennie.Scout.Select.{HybridScore, Candidate, get_sector, greedy, selected_scores}
use prime_jennie.Scout.Picked.{IsPick, selected_scores-IsPick, greedy_within_caps}

abbrev score : String → ℕ → HybridScore Fixed
score code n = record {
  stock_code = code;
  quant_score = whole n;
  llm_score = whole n;
  hybrid_score = whole n;
  llm_grade = "A";
  risk_tag = RiskTag.neutral;
  trade_tier = TradeTier.tier1;
  is_tradable = true;
  veto_applied = false;
}

abbrev scores : List (HybridScore Fixed)
scores = score "005930" 80 ∷ score "000660" 58 ∷ score "042700" 71 ∷ []

abbrev candidates : String → Option Candidate
candidates code =
    some (record { market_cap = some (pos 100); sector_group = some SectorGroup.semiconductor_it })

abbrev unchanged : String → Option Fixed
unchanged code = none

abbrev two_each : SectorGroup → ℤ
two_each g = pos 2

abbrev held_six : SectorGroup → ℤ
held_six g = pos 6

selected_scores-IsPick_example :
    All (IsPick candidates unchanged (whole 62) (whole 55) ("000660" ∷ [])) (
      selected_scores candidates unchanged two_each 3
        (whole 62)
        (whole 55)
        (some ("000660" ∷ []))
        scores)
selected_scores-IsPick_example =
    selected_scores-IsPick candidates unchanged (whole 62) (whole 55) ("000660" ∷ []) two_each 3
      scores

greedy_within_caps_example :
    pos (
      count_if
        (λ s.
          same_sector (get_sector candidates unchanged s.stock_code) SectorGroup.semiconductor_it)
        (greedy candidates unchanged two_each 3 0 (λ g. 0) scores).0)
    ≤ℤ pos 2
greedy_within_caps_example =
    greedy_within_caps candidates unchanged two_each 3 SectorGroup.semiconductor_it scores
      (omega arith)

-- prices that fall towards the last day
abbrev days : ℕ → List DailyPrice
days zero = []
days (suc n) =
    record {
      high_price = pos (50_500 + n * 100);
      low_price = pos (49_500 + n * 100);
      close_price = pos (50_000 + n * 100);
      volume = pos (1000 + n);
    }
    ∷ days n

days-IsTraded : (n : ℕ) → All IsTraded (closes_of (days n))
days-IsTraded zero = tt
days-IsTraded (suc n) = (ground arith, days-IsTraded n)

abbrev candidate : EnrichedCandidate Fixed
candidate = record {
  stock_code = "005930";
  snapshot = some (record { price = pos 50_000; high_52w = some (pos 62_000) });
  daily_prices = days 120;
  news_sentiment_avg = some (whole 64);
  investor_trading = some (record {
    foreign_net_buy_sum = whole 2_000_000_000;
    institution_net_buy_sum = minus 1_000_000_000 0;
    foreign_ratio_trend = some (fixed.lit 4 1);
  });
  financial_trend =
      some (record { per = some (whole 11); pbr = some (fixed.lit 12 1); roe = some (whole 12) });
  consensus = none;
  sector_avg_return_20d = some (whole 3);
}

score_candidate-IsChecked_example : IsChecked (score_candidate candidate (some MarketRegime.bull))
score_candidate-IsChecked_example =
    score_candidate-IsChecked Fixed-IsOrdered Fixed-IsScaling candidate (some MarketRegime.bull)
      (days-IsTraded 120)

abbrev quant_70 : QuantScore Fixed
quant_70 = record {
  stock_code = "005930";
  total_score = whole 70;
  momentum_score = whole 14;
  quality_score = whole 12;
  value_score = whole 12;
  technical_score = whole 6;
  news_score = whole 6;
  supply_demand_score = whole 14;
  sector_momentum_score = whole 6;
  is_valid = true;
}

abbrev answer_95 : LlmResult Fixed
answer_95 = record { score = whole 95; grade = "S" }

answer_95-IsWithin : (r : LlmResult Fixed) → some answer_95 ≡ some r → IsWithin 100 r.score
answer_95-IsWithin r h = ground (arith, h)

run_analyst-IsGiven_example :
    IsGiven 15 quant_70 (run_analyst (pos 15) quant_70 candidate (some answer_95))
run_analyst-IsGiven_example =
    run_analyst-IsGiven 15 quant_70 Fixed-IsOrdered Fixed-IsScaling (omega arith) (refl, refl)
      candidate (some answer_95) answer_95-IsWithin

-- The gap of 25 to the quant score is cut to 15.
clamp_test : clamp_score {F = Fixed} (whole 95) (whole 70) (pos 15) ≡ whole 85
unfolding clamp_score ◌-ℤ◌ ◌+ℤ◌
clamp_test = refl

abbrev total_of_scoring : Scoring Fixed → Option Fixed
total_of_scoring (Scoring.scored q) = some q.total_score
total_of_scoring _ = none

score_candidate_test :
    total_of_scoring (score_candidate candidate (some MarketRegime.bull)) ≡ some (fixed.lit 581 1)
unfolding score_candidate rsi_of smooth ◌-ℤ◌ ◌+ℤ◌ last_of take drop
score_candidate_test = refl
