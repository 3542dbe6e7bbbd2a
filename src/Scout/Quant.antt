-- ===== src/Scout/Quant.antt =====
-- The sub-scores of prime_jennie/services/scout/quant.py that read the prices, where `none` stands
-- for the ZeroDivisionError of a closing price of 0. The benchmark is not read, as in the code.
use prime_jennie.Prelude.{
  ℕ, ◌+◌, Bool, false, ◌&&◌, leb, ltb, length, take, drop, last_of, map, Option, none, some, List,
  [], ◌∷◌, if◌then◌else◌,
}
use prime_jennie.Prelude.Maybe.{◌>>=◌}
use prime_jennie.Prelude.Int.{ℤ, pos, ◌+ℤ◌, ◌-ℤ◌, max_ℤ, eqb_ℤ}
use prime_jennie.Enums.{MarketRegime, is_bull}
use prime_jennie.Float.{Float, whole, minus, of_nat, fmin}
use prime_jennie.Scanner.Averages.{smooth, rsi_of}
use prime_jennie.Services.Calls.{DailyPrice}
use prime_jennie.Scout.Enriched.{ConsensusInfo}
use prime_jennie.Scout.Factors.{linear_map}

abbrev pub total_ℤ : List ℤ → ℤ
total_ℤ [] = pos 0
total_ℤ (x ∷ xs) = x +ℤ total_ℤ xs

abbrev pub steps_from : ℤ → List ℤ → List ℤ
steps_from prev [] = []
steps_from prev (x ∷ xs) = (x -ℤ prev) ∷ steps_from x xs

abbrev pub steps_of : List ℤ → List ℤ
steps_of [] = []
steps_of (x ∷ xs) = steps_from x xs

abbrev pub closes_of : List DailyPrice → List ℤ
closes_of prices = map (λ p. p.close_price) prices

abbrev pub volumes_of : List DailyPrice → List ℤ
volumes_of prices = map (λ p. p.volume) prices

abbrev pub bull_or_not : Option MarketRegime → Bool
bull_or_not none = false
bull_or_not (some regime) = is_bull regime

module _ {F : Type 0} ⦃num : Float F⦄ where
  open num use {lit, of_int, round₁, add, sub, mul, div, lt, le}

  -- for a positive period
  abbrev pub mean : ℕ → List ℤ → F
  mean period xs = div (of_int (total_ℤ xs)) (of_nat period)

  -- the mean of the first values, smoothed over the others
  abbrev pub averaged : ℕ → List ℤ → F
  averaged period xs = smooth period (mean period (take period xs)) (map of_int (drop period xs))

  unfoldable pub compute_rsi : List ℤ → ℕ → Option F
  compute_rsi closes period =
      let gains = map (λ d. max_ℤ (pos 0) d) (steps_of closes) in
      let losses = map (λ d. max_ℤ (pos 0) (pos 0 -ℤ d)) (steps_of closes) in
      if ltb (length closes) (period + 1)
      then none
      else some (rsi_of (averaged period gains) (averaged period losses))

  abbrev pub rsi_step : Bool → Option F → F → F
  rsi_step bull none score = score
  rsi_step bull (some rsi) score = add score (
      if le (whole 40) rsi && le rsi (whole 70)
      then lit 50 1
      else if lt (whole 70) rsi && le rsi (whole 80)
      then (if bull then lit 50 1 else lit 30 1)
      else if le (whole 30) rsi && lt rsi (whole 40)
      then lit 35 1
      else if lt rsi (whole 30)
      then lit 40 1
      else lit 10 1)

  -- (last / first - 1) * 100 of the values that two slices begin with
  abbrev pub ratio_change : List ℤ → List ℤ → Option F
  ratio_change (last ∷ _) (first ∷ _) =
      if eqb_ℤ first (pos 0)
      then none
      else some (mul (sub (div (of_int last) (of_int first)) (whole 1)) (whole 100))
  ratio_change _ _ = none

  -- (closes[-1] / closes[-n] - 1) * 100
  abbrev pub change_over : ℕ → List ℤ → Option F
  change_over n closes = ratio_change (last_of 1 closes) (last_of n closes)

  abbrev pub mapped_change : ℕ → F → F → List ℤ → F → Option F
  mapped_change n low high closes score = change_over n closes >>= λ change.
      some (add score (linear_map change low high (whole 0) (whole 5)))

  abbrev pub long_step : List ℤ → F → Option F
  long_step closes score =
      if leb 120 (length closes)
      then mapped_change 120 (minus 20 0) (whole 30) closes score
      else if leb 60 (length closes)
      then mapped_change 60 (minus 15 0) (whole 20) closes score
      else some score

  abbrev pub month_step : List ℤ → F → Option F
  month_step closes score =
      if leb 20 (length closes)
      then mapped_change 20 (minus 10 0) (whole 15) closes score
      else some score

  abbrev pub pullback_points : F → F → F → F
  pullback_points mom_6m mom_1m score =
      if lt (whole 5) mom_6m && lt mom_1m (minus 3 0)
      then add score (lit 50 1)
      else if lt (whole 0) mom_6m && lt mom_1m (whole 0)
      then add score (lit 25 1)
      else if lt (whole 10) mom_6m && lt (whole 3) mom_1m
      then add score (lit 35 1)
      else score

  abbrev pub pullback_step : List ℤ → F → Option F
  pullback_step closes score =
      if leb 120 (length closes)
      then (change_over 120 closes >>= λ mom_6m.
          change_over 20 closes >>= λ mom_1m. some (pullback_points mom_6m mom_1m score))
      else some score

  abbrev pub revised : Option F → F → F
  revised none score = score
  revised (some eps_rev) score =
      if le (whole 10) eps_rev
      then add score (lit 20 1)
      else if le (whole 5) eps_rev
      then add score (lit 10 1)
      else score

  abbrev pub revision_step : Option (ConsensusInfo F) → F → F
  revision_step none score = score
  revision_step (some consensus) score = revised consensus.eps_revision_pct score

  unfoldable pub momentum_score : List DailyPrice → Bool → Option (ConsensusInfo F) → Option F
  unfolding compute_rsi linear_map
  momentum_score prices bull consensus =
      let closes = closes_of prices in
      if ltb (length prices) 20
      then some (lit 100 1)
      else (long_step closes (rsi_step bull (compute_rsi closes 14) (lit 0 1)) >>= λ after_long.
          month_step closes after_long >>= λ after_month.
          pullback_step closes after_month >>= λ after_pullback.
          some (fmin (lit 200 1) (revision_step consensus after_pullback)))

  abbrev pub aligned_step : F → F → F → F → F
  aligned_step current ma5 ma20 score =
      if lt ma5 current && lt ma20 ma5
      then add score (lit 50 1)
      else if lt ma20 current
      then add score (lit 30 1)
      else if lt ma5 current
      then add score (lit 15 1)
      else score

  abbrev pub volume_points : F → F
  volume_points vol_ratio =
      if lt (lit 20 1) vol_ratio
      then lit 50 1
      else if lt (lit 15 1) vol_ratio
      then lit 40 1
      else if lt (lit 12 1) vol_ratio
      then lit 30 1
      else if lt (lit 10 1) vol_ratio
      then lit 20 1
      else lit 5 1

  abbrev pub volume_step : List ℤ → F → F
  volume_step volumes score =
      let avg_vol_20 = mean 20 (last_of 20 volumes) in
      let avg_vol_5 = mean 5 (last_of 5 volumes) in
      if leb 20 (length volumes) && lt (whole 0) avg_vol_20
      then add score (volume_points (div avg_vol_5 avg_vol_20))
      else score

  abbrev pub current_of : List ℤ → F
  current_of [] = whole 0
  current_of (x ∷ _) = of_int x

  -- at least 20 prices have a last one
  unfoldable pub technical_score : List DailyPrice → F
  technical_score prices =
      let closes = closes_of prices in
      let ma5 = mean 5 (last_of 5 closes) in
      let ma20 = mean 20 (last_of 20 closes) in
      if ltb (length prices) 20
      then lit 50 1
      else fmin (lit 100 1) (
          volume_step (volumes_of prices)
            (aligned_step (current_of (last_of 1 closes)) ma5 ma20 (lit 0 1)))
