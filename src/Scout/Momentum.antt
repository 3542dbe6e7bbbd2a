-- ===== src/Scout/Momentum.antt =====
-- The range of `_momentum_score` of prime_jennie/services/scout/quant.py.
use prime_jennie.Prelude.{
  ℕ, ◌≤◌, ◌<◌, ◌≡◌, refl, Bool, true, false, Bool-cases, inl, inr, ltb, leb, length, last_of, All,
  Option, none, some, List, if◌then◌else◌, arith,
}
use prime_jennie.Prelude.Maybe.{◌>>=◌}
use prime_jennie.Prelude.Int.{ℤ}
use prime_jennie.Float.{Float, whole, fmin}
use prime_jennie.Float.Order.{◌≼◌, ◌≺◌, IsOrdered}
use prime_jennie.Float.Scaling.{IsSmall, IsScaling}
use prime_jennie.Services.Calls.{DailyPrice}
use prime_jennie.Scout.Enriched.{ConsensusInfo}
use prime_jennie.Scout.Quant.{
  closes_of, ratio_change, change_over, mapped_change, rsi_step, compute_rsi, long_step, month_step,
  pullback_step, pullback_points, revised, revision_step, momentum_score,
}
use prime_jennie.Scout.Traded.{IsTraded, Begins, last_of-Begins}
use prime_jennie.Scout.Mapped.{linear_map_range, lit-IsSmall, minus-IsSmall, minus-lt_lit}
use prime_jennie.Scout.Ranges.{IsWithin, lit-nonneg, lit-IsWithin, fmin-IsWithin, nonneg}

module _ {F : Type 0} ⦃num : Float F⦄ where
  -- a step that gives a score of at least 0
  pub record Given (o : Option F) : Type 0 where
    pub value : F
    pub is_some : o ≡ some value
    pub low : whole 0 ≼ value

  given : (x : F) → whole 0 ≼ x → Given (some x)
  given x h = record { value = x; is_some = refl; low = h }

  if-Given :
      (b : Bool) (x y : Option F)
      → (b ≡ true → Given x)
      → (b ≡ false → Given y)
      → Given (if b then x else y)
  if-Given true x y h k = h refl
  if-Given false x y h k = k refl

  change :
      (last : List ℤ) (first : List ℤ)
      → Begins last
      → Begins first
      → (c : F) × (ratio_change last first ≡ some c)
  change last first a b = rw (a.is_first, b.is_first, b.traded) (_, refl)

  -- a score of the momentum, in its range
  pub record HasMomentum (o : Option F) : Type 0 where
    pub momentum : F
    pub has : o ≡ some momentum
    pub within : IsWithin 20 momentum

  then-HasMomentum :
      (o : Option F) (f : F → Option F)
      → Given o
      → ((x : F) → whole 0 ≼ x → HasMomentum (f x))
      → HasMomentum (o >>= f)
  then-HasMomentum none f h k = absurd (ground (arith, h.is_some))
  then-HasMomentum (some x) f h k = k x (ground (arith, h.is_some, h.low))

  module _ (laws : IsOrdered num) (scaling : IsScaling num) where
    open num use {lit, neg, add}

    mapped :
        (n : ℕ) (low high : F) (closes : List ℤ) (score : F)
        → 0 < n
        → n ≤ length closes
        → All IsTraded closes
        → IsSmall num low × IsSmall num high
        → low ≺ high
        → whole 0 ≼ score
        → Given (mapped_change n low high closes score)
    mapped n low high closes score pos_n enough traded (sl, sh) h low_score =
        let (c, is_c) =
          change (last_of 1 closes) (last_of n closes)
            (last_of-Begins 1 closes (omega arith) (omega arith) traded)
            (last_of-Begins n closes pos_n enough traded) in
        let (m, _) =
          linear_map_range laws scaling low high c 5 0 5 sl sh h (omega arith) (omega arith)
            (lit-IsSmall laws scaling 5 0 (omega arith)) in
        rw is_c (given _ (scaling.add_nonneg score _ low_score m))

    below :
        (m n : ℕ)
        → m ≤ 1000
        → 0 < n
        → n ≤ 1000
        → (IsSmall num (neg (lit m 0)) × IsSmall num (lit n 0)) × (neg (lit m 0) ≺ lit n 0)
    below m n small h big = (
      (minus-IsSmall laws scaling m 0 (omega arith), lit-IsSmall laws scaling n 0 (omega arith)),
      minus-lt_lit laws scaling m 0 n 0 n h big (omega arith),
    )

    module _ (closes : List ℤ) (traded : All IsTraded closes) where
      mapped_below :
          (n m k : ℕ) (score : F)
          → 0 < n
          → leb n (length closes) ≡ true
          → m ≤ 1000
          → 0 < k
          → k ≤ 1000
          → whole 0 ≼ score
          → Given (mapped_change n (neg (lit m 0)) (whole k) closes score)
      mapped_below n m k score pos_n enough small h big low =
          let (are_small, less) = below m k small h big in
          mapped n (neg (lit m 0)) (whole k) closes score pos_n (ground arith) traded are_small less
            low

      long : (score : F) → whole 0 ≼ score → Given (long_step closes score)
      long score h =
          if-Given (leb 120 (length closes)) _ _
            (λ e.
              mapped_below 120 20 30 score (omega arith) e (omega arith) (omega arith) (omega arith)
                h)
            (λ _.
              if-Given (leb 60 (length closes)) _ _
                (λ e.
                  mapped_below 60 15 20 score (omega arith) e (omega arith) (omega arith)
                    (omega arith) h)
                (λ _. given score h))

      month : (score : F) → whole 0 ≼ score → Given (month_step closes score)
      month score h =
          if-Given (leb 20 (length closes)) _ _
            (λ e.
              mapped_below 20 10 15 score (omega arith) e (omega arith) (omega arith) (omega arith)
                h)
            (λ _. given score h)

      changed : (n : ℕ) → 0 < n → n ≤ length closes → (c : F) × (change_over n closes ≡ some c)
      changed n pos_n enough =
          change (last_of 1 closes) (last_of n closes)
            (last_of-Begins 1 closes (omega arith) (omega arith) traded)
            (last_of-Begins n closes pos_n enough traded)

      pullback : (score : F) → whole 0 ≼ score → Given (pullback_step closes score)
      pullback score h =
          if-Given (leb 120 (length closes)) _ _
            (λ e.
              let (a, is_a) = changed 120 (omega arith) (ground arith) in
              let (b, is_b) = changed 20 (omega arith) (ground arith) in
              rw (is_a, is_b) (given (pullback_points a b score) (search nonneg)))
            (λ _. given score h)

    rsi_nonneg :
        (bull : Bool) (rsi : Option F) (score : F)
        → whole 0 ≼ score
        → whole 0 ≼ rsi_step bull rsi score
    rsi_nonneg bull none score h = h
    rsi_nonneg bull (some rsi) score h = search nonneg depth 10

    revised_nonneg : (r : Option F) (score : F) → whole 0 ≼ score → whole 0 ≼ revised r score
    revised_nonneg none score h = h
    revised_nonneg (some r) score h = search nonneg

    revision_nonneg :
        (cons : Option (ConsensusInfo F)) (score : F)
        → whole 0 ≼ score
        → whole 0 ≼ revision_step cons score
    revision_nonneg none score h = h
    revision_nonneg (some cons) score h = revised_nonneg cons.eps_revision_pct score h

    after_steps :
        (closes : List ℤ) (score : F) (cons : Option (ConsensusInfo F))
        → All IsTraded closes
        → whole 0 ≼ score
        → HasMomentum (
            long_step closes score >>= λ after_long. month_step closes after_long >>= λ after_month.
            pullback_step closes after_month >>= λ after_pullback.
            some (fmin (lit 200 1) (revision_step cons after_pullback)))
    after_steps closes score cons traded h =
        then-HasMomentum _ _ (long closes traded score h) (λ after_long low_long.
          then-HasMomentum _ _ (month closes traded after_long low_long) (λ after_month low_month.
            then-HasMomentum _ _ (pullback closes traded after_month low_month) (λ after low.
              record {
                momentum = fmin (lit 200 1) (revision_step cons after);
                has = refl;
                within =
                    fmin-IsWithin laws scaling 200 1 20 (revision_step cons after) (omega arith)
                      (revision_nonneg cons after low);
              })))

    pub momentum_score-HasMomentum :
        (prices : List DailyPrice) (bull : Bool) (cons : Option (ConsensusInfo F))
        → All IsTraded (closes_of prices)
        → HasMomentum (momentum_score prices bull cons)
    unfolding momentum_score
    momentum_score-HasMomentum prices bull cons traded =
        elim (Bool-cases (ltb (length prices) 20)) [
          | inl few ↦ rw few (record {
            momentum = lit 100 1;
            has = refl;
            within = lit-IsWithin laws scaling 100 1 20 (omega arith);
          })
          | inr enough ↦ rw enough (
              after_steps (closes_of prices)
                (rsi_step bull (compute_rsi (closes_of prices) 14) (lit 0 1)) cons traded
                (rsi_nonneg bull (compute_rsi (closes_of prices) 14) (lit 0 1)
                  (lit-nonneg laws scaling 0 1)))
        ]
