-- ===== src/Scout/Technical.antt =====
-- The range of `_technical_score` of prime_jennie/services/scout/quant.py.
use prime_jennie.Prelude.{Bool-cases, inl, inr, ltb, length, last_of, List, arith}
use prime_jennie.Prelude.Int.{ℤ}
use prime_jennie.Float.{Float, whole}
use prime_jennie.Float.Order.{◌≼◌, IsOrdered}
use prime_jennie.Float.Scaling.{IsScaling}
use prime_jennie.Services.Calls.{DailyPrice}
use prime_jennie.Scout.Quant.{
  closes_of, volumes_of, technical_score, mean, aligned_step, volume_step, current_of,
}
use prime_jennie.Scout.Ranges.{IsWithin, lit-nonneg, lit-IsWithin, fmin-IsWithin, nonneg}

module _ {F : Type 0} ⦃num : Float F⦄ (laws : IsOrdered num) (scaling : IsScaling num) where
  open num use {lit}

  aligned :
      (current ma5 ma20 score : F) → whole 0 ≼ score → whole 0 ≼ aligned_step current ma5 ma20 score
  aligned current ma5 ma20 score h = search nonneg depth 10

  volume : (volumes : List ℤ) (score : F) → whole 0 ≼ score → whole 0 ≼ volume_step volumes score
  volume volumes score h = search nonneg depth 10

  pub technical_score-IsWithin :
      (prices : List DailyPrice) → IsWithin {F = F} 10 (technical_score prices)
  unfolding technical_score
  technical_score-IsWithin prices = elim (Bool-cases (ltb (length prices) 20)) [
    | inl few ↦ rw few (lit-IsWithin laws scaling 50 1 10 (omega arith))
    | inr enough ↦ rw enough (
        fmin-IsWithin laws scaling 100 1 10
          (volume_step (volumes_of prices) (
            aligned_step (current_of (last_of 1 (closes_of prices)))
              (mean 5 (last_of 5 (closes_of prices))) (mean 20 (last_of 20 (closes_of prices)))
              (lit 0 1)))
          (omega arith) (search (volume, aligned, lit-nonneg)))
  ]
