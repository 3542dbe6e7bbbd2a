-- ===== src/Buyer/Clamped.antt =====
-- The range of `clamp_atr` in prime_jennie/services/buyer/position_sizing.py.
use prime_jennie.Prelude.{◌≡◌, false, ◌||◌, arith}
use prime_jennie.Float.{Float, whole, fmin}
use prime_jennie.Float.Order.{◌≼◌, IsNumber, IsOrdered, le-fmax_left, fmin-le_right}
use prime_jennie.Buyer.Atr.{clamp_atr}

module _ {F : Type 0} ⦃num : Float F⦄ (laws : IsOrdered num) (atr stock_price : F) where
  open num use {lit, mul, le}

  -- Where the range and the price are positive numbers, and 1% of the price is not above 5% of it, the
  -- clamped range lies between the two.
  pub clamp_atr_bounds :
      IsNumber atr
      → (le atr (whole 0) || le stock_price (whole 0)) ≡ false
      → mul stock_price (lit 1 2) ≼ mul stock_price (lit 5 2)
      → (mul stock_price (lit 1 2) ≼ clamp_atr atr stock_price)
        × (clamp_atr atr stock_price ≼ mul stock_price (lit 5 2))
  unfolding clamp_atr
  clamp_atr_bounds number positive ordered =
      let low = mul stock_price (lit 1 2) in
      let high = mul stock_price (lit 5 2) in
      let (low_number, high_number) = laws.refl_of_le low high ordered in
      ground (
        arith,
        number,
        positive,
        ordered,
        low_number,
        high_number,
        le-fmax_left laws low (fmin atr high) low_number,
        fmin-le_right laws atr high number high_number,
      )
