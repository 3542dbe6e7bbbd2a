-- ===== src/Scanner/Averages.antt =====
-- The averages and the RSI of prime_jennie/services/scanner/strategies.py.
use prime_jennie.Prelude.{
  ℕ, ◌+◌, ◌-◌, ltb, length, take, drop, last_of, map, Option, none, some, List, [], ◌∷◌,
  if◌then◌else◌,
}
use prime_jennie.Float.{Float, whole, of_nat, fmin, fmax}
use prime_jennie.Bars.{Bar}
use prime_jennie.Scanner.Gates.{fabs}

-- `xs[:-1]`
abbrev pub but_last : {A : Type 0} → List A → List A
but_last xs = take (length xs - 1) xs

module _ {F : Type 0} ⦃num : Float F⦄ where
  open num use {sum, add, sub, mul, div, eq}

  abbrev pub closes_of : List (Bar F) → List F
  closes_of bars = map (λ b. b.close) bars

  -- for a positive period
  unfoldable pub compute_sma : List F → ℕ → Option F
  compute_sma prices period =
      if ltb (length prices) period
      then none
      else some (div (sum (last_of period prices)) (of_nat period))

  unfoldable pub deltas_from : F → List F → List F
  deltas_from prev [] = []
  deltas_from prev (x ∷ xs) = sub x prev ∷ deltas_from x xs

  unfoldable pub deltas : List F → List F
  unfolding deltas_from
  deltas [] = []
  deltas (x ∷ xs) = deltas_from x xs

  abbrev pub gains_of : List F → List F
  gains_of ds = map (λ d. fmax d (whole 0)) ds

  abbrev pub losses_of : List F → List F
  losses_of ds = map (λ d. fabs (fmin d (whole 0))) ds

  -- the mean of the first `period` values
  abbrev pub seed : ℕ → List F → F
  seed period xs = div (sum (take period xs)) (of_nat period)

  -- the loop that smooths the rest of the values into an average
  unfoldable pub smooth : ℕ → F → List F → F
  smooth period avg [] = avg
  smooth period avg (x ∷ xs) =
      smooth period (div (add (mul avg (of_nat (period - 1))) x) (of_nat period)) xs

  -- both divisors are not 0: the average loss is tested, and 1 + rs is at least 1
  unfoldable pub rsi_of : F → F → F
  rsi_of avg_gain avg_loss =
      if eq avg_loss (whole 0)
      then whole 100
      else sub (whole 100) (div (whole 100) (add (whole 1) (div avg_gain avg_loss)))

  abbrev pub averaged : ℕ → List F → F
  averaged period xs = smooth period (seed period xs) (drop period xs)

  unfoldable pub compute_rsi : List F → ℕ → Option F
  unfolding deltas smooth rsi_of
  compute_rsi closes period =
      if ltb (length closes) (period + 1)
      then none
      else some (
          rsi_of (averaged period (gains_of (deltas closes)))
            (averaged period (losses_of (deltas closes))))

  unfoldable pub compute_rsi_from_bars : List (Bar F) → ℕ → Option F
  unfolding compute_rsi
  compute_rsi_from_bars bars period = compute_rsi (closes_of bars) period
