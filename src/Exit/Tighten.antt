-- ===== src/Exit/Tighten.antt =====
-- The bounds that the stops move in: the triggers of the profit locks, and the tightening of the
-- fixed stop with the days held.
use prime_jennie.Prelude.{◌≡◌, true, arith}
use prime_jennie.Prelude.Int.{ℤ, pos, ◌-ℤ◌, ◌≤ℤ◌, ltb_ℤ, -ℤ_parts}
use prime_jennie.Enums.{MarketRegime}
use prime_jennie.Float.{Float, whole, fmin}
use prime_jennie.Float.Order.{lt_of_lt-le, lit-IsNumber, IsOrdered, IsMonotone, ◌≼◌, ◌≺◌, IsNumber}
use prime_jennie.Config.Sell.{SellConfig}
use prime_jennie.Exit.Stops.{lock_trigger, start_days, tighten, fixed_threshold}

module _ {F : Type 0} ⦃num : Float F⦄ (laws : IsOrdered num) where
  open num use {neg, add, mul, div, le, lt, of_int}

  -- The trigger of a profit lock lies between its two settings, whatever the ATR is.
  pub lock_trigger_bounds :
      (atr_pct mult low high : F)
      → low ≼ high
      → IsNumber (mul atr_pct mult)
      → (low ≼ lock_trigger atr_pct mult low high) × (lock_trigger atr_pct mult low high ≼ high)
  unfolding lock_trigger
  lock_trigger_bounds atr_pct mult low high h n =
      let (l, u) = laws.refl_of_le low high h in
      ground (
        arith,
        laws.lt-eq-not-le high (mul atr_pct mult) u n,
        laws.le_total high (mul atr_pct mult) u n,
        laws.lt-eq-not-le low high l u,
        laws.lt-eq-not-le low (mul atr_pct mult) l n,
        laws.le_total low (mul atr_pct mult) l n,
      )

  fmin_mono : (a x y : F) → IsNumber a → x ≼ y → fmin a x ≼ fmin a y
  fmin_mono a x y na h =
      let (nx, ny) = laws.refl_of_le x y h in
      ground (
        arith,
        laws.lt-eq-not-le x a nx na,
        laws.lt-eq-not-le y a ny na,
        laws.le_trans x y a h,
        laws.le_trans a x y,
        laws.le_total x a nx na,
        laws.le_total y a ny na,
      )

  fmin-le : (a x : F) → IsNumber a → IsNumber x → fmin a x ≼ a
  fmin-le a x na nx = ground (arith, laws.lt-eq-not-le x a nx na, laws.le_total x a nx na)

  fmin_nonneg : (z a x : F) → z ≼ a → z ≼ x → z ≼ fmin a x
  fmin_nonneg z a x h k = ground arith

  module _ (mono : IsMonotone num) (cfg : SellConfig F) (regime : MarketRegime)
      (macro_stop_mult : F) where
    open mono use {
      of_int_mono, one_of_int, add_mono, add_nonneg, mul_mono, div_mono, mul_nonneg, div_nonneg,
    }

    abbrev base : F
    base = mul (neg cfg.stop_loss_pct) macro_stop_mult

    abbrev span : ℤ
    span = cfg.max_holding_days -ℤ start_days cfg regime

    -- The settings are sound, and what is computed from them on any day is a number.
    pub record AreNumbers : Type 0 where
      pub reduction : whole 0 ≼ cfg.time_tighten_max_reduction_pct
      pub base_number : IsNumber base
      pub product : (k : ℤ) → IsNumber (mul cfg.time_tighten_max_reduction_pct (of_int k))
      pub quotient :
          (k : ℤ) → IsNumber (div (mul cfg.time_tighten_max_reduction_pct (of_int k)) (of_int span))
      pub total : (k : ℤ) → IsNumber (add base (tighten cfg k span))
      pub limit : IsNumber (add base cfg.time_tighten_max_reduction_pct)

    module _ (n : AreNumbers) where
      span_positive : ltb_ℤ (pos 0) span ≡ true → whole 0 ≺ of_int span
      span_positive h =
          lt_of_lt-le laws _ _ _ (lit-IsNumber laws 0 0) one_of_int
            (of_int_mono (pos 1) span (ground arith))

      tighten_mono :
          (j k : ℤ) → ltb_ℤ (pos 0) span ≡ true → j ≤ℤ k → tighten cfg j span ≼ tighten cfg k span
      unfolding tighten
      tighten_mono j k s h = fmin_mono _ _ _ (laws.refl_of_le _ _ n.reduction).1 (
          div_mono _ _ _ (span_positive s)
            (mul_mono _ _ _ n.reduction (of_int_mono j k h) (n.product j) (n.product k))
            (n.quotient j) (n.quotient k))

      tighten_nonneg :
          (k : ℤ) → ltb_ℤ (pos 0) span ≡ true → pos 0 ≤ℤ k → whole 0 ≼ tighten cfg k span
      unfolding tighten
      tighten_nonneg k s h = fmin_nonneg _ _ _ n.reduction (
          div_nonneg _ _
            (mul_nonneg _ _ n.reduction (laws.le_trans _ _ _ mono.zero_of_int (of_int_mono _ k h))
              (n.product k))
            (span_positive s) (n.quotient k))

      tighten-le-reduction : (k : ℤ) → tighten cfg k span ≼ cfg.time_tighten_max_reduction_pct
      unfolding tighten
      tighten-le-reduction k = fmin-le _ _ (laws.refl_of_le _ _ n.reduction).1 (n.quotient k)

      -- As the days pass the threshold of the fixed stop never falls, and it never rises above the
      -- untightened stop by more than the largest reduction, if the settings are sound and what is
      -- computed from them is a number.
      pub fixed_threshold_mono :
          (d e : ℤ)
          → d ≤ℤ e
          → (fixed_threshold cfg d macro_stop_mult regime
              ≼ fixed_threshold cfg e macro_stop_mult regime)
            × (fixed_threshold cfg e macro_stop_mult regime
                ≼ add base cfg.time_tighten_max_reduction_pct)
      unfolding fixed_threshold
      fixed_threshold_mono d e h =
          let start = start_days cfg regime in
          let reduction = cfg.time_tighten_max_reduction_pct in
          let early = d -ℤ start in
          let late = e -ℤ start in
          ground (
            arith,
            n.base_number,
            -ℤ_parts d start,
            -ℤ_parts e start,
            tighten_mono early late,
            tighten_nonneg late,
            add_nonneg base (tighten cfg late span) (tighten_nonneg late _ _) (n.total late),
            add_mono base (tighten cfg early span) (tighten cfg late span)
                (tighten_mono early late _ _) (n.total early) (n.total late),
            add_mono base (tighten cfg late span) reduction (tighten-le-reduction late)
                (n.total late) n.limit,
            add_nonneg base reduction n.reduction n.limit,
          )
