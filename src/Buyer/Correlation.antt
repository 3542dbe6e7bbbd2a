-- ===== src/Buyer/Correlation.antt =====
-- `check_portfolio_correlation` of prime_jennie/services/buyer/correlation.py, and its call in the
-- executor. `calculate_correlation` is a computation of numpy, so it is an argument.
use text.Mathlib.Text.{◌==◌}
use prime_jennie.Prelude.{
  Bool, true, not, Option, none, some, List, [], ◌∷◌, String, map, if◌then◌else◌,
}
use prime_jennie.Prelude.Int.{ℤ}
use prime_jennie.Float.{Float, whole}
use prime_jennie.Services.Calls.{Position, DailyPrice, Env}
use prime_jennie.Services.Action.{Action, pure, ◌>>=◌}
use prime_jennie.Buyer.Types.{BuyerConfig}
use prime_jennie.Buyer.Steps.{daily_prices}

abbrev pub closes : List DailyPrice → List ℤ
closes ps = map (λ p. p.close_price) ps

module _ {F : Type 0} ⦃num : Float F⦄ (env : Env F)
    (calculate_correlation : List ℤ → List ℤ → Option F) where
  open num use {lt, le}

  -- `if corr is not None and corr > max_corr`
  unfoldable pub larger : F → Option F → F
  larger max_corr none = max_corr
  larger max_corr (some corr) = if lt max_corr corr then corr else max_corr

  -- a position whose prices cannot be had is skipped
  unfoldable pub correlation_with : List ℤ → Option (List DailyPrice) → Option F
  correlation_with candidate_prices none = none
  correlation_with candidate_prices (some held_prices) =
      calculate_correlation candidate_prices (closes held_prices)

  unfoldable pub max_correlation : String → List ℤ → List Position → F → Action F
  max_correlation code candidate_prices [] max_corr = pure max_corr
  max_correlation code candidate_prices (p ∷ ps) max_corr =
      let rest = max_correlation code candidate_prices ps in
      if p.stock_code == code then rest max_corr else do
        held_prices ← daily_prices env p.stock_code 60
        rest (larger max_corr (correlation_with candidate_prices held_prices))

  unfoldable pub check_portfolio_correlation : String → List ℤ → List Position → F → Action Bool
  check_portfolio_correlation code candidate_prices positions block_threshold = do
    max_corr ← max_correlation code candidate_prices positions (whole 0)
    pure (not (le block_threshold max_corr))

  unfoldable pub with_candidate :
      String → List Position → F → Option (List DailyPrice) → Action Bool
  with_candidate code positions threshold none = pure true
  with_candidate code positions threshold (some daily) =
      check_portfolio_correlation code (closes daily) positions threshold

  unfoldable pub check_correlation : BuyerConfig F → String → List Position → Action Bool
  check_correlation cfg code positions = do
    daily ← daily_prices env code 60
    with_candidate code positions cfg.correlation_block_threshold daily
