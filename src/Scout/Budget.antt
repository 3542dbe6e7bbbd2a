-- ===== src/Scout/Budget.antt =====
-- `compute_sector_budget` of prime_jennie/services/scout/sector_budget.py, and `SectorBudget.get_cap`.
use prime_jennie.Prelude.{List, [], ◌∷◌, if◌then◌else◌}
use prime_jennie.Prelude.Int.{ℤ, pos, ◌+ℤ◌, ◌-ℤ◌, min_ℤ, max_ℤ}
use prime_jennie.Enums.{SectorTier, SectorGroup, same_sector}

pub record SectorBudgetEntry : Type 0 where
  pub sector_group : SectorGroup
  pub tier : SectorTier
  pub watchlist_cap : ℤ
  pub portfolio_cap : ℤ
  pub effective_cap : ℤ
  pub held_count : ℤ

-- `TIER_CAPS`
unfoldable pub watchlist_of : SectorTier → ℤ
watchlist_of SectorTier.hot = pos 5
watchlist_of SectorTier.warm = pos 3
watchlist_of SectorTier.cool = pos 3

unfoldable pub portfolio_of : SectorTier → ℤ
portfolio_of SectorTier.hot = pos 5
portfolio_of SectorTier.warm = pos 3
portfolio_of SectorTier.cool = pos 2

-- `SECTOR_CAP_OVERRIDES.get(group, default)`
unfoldable pub override_or : SectorGroup → ℤ → ℤ
override_or SectorGroup.semiconductor_it default = pos 4
override_or _ default = default

unfoldable pub effective_of : ℤ → ℤ → ℤ → ℤ
effective_of wl_cap pf_cap current_held =
    let portfolio_room = max_ℤ (pos 0) (pf_cap -ℤ current_held) in
    max_ℤ (pos 1) (min_ℤ wl_cap (portfolio_room +ℤ pos 1))

unfoldable pub budget_entry : (SectorGroup → ℤ) → SectorGroup × SectorTier → SectorBudgetEntry
budget_entry held (group, tier) =
    let wl_cap = override_or group (watchlist_of tier) in
    let pf_cap = portfolio_of tier in
    record {
      sector_group = group;
      tier = tier;
      watchlist_cap = wl_cap;
      portfolio_cap = pf_cap;
      effective_cap = effective_of wl_cap pf_cap (held group);
      held_count = held group;
    }

-- the entries in the order of the tiers; the groups of `tiers` differ
unfoldable pub compute_sector_budget :
    List (SectorGroup × SectorTier) → (SectorGroup → ℤ) → List SectorBudgetEntry
compute_sector_budget [] held = []
compute_sector_budget (t ∷ tiers) held = budget_entry held t ∷ compute_sector_budget tiers held

unfoldable pub get_cap : List SectorBudgetEntry → SectorGroup → ℤ
get_cap [] group = pos 3
get_cap (e ∷ entries) group =
    let rest = get_cap entries group in
    if same_sector e.sector_group group then e.effective_cap else rest
