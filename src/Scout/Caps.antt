-- ===== src/Scout/Caps.antt =====
-- The caps that prime_jennie/services/scout/sector_budget.py gives.
use prime_jennie.Prelude.{◌≡◌, arith}
use prime_jennie.Prelude.Int.{ℤ, pos, ◌+ℤ◌, ◌-ℤ◌, ◌≤ℤ◌, min_ℤ, max_ℤ, +ℤ_parts, eq_of_parts}
use prime_jennie.Enums.{SectorTier, SectorGroup}
use prime_jennie.Scout.Budget.{watchlist_of, portfolio_of, override_or, effective_of, budget_entry}

watchlist_bounds :
    (g : SectorGroup) (t : SectorTier)
    → (pos 3 ≤ℤ override_or g (watchlist_of t)) × (override_or g (watchlist_of t) ≤ℤ pos 5)
unfolding override_or watchlist_of
watchlist_bounds g t = ground arith

effective_formula :
    (wl pf held : ℤ)
    → pos 1 ≤ℤ wl
    → effective_of wl pf held ≡ min_ℤ wl (max_ℤ (pos 0) (pf -ℤ held) +ℤ pos 1)
unfolding effective_of
effective_formula wl pf held h =
    let room = max_ℤ (pos 0) (pf -ℤ held) in
    let cap = min_ℤ wl (room +ℤ pos 1) in
    ground (arith, +ℤ_parts room (pos 1), eq_of_parts (pos 1) cap)

-- The effective cap of an entry is the smaller of the watchlist cap and one more than the room in the
-- portfolio: the lower bound of 1 in the code never applies.
pub effective_cap_lem :
    (held : SectorGroup → ℤ) (group : SectorGroup) (tier : SectorTier)
    → (budget_entry held (group, tier)).effective_cap
      ≡ min_ℤ
          (budget_entry held (group, tier)).watchlist_cap
          (max_ℤ (pos 0) ((budget_entry held (group, tier)).portfolio_cap -ℤ held group) +ℤ pos 1)
unfolding budget_entry
effective_cap_lem held group tier =
    effective_formula (override_or group (watchlist_of tier)) (portfolio_of tier) (held group)
      (omega (arith, watchlist_bounds group tier))
