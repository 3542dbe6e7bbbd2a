-- ===== src/Scout/Select.antt =====
-- `select_watchlist` of prime_jennie/services/scout/selection.py. Dictionaries and sets that are only read
-- are functions; the fields that are only copied to the watchlist are left out, with the time.
use text.Mathlib.Text.{◌==◌}
use prime_jennie.Prelude.{
  ℕ, suc, ◌-◌, Bool, true, false, not, ◌&&◌, ◌||◌, Option, none, some, List, [], ◌∷◌, ◌++◌, String,
  leb, length, take, filter, any, if◌then◌else◌,
}
use prime_jennie.Prelude.Int.{ℤ, pos, ◌*ℤ◌, ltb_ℤ, eqb_ℤ}
use prime_jennie.Enums.{RiskTag, TradeTier, SectorGroup, same_sector}
use prime_jennie.Float.{Float, whole}

pub record HybridScore (F : Type 0) : Type 0 where
  pub stock_code : String
  pub quant_score : F
  pub llm_score : F
  pub hybrid_score : F
  pub llm_grade : String
  pub risk_tag : RiskTag
  pub trade_tier : TradeTier
  pub is_tradable : Bool
  pub veto_applied : Bool

-- the master data of an `EnrichedCandidate`
pub record Candidate : Type 0 where
  pub market_cap : Option ℤ
  pub sector_group : Option SectorGroup

pub record WatchlistEntry (F : Type 0) : Type 0 where
  pub stock_code : String
  pub hybrid_score : F
  pub rank : ℕ
  pub is_tradable : Bool
  pub trade_tier : TradeTier
  pub sector_group : SectorGroup

abbrev pub is_blocked : TradeTier → Bool
is_blocked TradeTier.blocked = true
is_blocked _ = false

abbrev pub or_zero : Option ℤ → ℤ
or_zero none = pos 0
or_zero (some m) = m

abbrev pub market_cap_of : Option Candidate → ℤ
market_cap_of none = pos 0
market_cap_of (some c) = or_zero c.market_cap

abbrev pub or_etc : Option SectorGroup → SectorGroup
or_etc none = SectorGroup.etc
or_etc (some g) = g

abbrev pub sector_of : Option Candidate → SectorGroup
sector_of none = SectorGroup.etc
sector_of (some c) = or_etc c.sector_group

module _ {F : Type 0} where
  abbrev pub score_or : Option F → F → F
  score_or none d = d
  score_or (some x) d = x

  -- a stable sort by falling keys
  unfoldable pub insert_desc :
      (HybridScore F → ℤ × ℤ) → HybridScore F → List (HybridScore F) → List (HybridScore F)
  insert_desc key x [] = x ∷ []
  insert_desc key x (y ∷ ys) =
      let rest = insert_desc key x ys in
      let (a, m) = key x in
      let (b, n) = key y in if ltb_ℤ a b || (eqb_ℤ a b && ltb_ℤ m n) then y ∷ rest else x ∷ y ∷ ys

  unfoldable pub sort_desc : (HybridScore F → ℤ × ℤ) → List (HybridScore F) → List (HybridScore F)
  sort_desc key [] = []
  sort_desc key (x ∷ xs) = insert_desc key x (sort_desc key xs)

module _ {F : Type 0} ⦃num : Float F⦄ (candidates : String → Option Candidate)
    (overrides : String → Option F) where
  open num use {floor, div, le, lt}

  unfoldable pub ma_score : HybridScore F → F
  ma_score s = score_or (overrides s.stock_code) s.hybrid_score

  unfoldable pub get_sector : String → SectorGroup
  get_sector code = sector_of (candidates code)

  unfoldable pub sort_key : HybridScore F → ℤ × ℤ
  sort_key s =
      (floor (div (ma_score s) (whole 5)) *ℤ pos 5, market_cap_of (candidates s.stock_code))

  unfoldable pub is_eligible : HybridScore F → Bool
  is_eligible s = not (is_blocked s.trade_tier) && s.is_tradable

  -- in from the entry threshold on, and kept from the exit threshold on
  unfoldable pub passes_hysteresis : F → F → List String → HybridScore F → Bool
  passes_hysteresis entry_threshold exit_threshold previous s =
      le entry_threshold (ma_score s)
      || (le exit_threshold (ma_score s) && any (λ c. c == s.stock_code) previous)

  unfoldable pub hysteresis :
      F → F → Option (List String) → List (HybridScore F) → List (HybridScore F)
  hysteresis entry_threshold exit_threshold none eligible = eligible
  hysteresis entry_threshold exit_threshold (some previous) eligible =
      filter (passes_hysteresis entry_threshold exit_threshold previous) eligible

  unfoldable pub bump : SectorGroup → (SectorGroup → ℕ) → SectorGroup → ℕ
  bump g counts h = if same_sector g h then suc (counts h) else counts h

  -- the loop, with the number selected so far: what is selected and what is skipped
  unfoldable pub greedy :
      (SectorGroup → ℤ)
      → ℕ
      → ℕ
      → (SectorGroup → ℕ)
      → List (HybridScore F)
      → List (HybridScore F) × List (HybridScore F)
  greedy cap max_size n counts [] = ([], [])
  greedy cap max_size n counts (s ∷ ss) =
      let g = get_sector s.stock_code in
      let fits = ltb_ℤ (pos (counts g)) (cap g) in
      let rest =
        greedy cap max_size (if fits then suc n else n) (if fits then bump g counts else counts)
          ss in
      if leb max_size n
      then ([], [])
      else if fits
      then (s ∷ rest.0, rest.1)
      else (rest.0, s ∷ rest.1)

  unfoldable pub backfill : ℕ → List (HybridScore F) × List (HybridScore F) → List (HybridScore F)
  backfill max_size (selected, skipped) = selected ++ take (max_size - length selected) skipped

  unfoldable pub eligible_scores :
      F → F → Option (List String) → List (HybridScore F) → List (HybridScore F)
  eligible_scores entry_threshold exit_threshold previous_codes scores =
      hysteresis entry_threshold exit_threshold previous_codes
        (filter is_eligible (sort_desc sort_key scores))

  unfoldable pub selected_scores :
      (SectorGroup → ℤ)
      → ℕ
      → F
      → F
      → Option (List String)
      → List (HybridScore F)
      → List (HybridScore F)
  selected_scores cap max_size entry_threshold exit_threshold previous_codes scores =
      backfill max_size (
        greedy cap max_size 0 (λ g. 0)
          (eligible_scores entry_threshold exit_threshold previous_codes scores))

  unfoldable pub entries_from : ℕ → List (HybridScore F) → List (WatchlistEntry F)
  entries_from rank [] = []
  entries_from rank (s ∷ ss) =
      record {
        stock_code = s.stock_code;
        hybrid_score = ma_score s;
        rank = rank;
        is_tradable = s.is_tradable;
        trade_tier = s.trade_tier;
        sector_group = get_sector s.stock_code;
      }
      ∷ entries_from (suc rank) ss

  unfoldable pub select_watchlist :
      (SectorGroup → ℤ)
      → ℕ
      → F
      → F
      → Option (List String)
      → List (HybridScore F)
      → List (WatchlistEntry F)
  select_watchlist cap max_size entry_threshold exit_threshold previous_codes scores =
      entries_from 1
        (selected_scores cap max_size entry_threshold exit_threshold previous_codes scores)
