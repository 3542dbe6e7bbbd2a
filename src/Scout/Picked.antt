-- ===== src/Scout/Picked.antt =====
-- What `select_watchlist` of prime_jennie/services/scout/selection.py picks.
use prime_jennie.Prelude.{
  ap, ℕ, suc, ◌+◌, ◌-◌, ◌≤◌, ◌≡◌, refl, Bool, true, Option, some, List, [], ◌∷◌, String, length,
  take, filter, count_if, All, All-append, All-take, length-append, length-take-le, arith,
}
use prime_jennie.Prelude.Int.{ℤ, pos, ◌≤ℤ◌}
use prime_jennie.Enums.{eq_of_same_sector, SectorGroup, same_sector}
use prime_jennie.Float.{Float}
use prime_jennie.Scout.Select.{
  HybridScore, Candidate, get_sector, is_eligible, passes_hysteresis, hysteresis, bump, greedy,
  backfill, eligible_scores, selected_scores, entries_from, select_watchlist,
}

-- What passes both of two filters passes both tests.
filter-twice-All :
    {A : Type 0} (p q : A → Bool) (xs : List A)
    → All (λ x. (p x ≡ true) × (q x ≡ true)) (filter q (filter p xs))
unfolding filter
filter-twice-All p q [] = tt
filter-twice-All p q (x ∷ xs) = ground (arith, filter-twice-All p q xs)

same_counts :
    (sector_cap : SectorGroup → ℤ) (counts : SectorGroup → ℕ) (a b : SectorGroup)
    → same_sector a b ≡ true
    → (counts a ≡ counts b) × (sector_cap a ≡ sector_cap b)
same_counts sector_cap counts a b e =
    let same = eq_of_same_sector a b e in (ap counts same, ap sector_cap same)

module _ {F : Type 0} ⦃num : Float F⦄ (candidates : String → Option Candidate)
    (overrides : String → Option F) where
  module _ (sector_cap : SectorGroup → ℤ) (max_size : ℕ) where
    length-greedy-le :
        (n : ℕ) (counts : SectorGroup → ℕ) (ss : List (HybridScore F))
        → n ≤ max_size
        → n + length (greedy candidates overrides sector_cap max_size n counts ss).0 ≤ max_size
    unfolding greedy
    length-greedy-le n counts [] h = omega arith
    length-greedy-le n counts (s ∷ ss) h = ground (
      arith,
      length-greedy-le (suc n)
          (bump candidates overrides (get_sector candidates overrides s.stock_code) counts) ss,
      length-greedy-le n counts ss,
    )

    -- A property of all scores is one of what is selected and of what is skipped.
    greedy-All :
        (P : HybridScore F → Type 0) (n : ℕ) (counts : SectorGroup → ℕ) (ss : List (HybridScore F))
        → All P ss
        → All P (greedy candidates overrides sector_cap max_size n counts ss).0
          × All P (greedy candidates overrides sector_cap max_size n counts ss).1
    unfolding greedy
    greedy-All P n counts [] h = (tt, tt)
    greedy-All P n counts (s ∷ ss) (p, ps) = ground (
      arith,
      p,
      greedy-All P (suc n)
          (bump candidates overrides (get_sector candidates overrides s.stock_code) counts) ss ps,
      greedy-All P n counts ss ps,
    )

    abbrev is_of : SectorGroup → HybridScore F → Bool
    is_of g s = same_sector (get_sector candidates overrides s.stock_code) g

    -- The loop stays within the sector_cap of each sector that it starts within.
    greedy-caps :
        (g : SectorGroup) (n : ℕ) (counts : SectorGroup → ℕ) (ss : List (HybridScore F))
        → pos (counts g) ≤ℤ sector_cap g
        → pos (
            counts g
            + count_if (is_of g) (greedy candidates overrides sector_cap max_size n counts ss).0)
          ≤ℤ sector_cap g
    unfolding greedy count_if bump
    greedy-caps g n counts [] h = omega arith
    greedy-caps g n counts (s ∷ ss) h =
        let h' = get_sector candidates overrides s.stock_code in
        ground (
          arith,
          greedy-caps g (suc n) (bump candidates overrides h' counts) ss,
          greedy-caps g n counts ss,
          same_counts sector_cap counts h' g,
        )

  backfill-All :
      (P : HybridScore F → Type 0) (max_size : ℕ) (p : List (HybridScore F) × List (HybridScore F))
      → All P p.0
      → All P p.1
      → All P (backfill candidates overrides max_size p)
  unfolding backfill
  backfill-All P max_size (sel, skip) a b = All-append P sel _ a (All-take P _ skip b)

  length-backfill-le :
      (max_size : ℕ) (p : List (HybridScore F) × List (HybridScore F))
      → length p.0 ≤ max_size
      → length (backfill candidates overrides max_size p) ≤ max_size
  unfolding backfill
  length-backfill-le max_size (sel, skip) h = omega (
    arith,
    h,
    length-append sel (take (max_size - length sel) skip),
    length-take-le (max_size - length sel) skip,
  )

  length-entries_from :
      (rank : ℕ) (ss : List (HybridScore F))
      → length (entries_from candidates overrides rank ss) ≡ length ss
  unfolding entries_from
  length-entries_from rank [] = refl
  length-entries_from rank (s ∷ ss) = omega (arith, length-entries_from (suc rank) ss)

  -- The watchlist is no longer than its maximal size.
  pub length-select_watchlist-le :
      (sector_cap : SectorGroup → ℤ) (max_size : ℕ) (entry_threshold exit_threshold : F)
      (previous_codes : Option (List String)) (scores : List (HybridScore F))
      → length (
          select_watchlist candidates overrides sector_cap max_size entry_threshold exit_threshold
            previous_codes scores)
        ≤ max_size
  unfolding select_watchlist selected_scores
  length-select_watchlist-le sector_cap max_size entry_threshold exit_threshold previous_codes
        scores =
      let eligible =
        eligible_scores candidates overrides entry_threshold exit_threshold previous_codes scores in
      let picked = greedy candidates overrides sector_cap max_size 0 (λ g. 0) eligible in
      omega (
        arith,
        length-entries_from 1 (backfill candidates overrides max_size picked),
        length-backfill-le max_size picked
            (omega (arith, length-greedy-le sector_cap max_size 0 (λ g. 0) eligible (omega arith))),
      )

  module _ (entry_threshold exit_threshold : F) (previous : List String) where
    -- A stock that may trade, with a score to enter or to stay.
    abbrev pub IsPick : HybridScore F → Type 0
    IsPick s =
        (is_eligible candidates overrides s ≡ true)
        × (passes_hysteresis candidates overrides entry_threshold exit_threshold previous s ≡ true)

    eligible-IsPick :
        (scores : List (HybridScore F))
        → All IsPick (
            eligible_scores candidates overrides entry_threshold exit_threshold
              (some previous)
              scores)
    unfolding eligible_scores hysteresis
    eligible-IsPick scores = filter-twice-All _ _ _

    -- With a watchlist before, every stock selected may be traded, is not blocked, and has either a
    -- score from the entry threshold on, or one from the exit threshold on and a place on the watchlist
    -- before. This includes the stocks that fill up the list.
    pub selected_scores-IsPick :
        (sector_cap : SectorGroup → ℤ) (max_size : ℕ) (scores : List (HybridScore F))
        → All IsPick (
            selected_scores candidates overrides sector_cap max_size entry_threshold exit_threshold
              (some previous)
              scores)
    unfolding selected_scores
    selected_scores-IsPick sector_cap max_size scores =
        let all = greedy-All sector_cap max_size IsPick 0 (λ g. 0) _ (eligible-IsPick scores) in
        backfill-All IsPick max_size _ all.0 all.1

  -- Before the list is filled up, no sector has more stocks than its sector_cap.
  pub greedy_within_caps :
      (sector_cap : SectorGroup → ℤ) (max_size : ℕ) (g : SectorGroup)
      (eligible : List (HybridScore F))
      → pos 0 ≤ℤ sector_cap g
      → pos (
          count_if
            (λ s. same_sector (get_sector candidates overrides s.stock_code) g)
            (greedy candidates overrides sector_cap max_size 0 (λ g. 0) eligible).0)
        ≤ℤ sector_cap g
  greedy_within_caps sector_cap max_size g eligible h =
      omega (arith, greedy-caps sector_cap max_size g 0 (λ g. 0) eligible h)
