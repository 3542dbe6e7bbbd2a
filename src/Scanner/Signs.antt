-- ===== src/Scanner/Signs.antt =====
-- What the strategies of prime_jennie/services/scanner/strategies.py look for in the bars.
use prime_jennie.Prelude.{
  ℕ, ◌≡◌, true, false, ◌&&◌, leb, if◌then◌else◌, Option, none, some, List, [], ◌∷◌,
}
use prime_jennie.Prelude.Int.{ℤ, pos, ◌-ℤ◌, ◌≤ℤ◌}
use prime_jennie.Enums.{MarketRegime, is_bull}
use prime_jennie.Float.{Float, minus}
use prime_jennie.Float.Order.{◌≼◌, ◌≺◌}
use prime_jennie.Bars.{Bar}
use prime_jennie.Scanner.Times.{parse_time}
use prime_jennie.Scanner.Types.{ScannerConfig}
use prime_jennie.Scanner.Strategies.{days_of, percent_over, highest}

-- 1 to 5 days since the entry was scored
abbrev pub IsRecent : ℤ → Option ℤ → Type 0
IsRecent now none = ⊥
IsRecent now (some t) = (pos 1 ≤ℤ days_of (now -ℤ t)) × (days_of (now -ℤ t) ≤ℤ pos 5)

module _ {F : Type 0} ⦃num : Float F⦄ where
  open num use {lit, lt, le}

  -- The short average crossed the long one: it was not above it, and now it is.
  abbrev pub IsCrossed : Option F → Option F → Option F → Option F → Type 0
  IsCrossed (some short) (some long) (some before) (some long_before) =
      (before ≼ long_before) × (long ≺ short)
  IsCrossed _ _ _ _ = ⊥

  -- The gain over five bars, the last one first, is between the two limits.
  abbrev pub IsRise : F → F → List (Bar F) → Type 0
  IsRise lo hi (b ∷ _ ∷ _ ∷ _ ∷ b' ∷ _) =
      let gain = percent_over (num.div b.close b'.start) in
      (lt gain lo ≡ false) × (lt hi gain ≡ false)
  IsRise lo hi _ = ⊥

  -- The short average is above the long one, and the change is from 2% to 5%.
  abbrev pub IsContinued : F → Option F → Option F → Type 0
  IsContinued change (some short) (some long) =
      (le short long ≡ false) × (lt change (lit 20 1) ≡ false) × (lt (lit 50 1) change ≡ false)
  IsContinued change _ _ = ⊥

  -- The close is off the highest of the bars by a dip of the regime.
  abbrev pub IsDip : MarketRegime → List (Bar F) → F → Type 0
  IsDip regime [] x = ⊥
  IsDip regime (b ∷ bs) x =
      let dip = percent_over (num.div x (highest b.high bs)) in
      ((if is_bull regime then minus 30 1 else minus 50 1) ≼ dip)
      × (dip ≼ (if is_bull regime then minus 5 1 else minus 20 1))

  -- The close is above the highest of the bars.
  abbrev pub IsHighest : List (Bar F) → F → Type 0
  IsHighest [] x = ⊥
  IsHighest (b ∷ bs) x = le x (highest b.high bs) ≡ false

  -- The time is in the window of the settings, whose bounds can be read.
  pub record IsInWindow (config : ScannerConfig F) (current : ℕ) : Type 0 where
    pub start : ℕ
    pub end : ℕ
    pub start_read : parse_time config.conviction_window_start ≡ some start
    pub end_read : parse_time config.conviction_window_end ≡ some end
    pub inside : (leb start current && leb current end) ≡ true
