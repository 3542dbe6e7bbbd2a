-- ===== src/Config/Levels.antt =====
-- `SellConfig.get_scale_out_levels` of prime_jennie/domain/config.py: "profit_pct:sell_pct,…".
use prime_jennie.Prelude.{
  ℕ, Bool, ◌==◌, ◌||◌, leb, ◌&&◌, Option, some, List, [], ◌∷◌, if◌then◌else◌,
}
use mathlib.Core.List.{reverse}
use prime_jennie.Prelude.Maybe.{◌>>=◌}
use prime_jennie.Enums.{MarketRegime, strong_bull, bull, sideways, bear, strong_bear}
use prime_jennie.Config.Sell.{Text, SellConfig}
use prime_jennie.Float.{Float}

abbrev pub comma : ℕ
comma = b','

abbrev pub colon : ℕ
colon = b':'

abbrev between : ℕ → ℕ → ℕ → Bool
between lo hi c = leb lo c && leb c hi

-- the characters for which `str.isspace` holds
is_space : ℕ → Bool
is_space c =
    between 9 13 c
    || between 28 32 c
    || c == 0x85
    || c == 0xa0
    || c == 0x1680
    || between 0x2000 0x200a c
    || between 0x2028 0x2029 c
    || c == 0x202f
    || c == 0x205f
    || c == 0x3000

strip_left : Text → Text
strip_left [] = []
strip_left (c ∷ cs) = let rest = strip_left cs in if is_space c then rest else c ∷ cs

-- `str.strip()`
unfoldable pub strip : Text → Text
unfolding is_space strip_left
strip t = reverse (strip_left (reverse (strip_left t)))

before : ℕ → ℕ → List Text → List Text
before sep c [] = (c ∷ []) ∷ []
before sep c (w ∷ ws) = if c == sep then [] ∷ w ∷ ws else (c ∷ w) ∷ ws

-- `str.split(sep)` for a separator of one character
unfoldable pub split : ℕ → Text → List Text
unfolding before
split sep [] = [] ∷ []
split sep (c ∷ cs) = before sep c (split sep cs)

-- The text of the levels for a regime.
unfoldable pub raw_levels : {F : Type 0} → SellConfig F → MarketRegime → Text
raw_levels cfg strong_bull = cfg.scale_out_levels_bull
raw_levels cfg bull = cfg.scale_out_levels_bull
raw_levels cfg sideways = cfg.scale_out_levels_sideways
raw_levels cfg bear = cfg.scale_out_levels_bear
raw_levels cfg strong_bear = cfg.scale_out_levels_bear

module _ {F : Type 0} ⦃num : Float F⦄ where
  open num use {of_text}

  -- One round of the loop; a pair that has not two parts is passed over, and `none` is the
  -- ValueError of `float`.
  unfoldable pub level : List Text → Option (List (F × F)) → Option (List (F × F))
  level (p ∷ q ∷ []) rest = do x ← of_text p; y ← of_text q; r ← rest; some ((x, y) ∷ r)
  level _ rest = rest

  unfoldable pub levels : List Text → Option (List (F × F))
  unfolding level strip split
  levels [] = some []
  levels (pair ∷ pairs) = level (split colon (strip pair)) (levels pairs)

  unfoldable pub get_scale_out_levels : SellConfig F → MarketRegime → Option (List (F × F))
  unfolding levels raw_levels
  get_scale_out_levels cfg regime = levels (split comma (raw_levels cfg regime))
