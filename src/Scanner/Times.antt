-- ===== src/Scanner/Times.antt =====
-- `_parse_time` of prime_jennie/services/scanner/risk_gates.py, and windows of the day. A time of the
-- day is its number of microseconds.
use prime_jennie.Prelude.{
  ℕ, ◌+◌, ◌-◌, ◌*◌, Bool, true, false, ◌&&◌, ◌==◌, leb, Option, none, some, List, [], ◌∷◌,
  if◌then◌else◌,
}
use mathlib.Core.Option
use prime_jennie.Prelude.Maybe.{◌>>=◌}
use prime_jennie.Prelude.Int.{ℤ, pos, ◌-ℤ◌, leb_ℤ, ltb_ℤ, pos_part}
use prime_jennie.Config.Sell.{Text}
use prime_jennie.Config.Levels.{strip, split, colon}

-- The digits of `int`, with single underscores between them. Digits of other scripts are not read.
digits : Bool → ℕ → Text → Option ℕ
digits after acc [] = if after then some acc else none
digits after acc (c ∷ cs) =
    let next = digits true (acc * 10 + (c - b'0')) cs in
    let joined = digits false acc cs in
    if leb b'0' c && leb c b'9' then next else if after && c == b'_' then joined else none

signed : Text → Option ℤ
unfolding digits
signed [] = none
signed (c ∷ cs) =
    if c == b'-'
    then Option.map (λ n. pos 0 -ℤ pos n) (digits false 0 cs)
    else Option.map pos (digits false 0 (if c == b'+' then cs else c ∷ cs))

-- `int(text)`; `none` is the ValueError
unfoldable pub read_int : Text → Option ℤ
unfolding signed strip
read_int t = signed (strip t)

abbrev pub minute : ℕ
minute = 60_000_000

-- `time(h, m)`, which raises out of range
unfoldable pub time_of : ℤ → ℤ → Option ℕ
time_of h m =
    if leb_ℤ (pos 0) h && ltb_ℤ h (pos 24) && (leb_ℤ (pos 0) m && ltb_ℤ m (pos 60))
    then some ((pos_part h * 60 + pos_part m) * minute)
    else none

-- the hour and the minute of `parts`; a missing part is the IndexError
unfoldable pub time_from : List Text → Option ℕ
unfolding time_of read_int
time_from (h ∷ m ∷ _) = do hour ← read_int h; min ← read_int m; time_of hour min
time_from _ = none

unfoldable pub parse_time : Text → Option ℕ
unfolding time_from split
parse_time s = time_from (split colon s)
