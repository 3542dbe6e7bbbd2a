-- ===== src/Scout/Traded.antt =====
-- Slices of prices that begin with a price, for the divisions of prime_jennie/services/scout/quant.py.
use prime_jennie.Prelude.{
  ℕ, zero, suc, ◌-◌, ◌≤◌, ◌<◌, ◌≡◌, refl, false, length, drop, last_of, All, List, [], ◌∷◌, arith,
}
use prime_jennie.Prelude.Int.{ℤ, pos, eqb_ℤ}

-- not a closing price of 0
abbrev pub IsTraded : ℤ → Type 0
IsTraded close = eqb_ℤ close (pos 0) ≡ false

-- a list that begins with such a price
pub record Begins (xs : List ℤ) : Type 0 where
  pub first : ℤ
  pub rest : List ℤ
  pub is_first : xs ≡ first ∷ rest
  pub traded : IsTraded first

drop-Begins : (k : ℕ) (xs : List ℤ) → k < length xs → All IsTraded xs → Begins (drop k xs)
unfolding drop
drop-Begins k [] h p = absurd (omega (arith, h))
drop-Begins zero (x ∷ xs) h p = record { first = x; rest = xs; is_first = refl; traded = p.0 }
drop-Begins (suc k) (x ∷ xs) h p = drop-Begins k xs (omega (arith, h)) p.1

pub last_of-Begins :
    (n : ℕ) (xs : List ℤ) → 0 < n → n ≤ length xs → All IsTraded xs → Begins (last_of n xs)
unfolding last_of
last_of-Begins n xs pos_n h p = drop-Begins (length xs - n) xs (omega arith) p
