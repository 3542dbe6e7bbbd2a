-- ===== src/Buyer/Aligned.antt =====
-- What `_align_tick_size` of prime_jennie/services/buyer/executor.py makes of a price.
use mathlib.Core.Path.{subst}
use prime_jennie.Prelude.{ℕ, suc, ◌%◌, ◌≡◌, arith}
use prime_jennie.Prelude.Int.{ℤ, pos, negsuc, ◌≤ℤ◌, ◌+ℤ◌}
use prime_jennie.Buyer.Tick.{tick_size, floor_to, align_tick_size}

-- The price is a tick of its own bracket.
abbrev pub IsAligned : ℤ → Type 0
IsAligned p = align_tick_size p ≡ p

pub align_tick_size-IsAligned : (price : ℤ) → IsAligned (align_tick_size price)
unfolding align_tick_size tick_size floor_to
align_tick_size-IsAligned (pos n) = ground arith
align_tick_size-IsAligned (negsuc n) = ground arith

-- a multiple of the tick
abbrev pub IsMultiple : ℕ → ℤ → Type 0
IsMultiple t (pos n) = n % t ≡ 0
IsMultiple t (negsuc n) = suc n % t ≡ 0

align_tick_size-IsMultiple : (price : ℤ) → IsMultiple (tick_size price) (align_tick_size price)
unfolding align_tick_size tick_size floor_to
align_tick_size-IsMultiple (pos n) = ground arith
align_tick_size-IsMultiple (negsuc n) = ground arith

in_own_bracket :
    (price : ℤ) → IsMultiple (tick_size (align_tick_size price)) (align_tick_size price)
in_own_bracket price =
    subst (IsMultiple (tick_size (align_tick_size price))) (align_tick_size-IsAligned price)
      (align_tick_size-IsMultiple (align_tick_size price))

-- An aligned price is the largest multiple of the tick of the price's bracket that is not above the
-- price (a multiple, not above it, and less than one tick below it), and it is a tick of its own
-- bracket: aligning it again changes nothing, and it is a multiple of the tick there.
pub align_tick_size_lem :
    (price : ℤ)
    → IsMultiple (tick_size price) (align_tick_size price)
      × IsMultiple (tick_size (align_tick_size price)) (align_tick_size price)
      × (align_tick_size (align_tick_size price) ≡ align_tick_size price)
      × (align_tick_size price ≤ℤ price)
      × (price +ℤ pos 1 ≤ℤ align_tick_size price +ℤ pos (tick_size price))
unfolding align_tick_size tick_size floor_to ◌+ℤ◌
align_tick_size_lem price = (
  align_tick_size-IsMultiple price,
  in_own_bracket price,
  align_tick_size-IsAligned price,
  ground arith,
  ground arith,
)
