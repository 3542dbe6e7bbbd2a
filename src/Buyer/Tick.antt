-- ===== src/Buyer/Tick.antt =====
-- `_align_tick_size` of prime_jennie/services/buyer/executor.py.
use prime_jennie.Prelude.{◌+◌, ◌-◌, ℕ, ◌*◌, ◌/◌, if◌then◌else◌}
use prime_jennie.Prelude.Int.{ℤ, pos, negsuc, ltb_ℤ}

unfoldable pub tick_size : ℤ → ℕ
tick_size price =
    if ltb_ℤ price (pos 2000)
    then 1
    else if ltb_ℤ price (pos 5000)
    then 5
    else if ltb_ℤ price (pos 20_000)
    then 10
    else if ltb_ℤ price (pos 50_000)
    then 50
    else if ltb_ℤ price (pos 200_000)
    then 100
    else if ltb_ℤ price (pos 500_000)
    then 500
    else 1000

-- `(a // t) * t`, rounded down also for a negative price
unfoldable pub floor_to : ℕ → ℤ → ℤ
floor_to t (pos n) = pos (n / t * t)
floor_to t (negsuc n) = negsuc (n / t * t + t - 1)

unfoldable pub align_tick_size : ℤ → ℤ
align_tick_size price = floor_to (tick_size price) price
