-- ===== src/Kis.antt =====
-- prime_jennie/infra/kis/client.py: the polling of an order. The HTTP calls are calls of the
-- environment, and the pauses between two of them are the time in which it may change.
pub mod Polling
mod Polls
mod Tests
use prime_jennie.Prelude.{ℕ, zero, suc, Bool, Option, none, some, String, if◌then◌else◌}
use prime_jennie.Prelude.Int.{ℤ, pos, ltb_ℤ}
use prime_jennie.Services.Calls.{Call, OrderStatus, Fill, Env}
use prime_jennie.Services.Action.{Action, pure, attempt, ask, ◌>>=◌}

abbrev pub fill_of : {F : Type 0} → OrderStatus F → Fill F
fill_of s = record { filled_qty = s.filled_qty; avg_price = s.avg_price }

-- after the last retry: a part that is filled counts as a success
unfoldable pub partly_filled : {F : Type 0} → Option (OrderStatus F) → Option (Fill F)
partly_filled none = none
partly_filled (some s) = if ltb_ℤ (pos 0) s.filled_qty then some (fill_of s) else none

module _ {F : Type 0} (env : Env F) where
  unfoldable pub check_order_status : String → Action (Option (OrderStatus F))
  check_order_status order_no =
      attempt (do s ← ask env (Call.kis_status order_no); pure (some s)) (pure none)

  -- `if status:` with the rest of the loop
  unfoldable pub seen :
      Option (OrderStatus F)
      → Option (OrderStatus F)
      → (Option (OrderStatus F) → Action (Option (Fill F)))
      → Action (Option (Fill F))
  seen none last next = next last
  seen (some s) last next = if s.filled then pure (some (fill_of s)) else next (some s)

  -- the loop, with the retries that are left and the last status
  unfoldable pub poll : String → ℕ → Option (OrderStatus F) → Action (Option (Fill F))
  poll order_no zero last = pure (partly_filled last)
  poll order_no (suc n) last = do
    status ← check_order_status order_no
    seen status last (poll order_no n)

  unfoldable pub confirm_order : String → ℕ → Action (Option (Fill F))
  confirm_order order_no max_retries = poll order_no max_retries none
