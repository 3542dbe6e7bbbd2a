-- ===== src/Seller/Lock.antt =====
-- The lock of `process_signal` in prime_jennie/services/seller/executor.py.
use text.Mathlib.TextPositions.{eq_refl}
use prime_jennie.Prelude.{◌≡◌, Bool, true, false, String}
use prime_jennie.Float.{Float}
use prime_jennie.Services.Calls.{Key, Position, History, Env}
use prime_jennie.Services.Action.{Action, ◌>>=◌}
use prime_jennie.Services.Keeps.{Leads, Keeps, Keeps-pure, Leads-finally}
use prime_jennie.Services.Locks.{acquire-Leads, release-Leads}
use prime_jennie.Services.Trace.{
  IsOrderly, is_sell_lock, Before, During, Before-inert, During-inert, During-sell, held,
}
use prime_jennie.Seller.Types.{market_order, SellOrder, SellerConfig}
use prime_jennie.Seller.Steps.{acquire_lock, release_lock}
use prime_jennie.Seller.Execute.{execute_sell, if_locked, process_signal}
use prime_jennie.Seller.Signals.{process_signal-Leads}
use prime_jennie.Seller.Calls.{execute_sell-Leads}

module _ {F : Type 0} ⦃num : Float F⦄ (env : Env F) (cfg : SellerConfig) (order : SellOrder) where
  abbrev Free : History → Type 0
  Free = Before is_sell_lock order.stock_code

  abbrev Held : History → Type 0
  Held = During is_sell_lock order.stock_code

  abbrev code : String
  code = order.stock_code

  own : is_sell_lock (Key.lock_sell code) code ≡ true
  own = eq_refl code

  -- the lock as the answer says
  abbrev At : Bool → History → Type 0
  At true = Held
  At false = Free

  acquire_lock-Leads :
      {B : Type 0} (f : Bool → Action B)
      → ((b : Bool) → Leads (At b) Free (f b))
      → Keeps Free (acquire_lock env order.stock_code >>= f)
  unfolding acquire_lock
  acquire_lock-Leads f k = acquire-Leads env is_sell_lock code (Key.lock_sell code) own 30 f k

  release_lock-Leads : Leads Held Free (release_lock env order.stock_code)
  unfolding release_lock
  release_lock-Leads = release-Leads env is_sell_lock code (Key.lock_sell code) own 30

  if_locked-Leads :
      (position : Position) (b : Bool) → Leads (At b) Free (if_locked env cfg order position b)
  unfolding if_locked
  if_locked-Leads position true =
      Leads-finally (execute_sell env cfg order position) (release_lock env code)
        (execute_sell-Leads env {P = Held} {Q = Held} (During-inert is_sell_lock code env)
          (During-inert is_sell_lock code env) (λ h p. p) cfg order position
          (λ q _. During-sell is_sell_lock code env (market_order order q)))
        release_lock-Leads
  if_locked-Leads position false = Keeps-pure _

  process_signal-Keeps : Keeps Free (process_signal env cfg order)
  process_signal-Keeps =
      process_signal-Leads env (Before-inert is_sell_lock code env) (λ h p. p) cfg order
        (λ position. acquire_lock-Leads _ (if_locked-Leads position))

  -- If every order so far was placed under the lock of the stock, and the lock is not held, then the
  -- same is true after a signal of that stock: every order is placed after the lock was granted and
  -- before its release is asked for, and the release is asked for however the sale ends.
  pub process_signal-IsOrderly :
      (h : History)
      → IsOrderly is_sell_lock order.stock_code h
      → held is_sell_lock order.stock_code h ≡ false
      → IsOrderly is_sell_lock order.stock_code (process_signal env cfg order h).1
        × (held is_sell_lock order.stock_code (process_signal env cfg order h).1 ≡ false)
  process_signal-IsOrderly h orderly free = process_signal-Keeps.at h (orderly, free)
