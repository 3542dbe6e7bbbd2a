-- ===== src/Buyer/Lock.antt =====
-- The lock of `process_signal` in prime_jennie/services/buyer/executor.py.
use text.Mathlib.TextPositions.{eq_refl}
use prime_jennie.Prelude.{◌≡◌, Bool, true, false, Option, List, String}
use prime_jennie.Prelude.Int.{ℤ}
use prime_jennie.Float.{Float}
use prime_jennie.Services.Calls.{Key, Call, Position, History, Env}
use prime_jennie.Services.Action.{Action, ask, ◌>>=◌}
use prime_jennie.Services.Keeps.{Leads, Keeps, Keeps-pure, Leads-finally}
use prime_jennie.Services.Locks.{acquire-Leads, release-Leads}
use prime_jennie.Services.Trace.{is_inert}
use prime_jennie.Buyer.Types.{BuySignal, BuyerConfig}
use prime_jennie.Buyer.Steps.{acquire_lock, release_lock}
use prime_jennie.Buyer.Execute.{execute_buy, if_locked, process_signal}
use prime_jennie.Services.Trace.{
  IsOrderly, held, is_buy_lock, Before, During, Before-inert, During-inert, During-buy,
}
use prime_jennie.Buyer.Signals.{execute_buy-Leads}
use prime_jennie.Buyer.Gates.{process_signal-Leads}

module _ {F : Type 0} ⦃num : Float F⦄ (env : Env F) (corr : List ℤ → List ℤ → Option F)
    (cfg : BuyerConfig F) (signal : BuySignal F) where
  abbrev code : String
  code = signal.stock_code

  abbrev Free : History → Type 0
  Free = Before is_buy_lock signal.stock_code

  abbrev Held : History → Type 0
  Held = During is_buy_lock signal.stock_code

  own : is_buy_lock (Key.lock_buy code) code ≡ true
  own = eq_refl code

  -- the lock as the answer says
  abbrev At : Bool → History → Type 0
  At true = Held
  At false = Free

  acquire_lock-Leads :
      {B : Type 0} (f : Bool → Action B)
      → ((b : Bool) → Leads (At b) Free (f b))
      → Keeps Free (acquire_lock env signal.stock_code >>= f)
  unfolding acquire_lock
  acquire_lock-Leads f k = acquire-Leads env is_buy_lock code (Key.lock_buy code) own 180 f k

  release_lock-Leads : Leads Held Free (release_lock env signal.stock_code)
  unfolding release_lock
  release_lock-Leads = release-Leads env is_buy_lock code (Key.lock_buy code) own 180

  inert : (c : Call) → is_inert c ≡ true → Keeps Held (ask env c)
  inert = During-inert is_buy_lock code env

  if_locked-Leads :
      (ps : List Position) (b : Bool) → Leads (At b) Free (if_locked env corr cfg signal ps b)
  unfolding if_locked
  if_locked-Leads ps true =
      Leads-finally (execute_buy env corr cfg signal ps) (release_lock env code)
        (execute_buy-Leads env {P = Held} {Q = Held} inert inert (λ h p. p) corr cfg signal
          (λ r _. During-buy is_buy_lock code env r) ps)
        release_lock-Leads
  if_locked-Leads ps false = Keeps-pure _

  process_signal-Keeps : Keeps Free (process_signal env corr cfg signal)
  process_signal-Keeps =
      process_signal-Leads env (Before-inert is_buy_lock code env) (λ h p. p) corr cfg signal
        (λ ps _ _ _ _. acquire_lock-Leads _ (if_locked-Leads ps))

  -- If every order so far was placed under the buy lock of the stock, and the lock is not held, then
  -- the same is true after a buy signal of that stock: an order is placed only after the lock was
  -- granted and before its release is asked for, and the release is asked for however the attempt
  -- ends.
  pub buy_signal-IsOrderly :
      (h : History)
      → IsOrderly is_buy_lock signal.stock_code h
      → held is_buy_lock signal.stock_code h ≡ false
      → IsOrderly is_buy_lock signal.stock_code (process_signal env corr cfg signal h).1
        × (held is_buy_lock signal.stock_code (process_signal env corr cfg signal h).1 ≡ false)
  buy_signal-IsOrderly h orderly free = process_signal-Keeps.at h (orderly, free)
