-- ===== src/Seller/Orders.antt =====
-- The orders of `process_signal` and `_execute_sell` in prime_jennie/services/seller/executor.py.
use prime_jennie.Prelude.{ℕ, ◌≡◌, refl, Bool, true, false, arith}
use prime_jennie.Float.{Float}
use prime_jennie.Services.Calls.{Key, Call, Position, History, Env}
use prime_jennie.Services.Action.{pure, ask}
use prime_jennie.Services.Keeps.{
  Leads, Keeps, Keeps-pure, Keeps-attempt, Leads-bind, Leads-weaken, Leads-finally,
}
use prime_jennie.Services.Counts.{
  count, AtMost, AtMost-Keeps, AtMost-Leads, AllCalls, AllCalls-Keeps,
}
use prime_jennie.Services.Trace.{is_inert}
use prime_jennie.Seller.Types.{market_order, SellOrder, SellerConfig}
use prime_jennie.Seller.Steps.{acquire_lock, release_lock}
use prime_jennie.Seller.Execute.{execute_sell, if_locked, process_signal}
use prime_jennie.Seller.Calls.{execute_sell-Leads}
use prime_jennie.Seller.Calls.{execute_sell-Leads}
use prime_jennie.Seller.Signals.{process_signal-Leads}
use prime_jennie.Prelude.{◌+◌, ◌≤◌}
use prime_jennie.Prelude.Int.{pos, ◌≤ℤ◌}
use prime_jennie.Enums.{OrderType}
use prime_jennie.Services.Calls.{OrderRequest}

abbrev pub is_sell : Call → ℕ
is_sell (Call.kis_sell order) = 1
is_sell _ = 0

-- A market order for the stock of the signal, of at least one share and no more than asked for or
-- held.
abbrev pub IsSoundOrder : SellOrder → Position → OrderRequest → Type 0
IsSoundOrder order position r =
    (r.stock_code ≡ order.stock_code)
    × (r.order_type ≡ OrderType.market)
    × (pos 1 ≤ℤ r.quantity)
    × (r.quantity ≤ℤ order.quantity)
    × (r.quantity ≤ℤ position.quantity)

module _ (Good : OrderRequest → Type 0) where
  -- a good sell order, or a call that is no order
  abbrev pub Places : Call → Type 0
  Places (Call.kis_sell order) = Good order
  Places (Call.kis_buy order) = ⊥
  Places _ = Unit

  inert-Places : (c : Call) → is_inert c ≡ true → Places c
  inert-Places (Call.redis_set_nx k ttl) e = cc
  inert-Places (Call.redis_delete k) e = cc
  inert-Places (Call.kis_sell order) e = cc
  inert-Places (Call.kis_buy order) e = cc
  inert-Places _ e = tt

inert-is_sell : (c : Call) → is_inert c ≡ true → is_sell c ≡ 0
inert-is_sell (Call.kis_sell order) e = cc
inert-is_sell _ e = refl

module _ {F : Type 0} ⦃num : Float F⦄ (env : Env F) (cfg : SellerConfig) (order : SellOrder)
    (position : Position) where
  abbrev AllSound : History → Type 0
  AllSound = AllCalls (Places (IsSoundOrder order position))

  asked : (c : Call) → Places (IsSoundOrder order position) c → Keeps AllSound (ask env c)
  asked = AllCalls-Keeps (Places (IsSoundOrder order position)) env

  inert : (c : Call) → is_inert c ≡ true → Keeps AllSound (ask env c)
  inert c e = asked c (inert-Places (IsSoundOrder order position) c e)

  execute_sell-Keeps : Keeps AllSound (execute_sell env cfg order position)
  execute_sell-Keeps =
      execute_sell-Leads env {P = AllSound} {Q = AllSound} inert inert (λ h p. p) cfg order position
        (λ q s. asked (Call.kis_sell (market_order order q)) (refl, refl, s.0, s.1, s.2))

  -- If all orders so far are market orders to sell the stock of the signal, of at least one share and
  -- of no more shares than the signal asks for or the position holds, then so are those that a sale
  -- adds: it sells nothing else and buys nothing.
  pub execute_sell-AllCalls :
      (h : History)
      → AllCalls (Places (IsSoundOrder order position)) h
      → AllCalls (Places (IsSoundOrder order position)) (execute_sell env cfg order position h).1
  execute_sell-AllCalls h p = execute_sell-Keeps.at h p

module _ {F : Type 0} ⦃num : Float F⦄ (env : Env F) (cfg : SellerConfig) (order : SellOrder)
    (n : ℕ) where
  abbrev Is : History → Type 0
  Is h = count is_sell h ≤ n

  abbrev IsNext : History → Type 0
  IsNext = AtMost is_sell (1 + n)

  inert_count : (m : ℕ) (c : Call) → is_inert c ≡ true → Keeps (AtMost is_sell m) (ask env c)
  inert_count m c e = AtMost-Keeps is_sell env m c (inert-is_sell c e)

  acquire_lock-count : Keeps Is (acquire_lock env order.stock_code)
  unfolding acquire_lock
  acquire_lock-count =
      let c = Call.redis_set_nx (Key.lock_sell order.stock_code) 30 in
      Keeps-attempt (ask env c) (pure false) (AtMost-Keeps is_sell env n c refl) (Keeps-pure _)

  release_lock-count : Keeps IsNext (release_lock env order.stock_code)
  unfolding release_lock
  release_lock-count =
      let c = Call.redis_delete (Key.lock_sell order.stock_code) in
      Keeps-attempt (ask env c) (pure tt) (AtMost-Keeps is_sell env (1 + n) c refl) (Keeps-pure _)

  locked : (position : Position) (b : Bool) → Leads Is IsNext (if_locked env cfg order position b)
  unfolding if_locked
  locked position true =
      Leads-finally (execute_sell env cfg order position) (release_lock env order.stock_code)
        (execute_sell-Leads env {P = Is} {Q = IsNext} (inert_count n) (inert_count (1 + n))
          (λ h p. omega arith) cfg order position
          (λ q s. AtMost-Leads is_sell env n (Call.kis_sell (market_order order q)) refl))
        release_lock-count
  locked position false = Leads-weaken _ (Keeps-pure _) (λ h p. omega arith)

  process_signal-count : Leads Is IsNext (process_signal env cfg order)
  process_signal-count =
      process_signal-Leads env (inert_count n) (λ h p. omega arith) cfg order
        (λ position. Leads-bind _ _ acquire_lock-count (locked position) (λ h p. omega arith))

module _ {F : Type 0} ⦃num : Float F⦄ (env : Env F) (cfg : SellerConfig) (order : SellOrder) where
  -- A signal places at most one sell order, whatever the broker and the store answer and however the
  -- handling ends.
  pub process_signal_once :
      (h : History) → count is_sell (process_signal env cfg order h).1 ≤ 1 + count is_sell h
  process_signal_once h = (process_signal-count env cfg order (count is_sell h)).at h (omega arith)
