-- ===== src/Buyer/Orders.antt =====
-- The orders of `process_signal` and `_execute_buy` in prime_jennie/services/buyer/executor.py.
use prime_jennie.Prelude.{ℕ, ◌≡◌, refl, Bool, true, false, ◌||◌, Option, List, String, arith}
use prime_jennie.Prelude.Int.{ℤ}
use prime_jennie.Float.{Float}
use prime_jennie.Services.Calls.{Key, Call, Position, History, Env}
use prime_jennie.Services.Action.{pure, ask}
use prime_jennie.Services.Keeps.{
  Leads, Keeps, Keeps-pure, Keeps-attempt, Keeps-bind, Leads-finally, Leads-bind, Leads-weaken,
}
use prime_jennie.Services.Trace.{is_inert}
use prime_jennie.Buyer.Types.{BuySignal, BuyerConfig}
use prime_jennie.Buyer.Steps.{acquire_lock, release_lock}
use prime_jennie.Buyer.Execute.{is_blocked, execute_buy, if_locked, process_signal}
use prime_jennie.Prelude.{◌+◌, ◌≤◌}
use prime_jennie.Services.Counts.{
  count, AtMost, AtMost-Keeps, AtMost-Leads, AllCalls, AllCalls-Keeps,
}
use prime_jennie.Buyer.Signals.{IsSoundBuy, execute_buy-Leads}
use prime_jennie.Buyer.Gates.{process_signal-Leads}

abbrev pub is_buy : Call → ℕ
is_buy (Call.kis_buy r) = 1
is_buy _ = 0

inert-is_buy : (c : Call) → is_inert c ≡ true → is_buy c ≡ 0
inert-is_buy (Call.kis_buy order) e = cc
inert-is_buy _ e = refl

-- a sound buy order for the stock, or a call that is no order
abbrev pub IsSoundCall : String → Call → Type 0
IsSoundCall code (Call.kis_buy r) = IsSoundBuy code r
IsSoundCall code (Call.kis_sell r) = ⊥
IsSoundCall code _ = Unit

inert-IsSoundCall : (code : String) (c : Call) → is_inert c ≡ true → IsSoundCall code c
inert-IsSoundCall code (Call.redis_set_nx k ttl) e = cc
inert-IsSoundCall code (Call.redis_delete k) e = cc
inert-IsSoundCall code (Call.kis_sell order) e = cc
inert-IsSoundCall code (Call.kis_buy order) e = cc
inert-IsSoundCall code _ e = tt

module _ {F : Type 0} ⦃num : Float F⦄ (env : Env F) (corr : List ℤ → List ℤ → Option F)
    (cfg : BuyerConfig F) (signal : BuySignal F) where
  abbrev Sound : History → Type 0
  Sound = AllCalls (IsSoundCall signal.stock_code)

  sound : (c : Call) → IsSoundCall signal.stock_code c → Keeps Sound (ask env c)
  sound = AllCalls-Keeps (IsSoundCall signal.stock_code) env

  inert : (c : Call) → is_inert c ≡ true → Keeps Sound (ask env c)
  inert c e = sound c (inert-IsSoundCall signal.stock_code c e)

  lock-Sound : Keeps Sound (acquire_lock env signal.stock_code)
  unfolding acquire_lock
  lock-Sound =
      let c = Call.redis_set_nx (Key.lock_buy signal.stock_code) 180 in
      Keeps-attempt (ask env c) (pure false) (sound c tt) (Keeps-pure false)

  unlock-Sound : Keeps Sound (release_lock env signal.stock_code)
  unfolding release_lock
  unlock-Sound =
      let c = Call.redis_delete (Key.lock_buy signal.stock_code) in
      Keeps-attempt (ask env c) (pure tt) (sound c tt) (Keeps-pure tt)

  locked-Sound : (ps : List Position) (b : Bool) → Keeps Sound (if_locked env corr cfg signal ps b)
  unfolding if_locked
  locked-Sound ps true =
      Leads-finally (execute_buy env corr cfg signal ps) (release_lock env signal.stock_code)
        (execute_buy-Leads env {P = Sound} {Q = Sound} inert inert (λ h p. p) corr cfg signal
          (λ r s. sound (Call.kis_buy r) s) ps)
        unlock-Sound
  locked-Sound ps false = Keeps-pure _

  process_signal-Keeps : Keeps Sound (process_signal env corr cfg signal)
  process_signal-Keeps =
      process_signal-Leads env inert (λ h p. p) corr cfg signal
        (λ ps _ _ _ _.
          Keeps-bind (acquire_lock env signal.stock_code) _ lock-Sound (locked-Sound ps))

  -- If all orders so far are sound, then so are those that a buy signal adds: orders to buy the stock of
  -- the signal, of 1 to 10000 shares, at the market or at a price that is a tick of its bracket.
  pub buy_signal-AllCalls :
      (h : History)
      → AllCalls (IsSoundCall signal.stock_code) h
      → AllCalls (IsSoundCall signal.stock_code) (process_signal env corr cfg signal h).1
  buy_signal-AllCalls h p = process_signal-Keeps.at h p

  module _ (n : ℕ) where
    inert_count : (m : ℕ) (c : Call) → is_inert c ≡ true → Keeps (AtMost is_buy m) (ask env c)
    inert_count m c e = AtMost-Keeps is_buy env m c (inert-is_buy c e)

    lock-count : Keeps (AtMost is_buy n) (acquire_lock env signal.stock_code)
    unfolding acquire_lock
    lock-count =
        let c = Call.redis_set_nx (Key.lock_buy signal.stock_code) 180 in
        Keeps-attempt (ask env c) (pure false) (AtMost-Keeps is_buy env n c refl) (Keeps-pure false)

    unlock-count : Keeps (AtMost is_buy (1 + n)) (release_lock env signal.stock_code)
    unfolding release_lock
    unlock-count =
        let c = Call.redis_delete (Key.lock_buy signal.stock_code) in
        Keeps-attempt (ask env c) (pure tt) (AtMost-Keeps is_buy env (1 + n) c refl) (Keeps-pure tt)

    locked-count :
        (ps : List Position) (b : Bool)
        → Leads (AtMost is_buy n) (AtMost is_buy (1 + n)) (if_locked env corr cfg signal ps b)
    unfolding if_locked
    locked-count ps true =
        Leads-finally (execute_buy env corr cfg signal ps) (release_lock env signal.stock_code)
          (execute_buy-Leads env {P = AtMost is_buy n} {Q = AtMost is_buy (1 + n)} (inert_count n)
            (inert_count (1 + n)) (λ h p. omega arith) corr cfg signal
            (λ r s. AtMost-Leads is_buy env n (Call.kis_buy r) refl) ps)
          unlock-count
    locked-count ps false = Leads-weaken _ (Keeps-pure _) (λ h p. omega arith)

    process_signal-count :
        Leads (AtMost is_buy n) (AtMost is_buy (1 + n)) (process_signal env corr cfg signal)
    process_signal-count =
        process_signal-Leads env (inert_count n) (λ h p. omega arith) corr cfg signal
          (λ ps _ _ _ _.
            Leads-bind (acquire_lock env signal.stock_code) _ lock-count (locked-count ps)
              (λ h p. omega arith))

    refused :
        (is_blocked signal.trade_tier || num.lt signal.hybrid_score cfg.hard_floor_score) ≡ true
        → Keeps (AtMost is_buy n) (process_signal env corr cfg signal)
    refused e =
        process_signal-Leads env (inert_count n) (λ h p. p) corr cfg signal
          (λ ps unblocked above _ _. ground arith)

  -- A buy signal places at most one order, whatever the broker and the store answer and however the
  -- handling ends.
  pub buy_signal_once :
      (h : History) → count is_buy (process_signal env corr cfg signal h).1 ≤ 1 + count is_buy h
  buy_signal_once h = (process_signal-count (count is_buy h)).at h (omega arith)

  -- A signal of the blocked tier, or with a score below the hard floor, places no order.
  pub buy_signal_refused :
      (is_blocked signal.trade_tier || num.lt signal.hybrid_score cfg.hard_floor_score) ≡ true
      → (h : History) → count is_buy (process_signal env corr cfg signal h).1 ≤ count is_buy h
  buy_signal_refused e h = (refused (count is_buy h) e).at h (omega arith)
