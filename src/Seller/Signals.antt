-- ===== src/Seller/Signals.antt =====
-- The calls of `process_signal` in prime_jennie/services/seller/executor.py.
use prime_jennie.Prelude.{◌≡◌, refl, Bool, true, false, not, Option, none, some, [], if◌then◌else◌}
use prime_jennie.Float.{Float}
use prime_jennie.Services.Calls.{Call, Position, History, Env}
use prime_jennie.Services.Action.{pure, ask, ◌>>=◌}
use prime_jennie.Services.Keeps.{
  Leads, Keeps, Keeps-pure, Keeps-if, Keeps-attempt, Keeps-bind, Leads-bind, Leads-if, Leads-weaken,
}
use prime_jennie.Services.Trace.{is_inert}
use prime_jennie.Seller.Types.{SellOrder, SellerConfig, find_held, is_manual}
use prime_jennie.Seller.Steps.{is_market_hours, get_positions, is_emergency_stopped, acquire_lock}
use prime_jennie.Seller.Execute.{if_locked, with_position, if_not_stopped, if_open, process_signal}

ruleset keeping = (Keeps-pure, Keeps-if, Keeps-attempt, Keeps-bind)

-- A signal makes inert calls only until the lock is tried.
module _ {F : Type 0} ⦃num : Float F⦄ (env : Env F) {P Q : History → Type 0}
    (before : (c : Call) → is_inert c ≡ true → Keeps P (ask env c))
    (weaken : (h : History) → P h → Q h) (cfg : SellerConfig) (order : SellOrder)
    (locked : (position : Position)
      → Leads P Q (acquire_lock env order.stock_code >>= if_locked env cfg order position)) where
  with_position-Leads : (p : Option Position) → Leads P Q (with_position env cfg order p)
  unfolding with_position
  with_position-Leads none = Leads-weaken _ (Keeps-pure _) weaken
  with_position-Leads (some p) = locked p

  is_emergency_stopped-Keeps : Keeps P (is_emergency_stopped env)
  unfolding is_emergency_stopped
  is_emergency_stopped-Keeps = search (keeping, before)

  get_positions-Keeps : Keeps P (get_positions env)
  unfolding get_positions
  get_positions-Keeps =
      Keeps-attempt (ask env Call.kis_positions) (pure []) (before Call.kis_positions refl)
        (Keeps-pure _)

  is_market_hours-Keeps : Keeps P (is_market_hours env)
  unfolding is_market_hours
  is_market_hours-Keeps = search (keeping, before)

  if_not_stopped-Leads : (b : Bool) → Leads P Q (if_not_stopped env cfg order b)
  unfolding if_not_stopped
  if_not_stopped-Leads b =
      Leads-if b _ _ (λ _. Leads-weaken _ (Keeps-pure _) weaken)
        (λ _.
          Leads-bind (get_positions env) _ get_positions-Keeps
            (λ ps. with_position-Leads (find_held order.stock_code ps)) weaken)

  stop_asked-Keeps :
      Keeps P (if is_manual order.sell_reason then pure false else is_emergency_stopped env)
  stop_asked-Keeps = search (keeping, is_emergency_stopped-Keeps)

  clock_asked-Keeps :
      Keeps P (if is_manual order.sell_reason then pure true else is_market_hours env)
  clock_asked-Keeps = search (keeping, is_market_hours-Keeps)

  if_open-Leads : (b : Bool) → Leads P Q (if_open env cfg order b)
  unfolding if_open
  if_open-Leads b =
      Leads-if (not b) _ _ (λ _. Leads-weaken _ (Keeps-pure _) weaken)
        (λ _. Leads-bind _ _ stop_asked-Keeps if_not_stopped-Leads weaken)

  pub process_signal-Leads : Leads P Q (process_signal env cfg order)
  unfolding process_signal
  process_signal-Leads = Leads-bind _ _ clock_asked-Keeps if_open-Leads weaken
