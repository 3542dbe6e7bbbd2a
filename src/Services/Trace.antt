-- ===== src/Services/Trace.antt =====
-- Facts about the calls of a history that the executors keep.
use text.Mathlib.Text.{◌==◌}
use prime_jennie.Prelude.{◌≡◌, Bool, true, false, ◌&&◌, ◌||◌, [], ◌∷◌, String, if◌then◌else◌}
use prime_jennie.Services.Calls.{Key, Call, OrderRequest, History, Env}
use prime_jennie.Services.Action.{ask}
use prime_jennie.Services.Keeps.{Keeps, Keeps-ask}

abbrev pub is_sell_lock : Key → String → Bool
is_sell_lock (Key.lock_sell c) code = c == code
is_sell_lock _ code = false

abbrev pub is_buy_lock : Key → String → Bool
is_buy_lock (Key.lock_buy c) code = c == code
is_buy_lock _ code = false

module _ (is_lock : Key → String → Bool) (code : String) where
  abbrev pub after_event : Call → Bool → Bool → Bool
  after_event (Call.redis_set_nx k ttl) well held = (is_lock k code && well) || held
  after_event (Call.redis_delete k) well held = if is_lock k code then false else held
  after_event _ well held = held

  -- Whether the lock on the code was granted, and its release not yet asked for.
  abbrev pub held : History → Bool
  held [] = false
  held (e ∷ h) = after_event e.call e.well (held h)

  -- Orders are placed only while the lock is held.
  abbrev pub WhileHeld : Call → Bool → Type 0
  WhileHeld (Call.kis_sell order) b = b ≡ true
  WhileHeld (Call.kis_buy order) b = b ≡ true
  WhileHeld _ b = Unit

  abbrev pub IsOrderly : History → Type 0
  IsOrderly [] = Unit
  IsOrderly (e ∷ h) = WhileHeld e.call (held h) × IsOrderly h

-- calls that take or release no lock and place no order
abbrev pub is_inert : Call → Bool
is_inert (Call.redis_set_nx k ttl) = false
is_inert (Call.redis_delete k) = false
is_inert (Call.kis_sell order) = false
is_inert (Call.kis_buy order) = false
is_inert _ = true

module _ (is_lock : Key → String → Bool) (code : String) where
  abbrev pub Before : History → Type 0
  Before h = IsOrderly is_lock code h × (held is_lock code h ≡ false)

  abbrev pub During : History → Type 0
  During h = IsOrderly is_lock code h × (held is_lock code h ≡ true)

  inert-During :
      (c : Call)
      → is_inert c ≡ true
      → (h : History) (b : Bool) → During h
      → During (record { call = c; well = b } ∷ h)
  inert-During (Call.redis_set_nx k ttl) e h b p = cc
  inert-During (Call.redis_delete k) e h b p = cc
  inert-During (Call.kis_sell order) e h b p = cc
  inert-During (Call.kis_buy order) e h b p = cc
  inert-During _ e h b p = ((tt, p.0), p.1)

  inert-Before :
      (c : Call)
      → is_inert c ≡ true
      → (h : History) (b : Bool) → Before h
      → Before (record { call = c; well = b } ∷ h)
  inert-Before (Call.redis_set_nx k ttl) e h b p = cc
  inert-Before (Call.redis_delete k) e h b p = cc
  inert-Before (Call.kis_sell order) e h b p = cc
  inert-Before (Call.kis_buy order) e h b p = cc
  inert-Before _ e h b p = ((tt, p.0), p.1)

  module _ {F : Type 0} (env : Env F) where
    pub During-inert : (c : Call) → is_inert c ≡ true → Keeps During (ask env c)
    During-inert c e = Keeps-ask env c (inert-During c e)

    pub Before-inert : (c : Call) → is_inert c ≡ true → Keeps Before (ask env c)
    Before-inert c e = Keeps-ask env c (inert-Before c e)

    pub During-sell : (order : OrderRequest) → Keeps During (ask env (Call.kis_sell order))
    During-sell order =
        Keeps-ask env {P = During} (Call.kis_sell order) (λ h b p. ((p.1, p.0), p.1))

    pub During-buy : (order : OrderRequest) → Keeps During (ask env (Call.kis_buy order))
    During-buy order = Keeps-ask env {P = During} (Call.kis_buy order) (λ h b p. ((p.1, p.0), p.1))
