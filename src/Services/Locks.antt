-- ===== src/Services/Locks.antt =====
-- A lock with an owner, as the executors take and release it.
use prime_jennie.Prelude.{
  ℕ, ap, ◌∙◌, ◌≡◌, Bool, true, false, ◌&&◌, ◌||◌, Option, none, some, ◌∷◌, String, if◌then◌else◌,
}
use prime_jennie.Services.Calls.{Key, Call, went_well, History, Env}
use prime_jennie.Services.Action.{Action, handled, continue, of_option, pure, attempt, ask, ◌>>=◌}
use prime_jennie.Services.Keeps.{Leads, Keeps, Keeps-pure, Leads-attempt, Leads-ask}
use prime_jennie.Services.Trace.{Before, During, held}

module _ {F : Type 0} (env : Env F) (is_lock : Key → String → Bool) (code : String) (key : Key)
    (own : is_lock key code ≡ true) (ttl : ℕ) where
  abbrev pub setting : Call
  setting = Call.redis_set_nx key ttl

  abbrev pub releasing : Call
  releasing = Call.redis_delete key

  abbrev Free : History → Type 0
  Free = Before is_lock code

  abbrev Held : History → Type 0
  Held = During is_lock code

  -- the lock as the answer says
  abbrev pub At : Bool → History → Type 0
  At true = Held
  At false = Free

  released : (h : History) (b : Bool) → Held h → Free (record { call = releasing; well = b } ∷ h)
  released h b p = ((tt, p.0), ap (λ e. if e then false else held is_lock code h) own)

  pub release-Leads : Leads Held Free (attempt (ask env releasing) (pure tt))
  release-Leads =
      Leads-attempt (ask env releasing) (pure tt)
        (Leads-ask env {P = Held} {Q = Free} releasing released) (Keeps-pure tt)

  -- the history after the answer on the lock
  abbrev answered : Option Bool → History → History
  answered a h = record { call = setting; well = went_well F setting a } ∷ h

  lock_state :
      (h : History) (b : Bool)
      → ((is_lock key code && b) || held is_lock code h) ≡ (b || held is_lock code h)
  lock_state h b = ap (λ e. (e && b) || held is_lock code h) own

  module _ {B : Type 0} (f : Bool → Action B) (k : (b : Bool) → Leads (At b) Free (f b)) where
    after :
        (h : History) (a : Option Bool)
        → Free h
        → Free
            (let (r, h') = handled (of_option a) (pure false) (answered a h) in continue r f h').1
    unfolding pure
    after h none p = (k false).at (answered none h) ((tt, p.0), lock_state h false ∙ p.1)
    after h (some false) p =
        (k false).at (answered (some false) h) ((tt, p.0), lock_state h false ∙ p.1)
    after h (some true) p = (k true).at (answered (some true) h) ((tt, p.0), lock_state h true)

    -- what follows an attempt at the lock starts with the lock or without it
    pub acquire-Leads : Keeps Free (attempt (ask env setting) (pure false) >>= f)
    unfolding attempt pure ask ◌>>=◌
    acquire-Leads = record { at = λ h p. after h (env.respond h setting) p }
