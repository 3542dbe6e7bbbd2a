-- ===== src/Services/Counts.antt =====
-- How often a kind of call was made, and what all calls of a history have in common.
use prime_jennie.Prelude.{ℕ, ◌+◌, ◌≤◌, ◌≡◌, [], ◌∷◌, arith}
use prime_jennie.Services.Calls.{Call, History, Env}
use prime_jennie.Services.Action.{ask}
use prime_jennie.Services.Keeps.{Leads, Keeps, Keeps-ask, Leads-ask}

module _ (weight : Call → ℕ) where
  abbrev pub count : History → ℕ
  count [] = 0
  count (e ∷ h) = weight e.call + count h

  abbrev pub AtMost : ℕ → History → Type 0
  AtMost n h = count h ≤ n

  module _ {F : Type 0} (env : Env F) where
    pub AtMost-Keeps : (n : ℕ) (c : Call) → weight c ≡ 0 → Keeps (AtMost n) (ask env c)
    AtMost-Keeps n c e = Keeps-ask env c (λ h b p. omega (arith, e))

    pub AtMost-Leads :
        (n : ℕ) (c : Call) → weight c ≡ 1 → Leads (AtMost n) (AtMost (1 + n)) (ask env c)
    AtMost-Leads n c e = Leads-ask env c (λ h b p. omega (arith, e))

module _ (Good : Call → Type 0) where
  abbrev pub AllCalls : History → Type 0
  AllCalls [] = Unit
  AllCalls (e ∷ h) = Good e.call × AllCalls h

  pub AllCalls-Keeps : {F : Type 0} (env : Env F) (c : Call) → Good c → Keeps AllCalls (ask env c)
  AllCalls-Keeps env c g = Keeps-ask env c (λ h b p. (g, p))
