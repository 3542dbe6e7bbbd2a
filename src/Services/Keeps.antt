-- ===== src/Services/Keeps.antt =====
-- Invariants of the history, one rule for each way to build a method.
use prime_jennie.Prelude.{◌≡◌, refl, Bool, true, false, ◌∷◌, if◌then◌else◌}
use prime_jennie.Services.Calls.{Call, went_well, History, Env}
use prime_jennie.Services.Action.{
  Result, ok, raised, handled, ended, continue, Action, pure, attempt, finally, ask, ◌>>=◌,
}

-- `m` leads from `P` to `Q`, whether it returns or raises.
pub record Leads {A : Type 0} (P Q : History → Type 0) (m : Action A) : Type 0 where
  pub at : (h : History) → P h → Q (m h).1

abbrev pub Keeps : {A : Type 0} → (History → Type 0) → Action A → Type 0
Keeps P m = Leads P P m

module _ {A : Type 0} {P : History → Type 0} where
  pub Keeps-pure : (a : A) → Keeps P (pure a)
  unfolding pure
  Keeps-pure a = record { at = λ h p. p }

module _ {A : Type 0} {P Q : History → Type 0} where
  pub Leads-attempt : (m n : Action A) → Leads P Q m → Keeps Q n → Leads P Q (attempt m n)
  unfolding attempt
  Leads-attempt m n km kn = record { at = λ h p. let (r, h') = m h in after r h' (km.at h p) }
    where
      after : (r : Result A) (h' : History) → Q h' → Q (handled r n h').1
      after (ok a) h' p = p
      after raised h' p = kn.at h' p

pub Keeps-attempt :
    {A : Type 0} {P : History → Type 0} (m n : Action A)
    → Keeps P m
    → Keeps P n
    → Keeps P (attempt m n)
Keeps-attempt m n km kn = Leads-attempt m n km kn

module _ {A : Type 0} {P Q R : History → Type 0} where
  pub Leads-finally :
      (m : Action A) (n : Action (Unit {0})) → Leads P Q m → Leads Q R n → Leads P R (finally m n)
  unfolding finally
  Leads-finally m n km kn = record {
    at = λ h p. let (r, h') = m h in after r (n h') (kn.at h' (km.at h p));
  }
    where
      after : (r : Result A) (p : Result (Unit {0}) × History) → R p.1 → R (ended r p).1
      after r (ok _, h) q = q
      after r (raised, h) q = q

module _ {F : Type 0} (env : Env F) where
  pub Leads-ask :
      {P Q : History → Type 0} (c : Call)
      → ((h : History) (b : Bool) → P h → Q (record { call = c; well = b } ∷ h))
      → Leads P Q (ask env c)
  unfolding ask
  Leads-ask c step = record { at = λ h p. step h (went_well F c (env.respond h c)) p }

  pub Keeps-ask :
      {P : History → Type 0} (c : Call)
      → ((h : History) (b : Bool) → P h → P (record { call = c; well = b } ∷ h))
      → Keeps P (ask env c)
  Keeps-ask c step = Leads-ask c step

module _ {A : Type 0} {P Q : History → Type 0} where
  pub Leads-weaken : (m : Action A) → Keeps P m → ((h : History) → P h → Q h) → Leads P Q m
  Leads-weaken m km w = record { at = λ h p. w (m h).1 (km.at h p) }

  pub Leads-if :
      (test : Bool) (yes no : Action A) (on_yes : test ≡ true → Leads P Q yes)
      (on_no : test ≡ false → Leads P Q no)
      → Leads P Q (if test then yes else no)
  Leads-if true _ _ on_yes _ = on_yes refl
  Leads-if false _ _ _ on_no = on_no refl

pub Keeps-if :
    {A : Type 0} {P : History → Type 0} (test : Bool) (yes no : Action A)
    (on_yes : test ≡ true → Keeps P yes) (on_no : test ≡ false → Keeps P no)
    → Keeps P (if test then yes else no)
Keeps-if = Leads-if

module _ {A B : Type 0} {P Q R : History → Type 0} where
  -- where `m` raises, what it leads to has to be enough
  pub Leads-bind :
      (m : Action A) (f : A → Action B)
      → Leads P Q m
      → ((a : A) → Leads Q R (f a))
      → ((h : History) → Q h → R h)
      → Leads P R (m >>= f)
  unfolding ◌>>=◌
  Leads-bind m f km kf w = record { at = λ h p. let (r, h') = m h in after r h' (km.at h p) }
    where
      after : (r : Result A) (h' : History) → Q h' → R (continue r f h').1
      after (ok a) h' p = (kf a).at h' p
      after raised h' p = w h' p

pub Keeps-bind :
    {A B : Type 0} {P : History → Type 0} (m : Action A) (f : A → Action B)
    → Keeps P m
    → ((a : A) → Keeps P (f a))
    → Keeps P (m >>= f)
Keeps-bind m f km kf = Leads-bind m f km kf (λ h p. p)
