-- ===== src/Services/Gives.antt =====
-- What holds of the result and the history where a method returns, one rule for each way to build it.
use prime_jennie.Prelude.{ap, ◌≡◌, refl, Bool, true, false, if◌then◌else◌}
use mathlib.Core.Path.{subst}
use prime_jennie.Services.Calls.{History}
use prime_jennie.Services.Action.{Result, ok, raised, ended, continue, Action, pure, finally, ◌>>=◌}
use prime_jennie.Services.Keeps.{Leads, Keeps}

module _ {A : Type 0} where
  abbrev pub Holds : (A → History → Type 0) → Result A × History → Type 0
  Holds Q (ok a, h) = Q a h
  Holds Q (raised, h) = Unit

  abbrev value : A → Result A → A
  value d (ok a) = a
  value d raised = d

  pub Holds-ok :
      (Q : A → History → Type 0) (p : Result A × History) (a : A) → Holds Q p → p.0 ≡ ok a → Q a p.1
  Holds-ok Q (ok b, h) a q e = subst (λ x. Q x h) (ap (value a) e) q
  Holds-ok Q (raised, h) a q e = cc

  pub record Gives (P : History → Type 0) (Q : A → History → Type 0) (m : Action A) : Type 0 where
    pub at : (h : History) → P h → Holds Q (m h)

abbrev pub Any : History → Type 0
Any h = Unit

module _ {A : Type 0} {P : History → Type 0} {Q : A → History → Type 0} where
  pub Gives-pure : (a : A) → ((h : History) → P h → Q a h) → Gives P Q (pure a)
  unfolding pure
  Gives-pure a q = record { at = q }

  pub Gives-if :
      (test : Bool) (yes no : Action A) (on_yes : test ≡ true → Gives P Q yes)
      (on_no : test ≡ false → Gives P Q no)
      → Gives P Q (if test then yes else no)
  Gives-if true _ _ on_yes _ = on_yes refl
  Gives-if false _ _ _ on_no = on_no refl

  pub Gives-finally :
      (m : Action A) (n : Action (Unit {0}))
      → Gives P Q m
      → ((a : A) → Keeps (Q a) n)
      → Gives P Q (finally m n)
  unfolding finally
  Gives-finally m n km kn = record { at = λ h p. after (m h) (km.at h p) }
    where
      cleaned : (a : A) (p : Result (Unit {0}) × History) → Q a p.1 → Holds Q (ended (ok a) p)
      cleaned a (ok _, h) q = q
      cleaned a (raised, h) q = tt

      raises : (p : Result (Unit {0}) × History) → Holds Q (ended {A = A} raised p)
      raises (ok _, h) = tt
      raises (raised, h) = tt

      after : (r : Result A × History) → Holds Q r → Holds Q (ended r.0 (n r.1))
      after (ok a, h') q = cleaned a (n h') ((kn a).at h' q)
      after (raised, h') q = raises (n h')

pub Gives-Any : {A : Type 0} {P : History → Type 0} (m : Action A) → Gives P (λ _. Any) m
Gives-Any {A} m = record { at = λ h p. trivial (m h) }
  where
    trivial : (r : Result A × History) → Holds (λ _. Any) r
    trivial (ok a, h) = tt
    trivial (raised, h) = tt

pub Gives-Leads :
    {A : Type 0} {P Q : History → Type 0} (m : Action A) → Leads P Q m → Gives P (λ _. Q) m
Gives-Leads {A} {P} {Q} m k = record { at = λ h p. returned (m h) (k.at h p) }
  where
    returned : (r : Result A × History) → Q r.1 → Holds (λ _. Q) r
    returned (ok a, h) q = q
    returned (raised, h) q = tt

module _ {A B : Type 0} {P : History → Type 0} {Q : B → History → Type 0} where
  pub Gives-after :
      {R : A → History → Type 0} (m : Action A) (f : A → Action B)
      → Gives P R m
      → ((a : A) → Gives (R a) Q (f a))
      → Gives P Q (m >>= f)
  unfolding ◌>>=◌
  Gives-after {R} m f km kf = record { at = λ h p. after (m h) (km.at h p) }
    where
      after : (r : Result A × History) → Holds R r → Holds Q (continue r.0 f r.1)
      after (ok a, h') p = (kf a).at h' p
      after (raised, h') p = tt

-- the rest alone
pub Gives-bind :
    {A B : Type 0} {P : History → Type 0} {Q : B → History → Type 0} (m : Action A)
    (f : A → Action B)
    → ((a : A) → Gives Any Q (f a))
    → Gives P Q (m >>= f)
Gives-bind m f kf = Gives-after m f (Gives-Any m) kf
