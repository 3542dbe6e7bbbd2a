-- ===== src/Services/Action.antt =====
-- Methods that call the environment and may raise.
use prime_jennie.Prelude.{Option, none, some, ◌∷◌}
use prime_jennie.Services.Calls.{Call, Answer, went_well, History, Env}

pub data Result (A : Type 0) : Type 0 where
  ok : A → Result A
  raised : Result A

abbrev pub Action : Type 0 → Type 0
Action A = History → Result A × History

abbrev pub of_option : {A : Type 0} → Option A → Result A
of_option none = raised
of_option (some a) = ok a

module _ {A : Type 0} where
  unfoldable pub pure : A → Action A
  pure a h = (ok a, h)

  abbrev pub handled : Result A → Action A → Action A
  handled (ok a) handler h = (ok a, h)
  handled raised handler h = handler h

  -- `try: m except Exception: handler`
  unfoldable pub attempt : Action A → Action A → Action A
  attempt m handler h = let (r, h') = m h in handled r handler h'

  abbrev pub ended : Result A → Result (Unit {0}) × History → Result A × History
  ended r (ok _, h) = (r, h)
  ended r (raised, h) = (raised, h)

  -- `try: m finally: cleanup`
  unfoldable pub finally : Action A → Action (Unit {0}) → Action A
  finally m cleanup h = let (r, h') = m h in ended r (cleanup h')

unfoldable pub ask : {F : Type 0} → Env F → (c : Call) → Action (Answer F c)
ask {F} env c h =
    let answer = env.respond h c in
    (of_option answer, record { call = c; well = went_well F c answer } ∷ h)

module _ {A B : Type 0} where
  abbrev pub continue : Result A → (A → Action B) → Action B
  continue (ok a) f h = f a h
  continue raised f h = (raised, h)

  infixl 10 ◌>>=◌ ◌>>◌
  unfoldable pub ◌>>=◌ : Action A → (A → Action B) → Action B
  ◌>>=◌ m f h = let (r, h') = m h in continue r f h'

  abbrev pub ◌>>◌ : Action A → Action B → Action B
  m >> n = m >>= λ _. n
