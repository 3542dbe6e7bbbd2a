-- ===== src/Redis/Cache.antt =====
-- prime_jennie/infra/redis/cache.py, on a store of Redis that answers. A value has its time to live, which the
-- model does not count down, and `none` is the exception of Redis for a negative one. Hashes are
-- modelled without theirs, which would have to be positive.
use text.Mathlib.Text.{◌==◌}
use prime_jennie.Prelude.{
  Bool, true, false, Option, none, some, List, [], ◌∷◌, String, if◌then◌else◌,
}
use prime_jennie.Prelude.Maybe.{◌>>=◌}
use prime_jennie.Prelude.Int.{ℤ, pos, ltb_ℤ, eqb_ℤ}
use prime_jennie.Config.Sell.{Text}
use prime_jennie.Redis.Streams.{Model}

-- a text with its time to live, if it has one
pub record Stored : Type 0 where
  pub text : Text
  pub ttl : Option ℤ

abbrev pub Store : Type 0
Store = String → Option Stored

-- the fields of a hash
abbrev pub Hash : Type 0
Hash = String → Option Text

-- `if self._ttl`
abbrev pub ttl_of : Option ℤ → Option ℤ
ttl_of none = none
ttl_of (some t) = if eqb_ℤ t (pos 0) then none else some t

abbrev pub is_negative : Option ℤ → Bool
is_negative none = false
is_negative (some t) = ltb_ℤ t (pos 0)

abbrev pub is_some : {A : Type 0} → Option A → Bool
is_some none = false
is_some (some a) = true

module _ {T : Type 0} (model : Model T) where
  module _ (key : String) (ttl : Option ℤ) where
    unfoldable pub parsed : Option Stored → Option T
    parsed none = none
    parsed (some raw) = model.validate raw.text

    unfoldable pub get : Store → Option T
    unfolding parsed
    get store = parsed (store key)

    unfoldable pub set : T → Store → Option Store
    set value store =
        let stored : Stored = record { text = model.dump value; ttl = ttl_of ttl } in
        if is_negative ttl then none else some (λ k. if k == key then some stored else store k)

    unfoldable pub delete : Store → Store
    delete store k = if k == key then none else store k

    unfoldable pub exists : Store → Bool
    exists store = is_some (store key)

  unfoldable pub hset : String → T → Hash → Hash
  hset field value hash f = if f == field then some (model.dump value) else hash f

  unfoldable pub hget : String → Hash → Option T
  hget field hash = do raw ← hash field; model.validate raw

  -- the texts of a hash, a field that is not valid being left out
  unfoldable pub hgetall : List (String × Text) → List (String × T)
  hgetall [] = []
  hgetall ((field, text) ∷ raw) = kept field (model.validate text) (hgetall raw)
    where
      kept : String → Option T → List (String × T) → List (String × T)
      kept field none rest = rest
      kept field (some value) rest = (field, value) ∷ rest

  -- the loop that writes the values into a hash
  unfoldable pub write_all : List (String × T) → Hash → Hash
  unfolding hset
  write_all [] hash = hash
  write_all ((field, value) ∷ values) hash = write_all values (hset field value hash)

  -- the hash is deleted first
  unfoldable pub set_all : List (String × T) → Hash → Hash
  unfolding write_all
  set_all values hash = write_all values (λ f. none)
