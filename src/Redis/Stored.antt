-- ===== src/Redis/Stored.antt =====
-- What the caches of prime_jennie/infra/redis/cache.py give back.
use text.Mathlib.Text.{◌==◌}
use prime_jennie.Prelude.{
  ◌≡◌, refl, ap, ◌∙◌, Option, none, some, List, [], ◌∷◌, String, if◌then◌else◌, Bool-cases, inl,
  inr,
}
use prime_jennie.Prelude.Maybe.{◌>>=◌}
use prime_jennie.Config.Sell.{Text}
use prime_jennie.Redis.Streams.{Model}
use prime_jennie.Redis.Cache.{Hash, hset, hget, write_all, set_all}

module _ {T : Type 0} (model : Model T) where
  -- the value of a field after the fields are assigned one after another
  unfoldable pub last_value : String → List (String × T) → Option T → Option T
  last_value f [] before = before
  last_value f ((field, value) ∷ values) before =
      last_value f values (if f == field then some value else before)

  -- the hash holds the text of a value, or nothing
  abbrev IsText : Option Text → Option T → Type 0
  IsText none none = Unit
  IsText (some text) (some value) = text ≡ model.dump value
  IsText _ _ = ⊥

  write_all-IsText :
      (f : String) (values : List (String × T)) (hash : Hash) (o : Option T)
      → IsText (hash f) o
      → IsText (write_all model values hash f) (last_value f values o)
  unfolding write_all last_value hset
  write_all-IsText f [] hash o h = h
  write_all-IsText f ((field, value) ∷ values) hash o h =
      write_all-IsText f values (hset model field value hash) (if f == field then some value else o)
        (elim (Bool-cases (f == field)) [ inl e ↦ rw e refl | inr e ↦ rw e h ])

  read_text :
      (t : Option Text) (o : Option T)
      → ((value : T) → model.validate (model.dump value) ≡ some value)
      → IsText t o
      → (do raw ← t; model.validate raw) ≡ o
  read_text none none faithful h = refl
  read_text (some text) (some value) faithful h = ap model.validate h ∙ faithful value
  read_text none (some value) faithful h = absurd h
  read_text (some text) none faithful h = absurd h

  -- Where the model reads what it wrote, a hash that was replaced gives for every field the last value
  -- assigned to it, and nothing for a field that is not assigned, whatever was in the hash before.
  pub hget-set_all :
      (f : String) (values : List (String × T)) (hash : Hash)
      → ((value : T) → model.validate (model.dump value) ≡ some value)
      → hget model f (set_all model values hash) ≡ last_value f values none
  unfolding hget set_all
  hget-set_all f values hash faithful =
      read_text (write_all model values (λ g. none) f) (last_value f values none) faithful
        (write_all-IsText f values (λ g. none) none tt)
