-- ===== src/Hours/Remembered.antt =====
-- How prime_jennie/infra/market_hours.py remembers the days that it answered for.
use text.Mathlib.Text.{◌==◌}
use text.Mathlib.TextPositions.{eq_refl}
use text.Mathlib.TextEquality.{eq_iff}
use prime_jennie.Prelude.{
  ℕ, ◌≡◌, refl, ap, Bool, true, false, Option, none, some, List, [], ◌∷◌, String, leb, arith,
  Bool-cases, inl, inr,
}
use prime_jennie.Hours.{Cache, Checker, remember, checked, ask_checker, after_cache, is_trading_day}

-- a call: what the checker would answer then, the day of the week and the day
pub record Ask : Type 0 where
  pub checker : Checker
  pub weekday : ℕ
  pub key : String

-- the cache after calls one after another
unfoldable pub ask_all : List Ask → Cache → Cache
ask_all [] cache = cache
ask_all (a ∷ later) cache = ask_all later (is_trading_day a.checker a.weekday a.key cache).1

remember_key : (key : String) (b : Bool) (cache : Cache) → remember key b cache key ≡ some b
unfolding remember
remember_key key b cache = rw (eq_refl key) refl

module _ (key : String) (b : Bool) where
  -- A day that is not in the cache is another one.
  remember_keeps :
      (k : String) (result : Bool) (cache : Cache)
      → cache k ≡ none
      → cache key ≡ some b
      → remember k result cache key ≡ some b
  unfolding remember
  remember_keeps k result cache missing h = elim (Bool-cases (key == k)) [
    | inl e ↦ absurd (ground (arith, missing, h, ap cache ((eq_iff key k).0 e)))
    | inr e ↦ rw e h
  ]

  checked_keeps :
      (k : String) (answer : Option Bool) (cache : Cache)
      → cache k ≡ none
      → cache key ≡ some b
      → (checked k answer cache).1 key ≡ some b
  unfolding checked
  checked_keeps k none cache missing h = h
  checked_keeps k (some result) cache missing h = remember_keeps k result cache missing h

  ask_checker_keeps :
      (checker : Checker) (k : String) (cache : Cache)
      → cache k ≡ none
      → cache key ≡ some b
      → (ask_checker checker k cache).1 key ≡ some b
  unfolding ask_checker
  ask_checker_keeps none k cache missing h = remember_keeps k true cache missing h
  ask_checker_keeps (some answer) k cache missing h = checked_keeps k answer cache missing h

  after_cache_keeps :
      (checker : Checker) (weekday : ℕ) (k : String) (cache : Cache) (known : Option Bool)
      → cache k ≡ known
      → cache key ≡ some b
      → (after_cache checker weekday k cache known).1 key ≡ some b
  unfolding after_cache
  after_cache_keeps checker weekday k cache (some r) e h = h
  after_cache_keeps checker weekday k cache none e h = elim (Bool-cases (leb 5 weekday)) [
    | inl weekend ↦ rw weekend (remember_keeps k false cache e h)
    | inr workday ↦ rw workday (ask_checker_keeps checker k cache e h)
  ]

  ask_all_keeps :
      (asks : List Ask) (cache : Cache) → cache key ≡ some b → ask_all asks cache key ≡ some b
  unfolding ask_all is_trading_day
  ask_all_keeps [] cache h = h
  ask_all_keeps (a ∷ later) cache h =
      ask_all_keeps later (after_cache a.checker a.weekday a.key cache (cache a.key)).1
        (after_cache_keeps a.checker a.weekday a.key cache (cache a.key) refl h)

-- an answer of the checker is in the cache afterwards
answered :
    (answer : Bool) (weekday : ℕ) (key : String) (cache : Cache) (known : Option Bool)
    → cache key ≡ known
    → (after_cache (some (some answer)) weekday key cache known).1 key
      ≡ some (after_cache (some (some answer)) weekday key cache known).0
unfolding after_cache ask_checker checked
answered answer weekday key cache (some r) e = e
answered answer weekday key cache none e = elim (Bool-cases (leb 5 weekday)) [
  | inl weekend ↦ rw weekend (remember_key key false cache)
  | inr workday ↦ rw workday (remember_key key answer cache)
]

recalled :
    (checker : Checker) (weekday : ℕ) (key : String) (b : Bool) (cache : Cache)
    → cache key ≡ some b
    → is_trading_day checker weekday key cache ≡ (b, cache)
unfolding is_trading_day after_cache
recalled checker weekday key b cache h = rw h refl

-- Where the checker of holidays answers, if it is asked, when a day is asked for, the day gets the same
-- answer ever after: after any calls for any days, whatever the checker answers in them or would
-- answer then, and that last call leaves the cache as it is.
pub is_trading_day_again :
    (answer : Bool) (weekday : ℕ) (key : String) (cache : Cache) (asks : List Ask)
    (checker : Checker)
    → let first = is_trading_day (some (some answer)) weekday key cache in
      is_trading_day checker weekday key (ask_all asks first.1) ≡ (first.0, ask_all asks first.1)
unfolding is_trading_day
is_trading_day_again answer weekday key cache asks checker =
    let first = after_cache (some (some answer)) weekday key cache (cache key) in
    recalled checker weekday key first.0 (ask_all asks first.1)
      (ask_all_keeps key first.0 asks first.1 (answered answer weekday key cache (cache key) refl))
