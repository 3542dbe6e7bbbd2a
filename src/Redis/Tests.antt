-- ===== src/Redis/Tests.antt =====
-- Numbers as the messages and the values of prime_jennie/infra/redis.
use mathlib.Core.Option
use prime_jennie.Prelude.{
  ℕ, ◌≤◌, ◌≡◌, refl, Bool, true, false, Option, none, some, List, [], ◌∷◌, String,
}
use prime_jennie.Prelude.Int.{pos, negsuc}
use prime_jennie.Config.Sell.{Text}
use prime_jennie.Redis.Streams.{Model, Message, Handler, publish_all, process_batch, run}
use prime_jennie.Redis.Cache.{Store, Hash, get, set, hget, set_all}
use prime_jennie.Redis.Delivered.{
  is_ack, is_handled, total, handled_in, acked_in, handle_all, run-IsCovered,
  process_batch-publish_all, process_batch_acked,
}
use prime_jennie.Redis.Stored.{last_value, hget-set_all}

-- a number as one character
abbrev read : Text → Option ℕ
read (n ∷ []) = some n
read _ = none

abbrev numbers : Model ℕ
numbers = record { dump = λ n. n ∷ []; validate = read }

-- keeps the last message, and raises
abbrev keep : Handler ℕ ℕ
keep m s = (m, true)

abbrev always : String → Bool
always id = true

abbrev messages : List (String × ℕ)
messages = ("1-0", 7) ∷ ("2-0", 8) ∷ []

abbrev broken : List Message
broken =
    record { id = "1-0"; payload = none } ∷ record { id = "2-0"; payload = some (1 ∷ 2 ∷ []) } ∷ []

abbrev empty_store : Store
empty_store key = none

abbrev empty_hash : Hash
empty_hash field = none

process_batch-publish_all_example :
    (handled_in (process_batch numbers keep always (publish_all numbers messages) 0).events
      ≡ 7 ∷ 8 ∷ [])
    × ((process_batch numbers keep always (publish_all numbers messages) 0).state
        ≡ handle_all numbers keep (7 ∷ 8 ∷ []) 0)
    × ((process_batch numbers keep always (publish_all numbers messages) 0).has_raised ≡ false)
process_batch-publish_all_example =
    process_batch-publish_all numbers keep always messages 0 (λ id. refl) (λ m. (refl, refl))

process_batch_acked_example :
    (acked_in (process_batch numbers keep always broken 0).events ≡ "1-0" ∷ "2-0" ∷ [])
    × ((process_batch numbers keep always broken 0).has_raised ≡ false)
process_batch_acked_example = process_batch_acked numbers keep always broken 0 (λ id. refl)

run-IsCovered_example :
    total
      (is_handled "1-0")
      (run numbers keep always (some (publish_all numbers messages) ∷ none ∷ []) 0).events
    ≤ total
        (is_ack "1-0")
        (run numbers keep always (some (publish_all numbers messages) ∷ none ∷ []) 0).events
run-IsCovered_example =
    run-IsCovered numbers keep always "1-0" (some (publish_all numbers messages) ∷ none ∷ []) 0

-- A value that is set is read, and a negative time to live is refused.
read_back :
    Option.map
      (λ store. get numbers "a" (some (pos 60)) store)
      (set numbers "a" (some (pos 60)) 7 empty_store)
    ≡ some (some 7)
unfolding get set
read_back = refl

refused : set numbers "a" (some (negsuc 0)) 7 empty_store ≡ none
unfolding set
refused = refl

hget-set_all_example :
    hget numbers "x" (set_all numbers (("x", 7) ∷ ("y", 8) ∷ []) empty_hash)
    ≡ last_value numbers "x" (("x", 7) ∷ ("y", 8) ∷ []) none
hget-set_all_example =
    hget-set_all numbers "x" (("x", 7) ∷ ("y", 8) ∷ []) empty_hash (λ value. refl)
