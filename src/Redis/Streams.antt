-- ===== src/Redis/Streams.antt =====
-- prime_jennie/infra/redis/streams.py. What Redis answers is an argument; a handler changes the state of the
-- program and may raise.
use prime_jennie.Prelude.{
  Bool, true, false, Option, none, some, List, [], ◌∷◌, ◌++◌, String, if◌then◌else◌,
}
use prime_jennie.Config.Sell.{Text}

-- The JSON of a data model: `model_dump_json` and `model_validate_json`, which may raise.
pub record Model (T : Type 0) : Type 0 where
  pub dump : T → Text
  pub validate : Text → Option T

-- an entry of a stream: its id and its field `payload`
pub record Message : Type 0 where
  pub id : String
  pub payload : Option Text

-- the state that a handler leaves, and whether it raised
abbrev pub Handler : Type 0 → Type 0 → Type 0
Handler T S = T → S → S × Bool

-- What the consumer does that others see.
pub data Event (T : Type 0) : Type 0 where
  acked : String → Event T
  handled : String → T → Event T

-- the events in order, the state of the program, and whether an exception comes out
pub record Ran (T S : Type 0) : Type 0 where
  pub events : List (Event T)
  pub state : S
  pub has_raised : Bool

module _ {T : Type 0} (model : Model T) where
  -- the entry that `publish` adds; the id is the answer of Redis
  unfoldable pub publish : String → T → Message
  publish id message = record { id = id; payload = some (model.dump message) }

  -- the entries of messages that are published one after another
  unfoldable pub publish_all : List (String × T) → List Message
  unfolding publish
  publish_all [] = []
  publish_all ((id, message) ∷ ms) = publish id message ∷ publish_all ms

  module _ {S : Type 0} (handler : Handler T S) where
    -- an exception of the model or of the handler is logged
    unfoldable pub handle : String → Option T → S → Ran T S
    handle id none s = record { events = []; state = s; has_raised = false }
    handle id (some m) s = record {
      events = Event.handled id m ∷ [];
      state = (handler m s).0;
      has_raised = false;
    }

    -- an empty payload is passed over
    unfoldable pub on_payload : String → Option Text → S → Ran T S
    unfolding handle
    on_payload id none s = record { events = []; state = s; has_raised = false }
    on_payload id (some []) s = record { events = []; state = s; has_raised = false }
    on_payload id (some (c ∷ cs)) s = handle id (model.validate (c ∷ cs)) s

    abbrev pub preceded : List (Event T) → Ran T S → Ran T S
    preceded es r = record r { events = es ++ r.events }

    -- `acks id` is whether the acknowledgement goes through; it raises otherwise
    unfoldable pub process_message : (String → Bool) → Message → S → Ran T S
    unfolding on_payload
    process_message acks msg s =
        if acks msg.id
        then preceded (Event.acked msg.id ∷ []) (on_payload msg.id msg.payload s)
        else record { events = []; state = s; has_raised = true }

    abbrev pub unless_raised : Ran T S → Ran T S → Ran T S
    unless_raised r rest = if r.has_raised then r else preceded r.events rest

    -- the loop over the entries of one read, which an exception ends
    unfoldable pub process_batch : (String → Bool) → List Message → S → Ran T S
    unfolding process_message
    process_batch acks [] s = record { events = []; state = s; has_raised = false }
    process_batch acks (msg ∷ msgs) s =
        let r = process_message acks msg s in
        let rest = process_batch acks msgs r.state in unless_raised r rest

    -- One turn of `run`, with what the read gives (`none` where it raises): an exception is caught,
    -- and the loop goes on.
    unfoldable pub turn : (String → Bool) → Option (List Message) → S → Ran T S
    unfolding process_batch
    turn acks none s = record { events = []; state = s; has_raised = false }
    turn acks (some msgs) s = record (process_batch acks msgs s) { has_raised = false }

    -- The turns of `run`; `_recover_pending`, which goes before them, is a turn over the messages that it
    -- claims.
    unfoldable pub run : (String → Bool) → List (Option (List Message)) → S → Ran T S
    unfolding turn
    run acks [] s = record { events = []; state = s; has_raised = false }
    run acks (answer ∷ answers) s =
        let r = turn acks answer s in preceded r.events (run acks answers r.state)
