-- ===== src/Redis/Delivered.antt =====
-- What the consumer of prime_jennie/infra/redis/streams.py does with the messages it reads.
use prime_jennie.Prelude.{
  ℕ, ◌+◌, ◌≤◌, ◌≡◌, refl, ap, ◌∙◌, Bool, true, false, Option, none, some, List, [], ◌∷◌, ◌++◌, map,
  String, if◌then◌else◌, Bool-cases, inl, inr, arith,
}
use text.Mathlib.Text.{◌==◌}
use prime_jennie.Config.Sell.{Text}
use prime_jennie.Redis.Streams.{
  Model, Message, Handler, Event, Ran, publish, publish_all, handle, on_payload, process_message,
  unless_raised, process_batch, turn, run,
}

abbrev pub is_empty : Text → Bool
is_empty [] = true
is_empty (c ∷ cs) = false

module _ {T : Type 0} where
  abbrev pub is_ack : String → Event T → ℕ
  is_ack id (Event.acked i) = if i == id then 1 else 0
  is_ack id _ = 0

  abbrev pub is_handled : String → Event T → ℕ
  is_handled id (Event.handled i m) = if i == id then 1 else 0
  is_handled id _ = 0

  unfoldable pub total : (Event T → ℕ) → List (Event T) → ℕ
  total f [] = 0
  total f (e ∷ es) = f e + total f es

  total-append :
      (f : Event T → ℕ) (xs ys : List (Event T)) → total f (xs ++ ys) ≡ total f xs + total f ys
  unfolding total
  total-append f [] ys = omega arith
  total-append f (x ∷ xs) ys = omega (arith, total-append f xs ys)

  -- the messages that were handled, in order
  unfoldable pub handled_in : List (Event T) → List T
  handled_in [] = []
  handled_in (Event.acked i ∷ es) = handled_in es
  handled_in (Event.handled i m ∷ es) = m ∷ handled_in es

  handled_in-append :
      (xs ys : List (Event T)) → handled_in (xs ++ ys) ≡ handled_in xs ++ handled_in ys
  unfolding handled_in
  handled_in-append [] ys = refl
  handled_in-append (Event.acked i ∷ xs) ys = handled_in-append xs ys
  handled_in-append (Event.handled i m ∷ xs) ys = ap (λ z. m ∷ z) (handled_in-append xs ys)

module _ {T : Type 0} where
  -- the messages that were acknowledged, in order
  unfoldable pub acked_in : List (Event T) → List String
  acked_in [] = []
  acked_in (Event.acked i ∷ es) = i ∷ acked_in es
  acked_in (Event.handled i m ∷ es) = acked_in es

  acked_in-append : (xs ys : List (Event T)) → acked_in (xs ++ ys) ≡ acked_in xs ++ acked_in ys
  unfolding acked_in
  acked_in-append [] ys = refl
  acked_in-append (Event.acked i ∷ xs) ys = ap (λ z. i ∷ z) (acked_in-append xs ys)
  acked_in-append (Event.handled i m ∷ xs) ys = acked_in-append xs ys

module _ {T S : Type 0} (model : Model T) (handler : Handler T S) where
  module _ (acks : String → Bool) (id : String) where
    -- no more handled than acknowledged
    abbrev IsCovered : List (Event T) → Type 0
    IsCovered es = total (is_handled id) es ≤ total (is_ack id) es

    append-IsCovered : (xs ys : List (Event T)) → IsCovered xs → IsCovered ys → IsCovered (xs ++ ys)
    append-IsCovered xs ys h k =
        omega (arith, total-append (is_handled id) xs ys, total-append (is_ack id) xs ys, h, k)

    handle-IsCovered :
        (i : String) (o : Option T) (s : S)
        → IsCovered (Event.acked i ∷ (handle model handler i o s).events)
    unfolding handle total
    handle-IsCovered i none s = omega arith
    handle-IsCovered i (some m) s = omega arith

    on_payload-IsCovered :
        (i : String) (o : Option Text) (s : S)
        → IsCovered (Event.acked i ∷ (on_payload model handler i o s).events)
    unfolding on_payload total
    on_payload-IsCovered i none s = omega arith
    on_payload-IsCovered i (some []) s = omega arith
    on_payload-IsCovered i (some (c ∷ cs)) s = handle-IsCovered i (model.validate (c ∷ cs)) s

    process_message-IsCovered :
        (msg : Message) (s : S) → IsCovered (process_message model handler acks msg s).events
    unfolding process_message
    process_message-IsCovered msg s = elim (Bool-cases (acks msg.id)) [
      | inl e ↦ rw e (on_payload-IsCovered msg.id msg.payload s)
      | inr e ↦ rw e (unfold total in omega arith)
    ]

    unless_raised-IsCovered :
        (r rest : Ran T S)
        → IsCovered r.events
        → IsCovered rest.events
        → IsCovered (unless_raised model handler r rest).events
    unless_raised-IsCovered r rest h k = elim (Bool-cases r.has_raised) [
      | inl e ↦ rw e h
      | inr e ↦ rw e (append-IsCovered r.events rest.events h k)
    ]

    process_batch-IsCovered :
        (msgs : List Message) (s : S) → IsCovered (process_batch model handler acks msgs s).events
    unfolding process_batch
    process_batch-IsCovered [] s = unfold total in omega arith
    process_batch-IsCovered (msg ∷ msgs) s =
        let r = process_message model handler acks msg s in
        unless_raised-IsCovered r (process_batch model handler acks msgs r.state)
          (process_message-IsCovered msg s) (process_batch-IsCovered msgs r.state)

    turn-IsCovered :
        (o : Option (List Message)) (s : S) → IsCovered (turn model handler acks o s).events
    unfolding turn
    turn-IsCovered none s = unfold total in omega arith
    turn-IsCovered (some msgs) s = process_batch-IsCovered msgs s

    -- Whatever is read, whichever acknowledgements go through, and whatever the handler does: a message
    -- is handled at most as often as it was acknowledged.
    pub run-IsCovered :
        (answers : List (Option (List Message))) (s : S)
        → total (is_handled id) (run model handler acks answers s).events
          ≤ total (is_ack id) (run model handler acks answers s).events
    unfolding run
    run-IsCovered [] s = unfold total in omega arith
    run-IsCovered (answer ∷ answers) s =
        let r = turn model handler acks answer s in
        append-IsCovered r.events (run model handler acks answers r.state).events
          (turn-IsCovered answer s) (run-IsCovered answers r.state)

  -- the state after messages are handled in order
  unfoldable pub handle_all : List T → S → S
  handle_all [] s = s
  handle_all (m ∷ ms) s = handle_all ms (handler m s).0

  -- The model reads what it wrote, which is not empty.
  abbrev pub IsFaithful : Type 0
  IsFaithful =
      (m : T) → (is_empty (model.dump m) ≡ false) × (model.validate (model.dump m) ≡ some m)

  on_dump :
      (id : String) (m : T) (text : Text) (s : S)
      → is_empty text ≡ false
      → model.validate text ≡ some m
      → on_payload model handler id (some text) s
        ≡ record { events = Event.handled id m ∷ []; state = (handler m s).0; has_raised = false }
  unfolding on_payload handle
  on_dump id m [] s h k = absurd (ground (arith, h))
  on_dump id m (c ∷ cs) s h k = rw k refl

  process_published :
      (acks : String → Bool) (id : String) (m : T) (s : S)
      → acks id ≡ true
      → IsFaithful
      → process_message model handler acks (publish model id m) s ≡ record {
        events = Event.acked id ∷ Event.handled id m ∷ [];
        state = (handler m s).0;
        has_raised = false;
      }
  unfolding process_message publish
  process_published acks id m s e faithful =
      let known = faithful m in rw (e, on_dump id m (model.dump m) s known.0 known.1) refl

  -- Where all acknowledgements go through and the model reads what it wrote, the messages that were
  -- published are handled one by one in their order, even if the handler raises, and no exception
  -- comes out.
  pub process_batch-publish_all :
      (acks : String → Bool) (ms : List (String × T)) (s : S)
      → ((id : String) → acks id ≡ true)
      → IsFaithful
      → let ran = process_batch model handler acks (publish_all model ms) s in
        (handled_in ran.events ≡ map (λ p. p.1) ms)
        × (ran.state ≡ handle_all (map (λ p. p.1) ms) s)
        × (ran.has_raised ≡ false)
  unfolding process_batch publish_all handled_in handle_all
  process_batch-publish_all acks [] s all faithful = (refl, refl, refl)
  process_batch-publish_all acks ((id, m) ∷ ms) s all faithful =
      let rest = process_batch-publish_all acks ms (handler m s).0 all faithful in
      rw (process_published acks id m s (all id) faithful) (ap (λ z. m ∷ z) rest.0, rest.1, rest.2)

  handle_quiet :
      (id : String) (o : Option T) (s : S)
      → (acked_in (handle model handler id o s).events ≡ [])
        × ((handle model handler id o s).has_raised ≡ false)
  unfolding handle acked_in
  handle_quiet id none s = (refl, refl)
  handle_quiet id (some m) s = (refl, refl)

  on_payload_quiet :
      (id : String) (o : Option Text) (s : S)
      → (acked_in (on_payload model handler id o s).events ≡ [])
        × ((on_payload model handler id o s).has_raised ≡ false)
  unfolding on_payload acked_in
  on_payload_quiet id none s = (refl, refl)
  on_payload_quiet id (some []) s = (refl, refl)
  on_payload_quiet id (some (c ∷ cs)) s = handle_quiet id (model.validate (c ∷ cs)) s

  message_acked :
      (acks : String → Bool) (msg : Message) (s : S)
      → acks msg.id ≡ true
      → (acked_in (process_message model handler acks msg s).events ≡ msg.id ∷ [])
        × ((process_message model handler acks msg s).has_raised ≡ false)
  unfolding process_message acked_in
  message_acked acks msg s e =
      let quiet = on_payload_quiet msg.id msg.payload s in
      rw e (ap (λ z. msg.id ∷ z) quiet.0, quiet.1)

  -- Where all acknowledgements go through, every message of a batch is acknowledged, in their order,
  -- whatever is in them and whatever the handler does, and no exception comes out.
  pub process_batch_acked :
      (acks : String → Bool) (msgs : List Message) (s : S)
      → ((id : String) → acks id ≡ true)
      → let ran = process_batch model handler acks msgs s in
        (acked_in ran.events ≡ map (λ msg. msg.id) msgs) × (ran.has_raised ≡ false)
  unfolding process_batch
  process_batch_acked acks [] s all = ((unfold acked_in in refl), refl)
  process_batch_acked acks (msg ∷ msgs) s all =
      let first = message_acked acks msg s (all msg.id) in
      let rest =
        process_batch_acked acks msgs (process_message model handler acks msg s).state all in
      rw first.1 (
        acked_in-append (process_message model handler acks msg s).events _
            ∙ rw (first.0, rest.0) refl,
        rest.1,
      )
