-- ===== src/Kis/Polls.antt =====
-- How long `confirm_order` of prime_jennie/infra/kis/client.py asks, and that it returns.
use prime_jennie.Kis.{fill_of, check_order_status, seen, poll, confirm_order}
use prime_jennie.Prelude.{
  ℕ, zero, suc, ◌+◌, ◌≤◌, Bool, true, false, Option, none, some, [], ◌∷◌, String, arith,
  if◌then◌else◌,
}
use prime_jennie.Services.Calls.{Call, OrderStatus, Fill, History, Env, went_well}
use prime_jennie.Services.Action.{
  Result, ok, raised, Action, pure, attempt, ask, ◌>>=◌, continue, handled, of_option,
}

abbrev is_status : Call → ℕ
is_status (Call.kis_status order_no) = 1
is_status _ = 0

-- the number of times that the gateway was asked for a status
abbrev pub asks : History → ℕ
asks [] = 0
asks (e ∷ h) = is_status e.call + asks h

module _ {A : Type 0} where
  abbrev pub IsOk : Result A → Type 0
  IsOk (ok a) = Unit
  IsOk raised = ⊥

  -- It returns, after at most `n` questions.
  abbrev Returns : ℕ → History → Result A × History → Type 0
  Returns n h p = IsOk p.0 × (asks p.1 ≤ n + asks h)

module _ {F : Type 0} (env : Env F) (order_no : String) where
  abbrev asked : Option (OrderStatus F) → History → History
  asked a h =
      record { call = Call.kis_status order_no; well = went_well F (Call.kis_status order_no) a }
      ∷ h

  module _ {B : Type 0} (f : Option (OrderStatus F) → Action B) (n : ℕ)
      (k : (o : Option (OrderStatus F)) (h : History) → Returns n h (f o h)) where
    answered :
        (h : History) (a : Option (OrderStatus F))
        → Returns (suc n) h (
            let (r, h') =
              handled
                (continue (of_option a) (λ s. pure (some s)) (asked a h)).0
                (pure none)
                (continue (of_option a) (λ s. pure (some s)) (asked a h)).1 in
            continue r f h')
    unfolding pure
    answered h none = ground (arith, k none (asked none h))
    answered h (some s) = ground (arith, k (some s) (asked (some s) h))

    status-Returns : (h : History) → Returns (suc n) h ((check_order_status env order_no >>= f) h)
    unfolding check_order_status attempt ask pure ◌>>=◌
    status-Returns h = answered h (env.respond h (Call.kis_status order_no))

  seen_filled :
      (b : Bool) (fill : Fill F) (m : Action (Option (Fill F))) (n : ℕ) (h : History)
      → Returns n h (m h)
      → Returns n h ((if b then pure (some fill) else m) h)
  unfolding pure
  seen_filled true fill m n h k = (tt, omega arith)
  seen_filled false fill m n h k = k

  seen-Returns :
      (n : ℕ) (last : Option (OrderStatus F))
      (next : Option (OrderStatus F) → Action (Option (Fill F)))
      → ((o : Option (OrderStatus F)) (h : History) → Returns n h (next o h))
      → (status : Option (OrderStatus F)) (h : History) → Returns n h (seen env status last next h)
  unfolding seen pure
  seen-Returns n last next k none h = k last h
  seen-Returns n last next k (some s) h =
      seen_filled s.filled (fill_of s) (next (some s)) n h (k (some s) h)

  poll-Returns :
      (n : ℕ) (last : Option (OrderStatus F)) (h : History)
      → Returns n h (poll env order_no n last h)
  unfolding poll pure
  poll-Returns zero last h = (tt, omega arith)
  poll-Returns (suc n) last h = status-Returns _ n (seen-Returns n last _ (poll-Returns n)) h

  -- The confirmation of an order returns, however the gateway fails, and asks for the status of orders
  -- at most as often as it may retry.
  pub confirm_order-Returns :
      (max_retries : ℕ) (h : History)
      → IsOk (confirm_order env order_no max_retries h).0
        × (asks (confirm_order env order_no max_retries h).1 ≤ max_retries + asks h)
  unfolding confirm_order
  confirm_order-Returns max_retries h = poll-Returns max_retries none h
