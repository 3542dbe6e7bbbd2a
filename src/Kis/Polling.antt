-- ===== src/Kis/Polling.antt =====
-- What the polling of an order in prime_jennie/infra/kis/client.py keeps.
use prime_jennie.Prelude.{ℕ, zero, suc, ◌≡◌, true, Option, none, some, String}
use prime_jennie.Services.Calls.{Call, OrderStatus, Fill, History, Env}
use prime_jennie.Services.Action.{Action, ask}
use prime_jennie.Services.Keeps.{Keeps, Keeps-pure, Keeps-if, Keeps-attempt, Keeps-bind}
use prime_jennie.Services.Trace.{is_inert}
use prime_jennie.Kis.{check_order_status, seen, poll, confirm_order}

ruleset keeping = (Keeps-pure, Keeps-if, Keeps-attempt, Keeps-bind)

-- A fact about the history that no inert call can break is kept by the polling.
module _ {F : Type 0} (env : Env F) (P : History → Type 0)
    (inert : (c : Call) → is_inert c ≡ true → Keeps P (ask env c)) where
  pub status-Keeps : (order_no : String) → Keeps P (check_order_status env order_no)
  unfolding check_order_status
  status-Keeps order_no = search (keeping, inert)

  seen-Keeps :
      (status last : Option (OrderStatus F))
      (next : Option (OrderStatus F) → Action (Option (Fill F)))
      → ((o : Option (OrderStatus F)) → Keeps P (next o))
      → Keeps P (seen env status last next)
  unfolding seen
  seen-Keeps none last next k = k last
  seen-Keeps (some s) last next k = search keeping

  poll-Keeps :
      (order_no : String) (n : ℕ) (last : Option (OrderStatus F))
      → Keeps P (poll env order_no n last)
  unfolding poll
  poll-Keeps order_no zero last = search keeping
  poll-Keeps order_no (suc n) last =
      Keeps-bind _ _ (status-Keeps order_no)
        (λ status. seen-Keeps status last _ (poll-Keeps order_no n))

  pub confirm_order-Keeps : (order_no : String) (n : ℕ) → Keeps P (confirm_order env order_no n)
  unfolding confirm_order
  confirm_order-Keeps order_no n = poll-Keeps order_no n none
