-- ===== src/Monitor/Sales.antt =====
-- The sales of all shares that prime_jennie/services/monitor/app.py asks for, and what a step may spend of them.
use text.Mathlib.Text.{◌==◌}
use text.Mathlib.TextEquality.{eq_iff}
use prime_jennie.Prelude.{
  ℕ, ◌+◌, ◌≤◌, ◌≡◌, refl, ap, Bool, true, false, ◌&&◌, Option, none, some, List, [], ◌∷◌, ◌++◌,
  String, if◌then◌else◌, Bool-cases, inl, inr, arith,
}
use prime_jennie.Enums.{SellReason}
use prime_jennie.Exit.Signal.{Outcome}
use prime_jennie.Services.Calls.{Position}
use prime_jennie.Seller.Types.{SellOrder}
use prime_jennie.Monitor.State.{Monitor, Effect, Done, done, set_pending}
use prime_jennie.Monitor.Orders.{disarm_effect}
use prime_jennie.Monitor.Tick.{snapshot_of}

-- The reasons that sell all shares of a position; a profit target may be a scale-out.
abbrev pub is_whole : SellReason → Bool
is_whole SellReason.profit_target = false
is_whole SellReason.rsi_overbought = false
is_whole _ = true

module _ {F : Type 0} where
  -- one for an order of the stock for a reason that sells all of its shares
  abbrev pub full_sale : String → Effect F → ℕ
  full_sale code (Effect.publish order) =
      if code == order.stock_code && is_whole order.sell_reason then 1 else 0
  full_sale code _ = 0

  -- how many such orders were asked for
  unfoldable pub full_sales : String → List (Effect F) → ℕ
  full_sales code [] = 0
  full_sales code (e ∷ es) = full_sale code e + full_sales code es

  -- how many more may be asked for
  abbrev pub allowance : String → Monitor F → ℕ
  allowance code m = if m.pending_sell code then 0 else 1

  pub full_sales-append :
      (code : String) (xs ys : List (Effect F))
      → full_sales code (xs ++ ys) ≡ full_sales code xs + full_sales code ys
  unfolding full_sales
  full_sales-append code [] ys = omega arith
  full_sales-append code (x ∷ xs) ys = omega (arith, full_sales-append code xs ys)

  -- A step spends no more than it may, and leaves what it does not spend.
  pub record Spends (code : String) (m : Monitor F) (d : Done F) : Type 0 where
    pub spent : full_sales code d.effects + allowance code d.state ≤ allowance code m

  pub idle-Spends :
      (code : String) (m m' : Monitor F) (es : List (Effect F)) (b : Bool)
      → full_sales code es ≡ 0
      → m'.pending_sell ≡ m.pending_sell
      → Spends code m (record { state = m'; effects = es; has_raised = b })
  idle-Spends code m m' es b h k = record { spent = rw (h, k) (omega arith) }

  pub if-Spends :
      (code : String) (m : Monitor F) (b : Bool) (x y : Done F)
      → Spends code m x
      → Spends code m y
      → Spends code m (if b then x else y)
  if-Spends code m true x y h k = h
  if-Spends code m false x y h k = k

  pub after-Spends :
      (code : String) (m : Monitor F) (es : List (Effect F)) (d : Done F)
      → full_sales code es ≡ 0
      → Spends code m d
      → Spends code m (record d { effects = es ++ d.effects })
  after-Spends code m es d h s = record {
    spent = omega (arith, full_sales-append code es d.effects, h, s.spent);
  }

  -- An order of a stock for which none is under way, with the flag set after it.
  pub order_spent :
      (code : String) (m : Monitor F) (order : SellOrder) (es : List (Effect F))
      → m.pending_sell order.stock_code ≡ false
      → full_sales code es ≡ 0
      → Spends code m (done (set_pending order.stock_code m) (Effect.publish order ∷ es))
  unfolding full_sales
  order_spent code m order es free h = elim (Bool-cases (code == order.stock_code)) [
    | inl e ↦ record {
      spent = ground (arith, e, h, free, ap m.pending_sell ((eq_iff code order.stock_code).0 e));
    }
    | inr e ↦ record { spent = ground (arith, e, h) }
  ]

pub none_free : (F : Type 0) (code : String) → full_sales {F = F} code [] ≡ 0
unfolding full_sales
none_free F code = refl

pub disarm_free :
    (F : Type 0) (code : String) (n : Option ℕ) (c : String)
    → full_sales {F = F} code (Effect.remove_target c ∷ disarm_effect n) ≡ 0
unfolding full_sales
disarm_free F code none c = refl
disarm_free F code (some n) c = ground arith

pub snapshot_of_free :
    (F : Type 0) (code : String) (ps : List Position) → full_sales {F = F} code (snapshot_of ps) ≡ 0
unfolding full_sales
snapshot_of_free F code [] = refl
snapshot_of_free F code (p ∷ ps) = refl

pub if-free :
    {F : Type 0} (code : String) (b : Bool) (x y : List (Effect F) × Outcome F)
    → full_sales code x.0 ≡ 0
    → full_sales code y.0 ≡ 0
    → full_sales code (if b then x else y).0 ≡ 0
if-free code true x y h k = h
if-free code false x y h k = k
