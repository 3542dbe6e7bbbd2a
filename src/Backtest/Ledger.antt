-- ===== src/Backtest/Ledger.antt =====
-- The ledger of a portfolio: what its trade logs say of the cash and of the shares, and the lemmas on
-- the dictionary of the positions (prime_jennie/services/backtest/portfolio.py).
use text.Mathlib.Text.{◌==◌}
use text.Mathlib.TextPositions.{eq_refl}
use text.Mathlib.TextEquality.{eq_iff}
use mathlib.Core.Bool.{false≢true}
use prime_jennie.Prelude.{
  ◌≡◌, refl, sym, ap, ◌∙◌, true, false, filter, none, some, List, [], ◌∷◌, ◌++◌, String,
  if◌then◌else◌, Bool-cases, inl, inr, arith,
}
use prime_jennie.Prelude.Int.{ℤ, pos, ◌+ℤ◌, ◌-ℤ◌}
use prime_jennie.Backtest.Types.{SimPosition, TradeType, TradeLog}
use prime_jennie.Backtest.Portfolio.{find_position, put_position, drop_position}

-- an entry of the cash book
abbrev pub booked : TradeType → ℤ → ℤ → ℤ
booked TradeType.bought amount cash = cash -ℤ amount
booked TradeType.sold amount cash = cash +ℤ amount

-- an entry of the book of shares
abbrev pub moved : TradeType → ℤ → ℤ → ℤ
moved TradeType.bought n shares = shares +ℤ n
moved TradeType.sold n shares = shares -ℤ n

eq_of_same : (a b : String) → (a == b) ≡ true → a ≡ b
eq_of_same a b h = (eq_iff a b).0 h

-- a text that equals one of two different texts is not the other
distinct : (a b c : String) → (a == b) ≡ false → (a == c) ≡ true → (b == c) ≡ false
distinct a b c h k = elim (Bool-cases (b == c)) [
  | inl e ↦ absurd (
      false≢true (sym h ∙ ap (λ x. x == b) (eq_of_same a c k ∙ sym (eq_of_same b c e)) ∙ eq_refl b))
  | inr e ↦ e
]

-- equal texts equal the same ones
alike : (a b c : String) → (a == b) ≡ true → (a == c) ≡ (b == c)
alike a b c h = ap (λ x. x == c) (eq_of_same a b h)

module _ {F : Type 0} where
  -- The cash that the logs leave of a capital.
  unfoldable pub cash_after : ℤ → List (TradeLog F) → ℤ
  cash_after cash [] = cash
  cash_after cash (l ∷ ls) = cash_after (booked l.trade_type l.total_amount cash) ls

  -- The shares of a stock that the logs leave of a number.
  unfoldable pub shares_after : String → ℤ → List (TradeLog F) → ℤ
  shares_after code n [] = n
  shares_after code n (l ∷ ls) =
      shares_after code (if l.stock_code == code then moved l.trade_type l.quantity n else n) ls

  -- The shares of a stock among the positions.
  unfoldable pub held : String → List (SimPosition F) → ℤ
  held code [] = pos 0
  held code (p ∷ ps) = let rest = held code ps in if p.stock_code == code then p.quantity else rest

  pub cash_after-append :
      (cash : ℤ) (ls : List (TradeLog F)) (l : TradeLog F)
      → cash_after cash (ls ++ (l ∷ [])) ≡ booked l.trade_type l.total_amount (cash_after cash ls)
  unfolding cash_after
  cash_after-append cash [] l = refl
  cash_after-append cash (l' ∷ ls) l =
      cash_after-append (booked l'.trade_type l'.total_amount cash) ls l

  pub shares_after-append :
      (code : String) (n : ℤ) (ls : List (TradeLog F)) (l : TradeLog F)
      → shares_after code n (ls ++ (l ∷ [])) ≡ (
          if l.stock_code == code
          then moved l.trade_type l.quantity (shares_after code n ls)
          else shares_after code n ls)
  unfolding shares_after
  shares_after-append code n [] l = refl
  shares_after-append code n (l' ∷ ls) l =
      shares_after-append code
        (if l'.stock_code == code then moved l'.trade_type l'.quantity n else n) ls l

  pub find_position-held :
      (code : String) (ps : List (SimPosition F)) (p : SimPosition F)
      → find_position code ps ≡ some p
      → (held code ps ≡ p.quantity) × (p.stock_code ≡ code)
  unfolding find_position held
  find_position-held code [] p h = absurd (ground (arith, h))
  find_position-held code (p' ∷ ps) p h = elim (Bool-cases (p'.stock_code == code)) [
    | inl e ↦ ground (arith, h, e, eq_of_same p'.stock_code code e)
    | inr e ↦ ground (arith, h, e, find_position-held code ps p)
  ]

  pub find_position-none :
      (code : String) (ps : List (SimPosition F))
      → find_position code ps ≡ none
      → held code ps ≡ pos 0
  unfolding find_position held
  find_position-none code [] h = refl
  find_position-none code (p ∷ ps) h = ground (arith, h, find_position-none code ps)

  pub held-put_position :
      (c code : String) (q : SimPosition F) (ps : List (SimPosition F))
      → q.stock_code ≡ code
      → held c (put_position code q ps) ≡ (if code == c then q.quantity else held c ps)
  unfolding put_position held
  held-put_position c code q [] h = rw h refl
  held-put_position c code q (p ∷ ps) h = elim (Bool-cases (p.stock_code == code)) [
    | inl e ↦ rw (e, h) (ground (arith, alike p.stock_code code c e))
    | inr e ↦ rw e (ground (arith, held-put_position c code q ps h, distinct p.stock_code code c e))
  ]

  pub held-drop_position :
      (c code : String) (ps : List (SimPosition F))
      → held c (drop_position code ps) ≡ (if code == c then pos 0 else held c ps)
  unfolding drop_position held filter
  held-drop_position c code [] = ground arith
  held-drop_position c code (p ∷ ps) = elim (Bool-cases (p.stock_code == code)) [
    | inl e ↦ rw e (ground (arith, held-drop_position c code ps, alike p.stock_code code c e))
    | inr e ↦ rw e (ground (arith, held-drop_position c code ps, distinct p.stock_code code c e))
  ]

  pub held-alike :
      (a c : String) (ps : List (SimPosition F)) → (a == c) ≡ true → held c ps ≡ held a ps
  held-alike a c ps h = ap (λ x. held x ps) (sym (eq_of_same a c h))
