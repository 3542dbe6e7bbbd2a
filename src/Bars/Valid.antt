-- ===== src/Bars/Valid.antt =====
-- What the bars of prime_jennie/services/scanner/bar_engine.py keep.
use text.Mathlib.Text.{◌==◌}
use text.Mathlib.TextPositions.{eq_refl}
use prime_jennie.Prelude.{
  ◌⨾◌, ◌-◌, length-drop, Bool-cases, inl, inr, ℕ, suc, ◌≤◌, ◌≡◌, refl, false, Option, none, some,
  List, [], ◌∷◌, ◌++◌, String, length, last_of, All, All-append, All-drop, length-append,
  length-last_of-le, arith,
}
use prime_jennie.Prelude.Int.{ℤ, eqb_ℤ}
use prime_jennie.Float.{Float}
use prime_jennie.Float.Order.{
  le-fmax_left, le-fmax_right, fmin-le_left, fmin-le_right, ◌≼◌, IsNumber, IsOrdered,
}
use prime_jennie.Bars.{
  Bar, Vwap, Stock, Engine, slice_last, append_bounded, new_bar, extend, update_bar, update_stock,
  update,
}

module _ {ℓ} {A : Type ℓ} where
  length-append_bounded-le :
      (n : ℕ) (xs : List A) (x : A)
      → length xs ≤ suc n
      → length (append_bounded (suc n) xs x) ≤ suc n
  unfolding append_bounded slice_last
  length-append_bounded-le n xs x h =
      ground (arith, length-last_of-le (suc n) (xs ++ (x ∷ [])), length-append xs (x ∷ []))

  append_bounded-All :
      (P : A → Type 0) (n : ℕ) (xs : List A) (x : A)
      → All P xs
      → P x
      → All P (append_bounded (suc n) xs x)
  unfolding append_bounded slice_last last_of
  append_bounded-All P n xs x h p =
      let all = All-append P xs (x ∷ []) h (p ⨾ tt) in
      ground (arith, all, All-drop P (length (xs ++ (x ∷ [])) - suc n) (xs ++ (x ∷ [])) all)

length-append_bounded :
    {A B : Type 0} (n : ℕ) (xs : List A) (ys : List B) (x : A) (y : B)
    → length xs ≡ length ys
    → length (append_bounded (suc n) xs x) ≡ length (append_bounded (suc n) ys y)
unfolding append_bounded slice_last last_of
length-append_bounded n xs ys x y h = ground (
  arith,
  length-drop (length (xs ++ (x ∷ [])) - suc n) (xs ++ (x ∷ [])),
  length-drop (length (ys ++ (y ∷ [])) - suc n) (ys ++ (y ∷ [])),
  length-append xs (x ∷ []),
  length-append ys (y ∷ []),
)

module _ {F : Type 0} ⦃num : Float F⦄ where
  open num use {le}

  -- The first and the last price of a bar lie between its low and its high.
  pub record IsBar (b : Bar F) : Type 0 where
    pub low-start : b.low ≼ b.start
    pub start-high : b.start ≼ b.high
    pub low-close : b.low ≼ b.close
    pub close-high : b.close ≼ b.high

  abbrev pub IsCurrent : Option (Bar F) → Type 0
  IsCurrent none = Unit
  IsCurrent (some b) = IsBar b

  -- All bars are bars, and the histories are as long as each other and within the bound.
  pub record IsValid (max_history : ℕ) (s : Stock F) : Type 0 where
    pub current : IsCurrent s.current
    pub completed : All IsBar s.completed
    pub bounded : length s.completed ≤ max_history
    pub in_step : length s.volume_history ≡ length s.completed

  module _ (laws : IsOrdered num) (price : F) (number : IsNumber price) (volume : ℤ) where
    new_bar-IsBar : (ts : ℤ) → IsBar (new_bar ts price volume)
    unfolding new_bar
    new_bar-IsBar ts = record {
      low-start = number;
      start-high = number;
      low-close = number;
      close-high = number;
    }

    extend-IsBar : (b : Bar F) → IsBar b → IsBar (extend price volume b)
    unfolding extend
    extend-IsBar b h =
        let low = (laws.refl_of_le b.low b.start h.low-start).0 in
        let high = (laws.refl_of_le b.start b.high h.start-high).1 in
        record {
          low-start =
              laws.le_trans _ b.low _ (fmin-le_left laws b.low price low number) h.low-start;
          start-high =
              laws.le_trans _ b.high _ h.start-high (le-fmax_left laws b.high price high number);
          low-close = fmin-le_right laws b.low price low number;
          close-high = le-fmax_right laws b.high price high number;
        }

    update_bar-IsValid :
        (n : ℕ) (ts : ℤ) (v : Vwap F) (o : Option (Bar F)) (s : Stock F)
        → IsCurrent o
        → IsValid (suc n) s
        → IsValid (suc n) (update_bar (suc n) ts price volume v o s).0
    unfolding update_bar
    update_bar-IsValid n ts v none s c valid = record {
      current = new_bar-IsBar ts;
      completed = valid.completed;
      bounded = valid.bounded;
      in_step = valid.in_step;
    }
    update_bar-IsValid n ts v (some bar) s c valid = elim (Bool-cases (eqb_ℤ bar.timestamp ts)) [
      | inr new ↦ rw new (record {
        current = new_bar-IsBar ts;
        completed = append_bounded-All IsBar n s.completed bar valid.completed c;
        bounded = length-append_bounded-le n s.completed bar valid.bounded;
        in_step = length-append_bounded n s.volume_history s.completed bar.volume bar valid.in_step;
      })
      | inl same ↦ rw same (record {
        current = extend-IsBar bar c;
        completed = valid.completed;
        bounded = valid.bounded;
        in_step = valid.in_step;
      })
    ]

    -- Where the price of a tick is a number and the history is bounded by at least one bar, a tick keeps
    -- the stock valid: in every bar, current or completed, the first and the last price lie between the
    -- low and the high, and the histories of bars and of volumes have the same length within the bound.
    pub update-IsValid :
        (interval : ℤ) (n : ℕ) (now : F) (today code : String) (engine : Engine F)
        → IsValid (suc n) (engine code)
        → IsValid (suc n) ((update interval (suc n) now today code price volume engine).0 code)
    unfolding update update_stock
    update-IsValid interval n now today code engine valid =
        rw (eq_refl code)
          (update_bar-IsValid n _ _ (engine code).current (engine code) valid.current valid)

  -- A tick of one stock changes no other stock.
  pub update_other :
      (interval : ℤ) (max_history : ℕ) (now : F) (today code : String) (price : F) (volume : ℤ)
      (engine : Engine F) (other : String)
      → (other == code) ≡ false
      → (update interval max_history now today code price volume engine).0 other ≡ engine other
  unfolding update
  update_other interval max_history now today code price volume engine other e = rw e refl
