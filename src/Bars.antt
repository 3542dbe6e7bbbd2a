-- ===== src/Bars.antt =====
-- prime_jennie/services/scanner/bar_engine.py: ticks to one-minute bars, per stock. A dictionary with a
-- default is a function of the stock code; the two readings of the clock are arguments. The lock makes
-- each operation one step.
use text.Mathlib.Text.{◌==◌}
use prime_jennie.Prelude.{
  ℕ, zero, suc, Bool, true, false, not, Option, none, some, List, [], ◌∷◌, ◌++◌, String, ltb,
  length, last_of, if◌then◌else◌,
}
use prime_jennie.Prelude.Int.{ℤ, pos, ◌+ℤ◌, ◌*ℤ◌, ltb_ℤ, eqb_ℤ}
use prime_jennie.Float.{Float, whole, fmin, fmax}
mod Valid
mod Tests

pub record Bar (F : Type 0) : Type 0 where
  pub timestamp : ℤ
  pub start : F
  pub high : F
  pub low : F
  pub close : F
  pub volume : ℤ

pub record Vwap (F : Type 0) : Type 0 where
  pub cum_pv : F
  pub cum_vol : ℤ
  pub vwap : F
  pub date : Option String

-- what the four dictionaries hold of one stock
pub record Stock (F : Type 0) : Type 0 where
  pub current : Option (Bar F)
  pub completed : List (Bar F)
  pub vwap : Vwap F
  pub volume_history : List ℤ

abbrev pub Engine : Type 0 → Type 0
Engine F = String → Stock F

abbrev pub is_date : Option String → String → Bool
is_date none today = false
is_date (some d) today = d == today

unfoldable pub sum_ℤ : List ℤ → ℤ
sum_ℤ [] = pos 0
sum_ℤ (x ∷ xs) = x +ℤ sum_ℤ xs

module _ {ℓ} {A : Type ℓ} where
  -- `xs[-n:]`, which is all of the list for n = 0
  unfoldable pub slice_last : ℕ → List A → List A
  slice_last zero xs = xs
  slice_last (suc n) xs = last_of (suc n) xs

  -- `xs.append(x)`, cut to the last `n` where there are more
  unfoldable pub append_bounded : ℕ → List A → A → List A
  append_bounded n xs x =
      let longer = xs ++ (x ∷ []) in if ltb n (length longer) then slice_last n longer else longer

module _ {F : Type 0} ⦃num : Float F⦄ where
  open num use {of_int, floor, add, mul, div, lt}

  unfoldable pub empty_stock : Stock F
  empty_stock = record {
    current = none;
    completed = [];
    vwap = record { cum_pv = whole 0; cum_vol = pos 0; vwap = whole 0; date = none };
    volume_history = [];
  }

  unfoldable pub bar_ts : ℤ → F → ℤ
  bar_ts interval now = floor (div now (of_int interval)) *ℤ interval

  unfoldable pub daily_vwap : String → Vwap F → Vwap F
  daily_vwap today v =
      if not (is_date v.date today)
      then record { cum_pv = whole 0; cum_vol = pos 0; vwap = whole 0; date = some today }
      else v

  unfoldable pub add_volume : F → ℤ → Vwap F → Vwap F
  add_volume price volume v =
      if ltb_ℤ (pos 0) volume
      then (let cum_pv = add v.cum_pv (mul price (of_int volume)) in
          let cum_vol = v.cum_vol +ℤ volume in
          record {
            cum_pv = cum_pv;
            cum_vol = cum_vol;
            vwap = if ltb_ℤ (pos 0) cum_vol then div cum_pv (of_int cum_vol) else price;
            date = v.date;
          })
      else v

  unfoldable pub new_bar : ℤ → F → ℤ → Bar F
  new_bar ts price volume = record {
    timestamp = ts;
    start = price;
    high = price;
    low = price;
    close = price;
    volume = volume;
  }

  unfoldable pub extend : F → ℤ → Bar F → Bar F
  extend price volume bar = record {
    timestamp = bar.timestamp;
    start = bar.start;
    high = fmax bar.high price;
    low = fmin bar.low price;
    close = price;
    volume = bar.volume +ℤ volume;
  }

  -- the current bar of the tick, with the bar that it completes
  unfoldable pub update_bar :
      ℕ → ℤ → F → ℤ → Vwap F → Option (Bar F) → Stock F → Stock F × Option (Bar F)
  update_bar max_history ts price volume v none s = (
    record {
      current = some (new_bar ts price volume);
      completed = s.completed;
      vwap = v;
      volume_history = s.volume_history;
    },
    none,
  )
  update_bar max_history ts price volume v (some bar) s =
      if not (eqb_ℤ bar.timestamp ts)
      then (
        record {
          current = some (new_bar ts price volume);
          completed = append_bounded max_history s.completed bar;
          vwap = v;
          volume_history = append_bounded max_history s.volume_history bar.volume;
        },
        some bar,
      )
      else (
        record {
          current = some (extend price volume bar);
          completed = s.completed;
          vwap = v;
          volume_history = s.volume_history;
        },
        none,
      )

  unfoldable pub update_stock : ℤ → ℕ → F → String → F → ℤ → Stock F → Stock F × Option (Bar F)
  update_stock interval max_history now today price volume s =
      update_bar max_history (bar_ts interval now) price volume
        (add_volume price volume (daily_vwap today s.vwap)) s.current s

  unfoldable pub update : ℤ → ℕ → F → String → String → F → ℤ → Engine F → Engine F × Option (Bar F)
  update interval max_history now today code price volume engine =
      let (s, completed_bar) =
        update_stock interval max_history now today price volume (engine code) in
      ((λ c. if c == code then s else engine c), completed_bar)

  unfoldable pub get_vwap : String → Engine F → F
  get_vwap code engine = (engine code).vwap.vwap

  abbrev pub volume_of : Option (Bar F) → ℤ
  volume_of none = pos 0
  volume_of (some bar) = bar.volume

  -- the average of a history, and the ratio to it
  abbrev pub average_of : List ℤ → F
  average_of [] = whole 0
  average_of (x ∷ xs) = div (of_int (sum_ℤ (x ∷ xs))) (of_int (pos (length (x ∷ xs))))

  unfoldable pub get_volume_info : String → Engine F → ℤ × F × F
  get_volume_info code engine =
      let s = engine code in
      let current_vol = volume_of s.current in
      let avg_vol = average_of s.volume_history in
      (
        current_vol,
        avg_vol,
        if lt (whole 0) avg_vol then div (of_int current_vol) avg_vol else whole 0,
      )

  unfoldable pub get_recent_bars : ℕ → String → Engine F → List (Bar F)
  get_recent_bars count code engine = slice_last count (engine code).completed

  abbrev pub close_of : Option (Bar F) → Option F
  close_of none = none
  close_of (some bar) = some bar.close

  unfoldable pub get_current_price : String → Engine F → Option F
  get_current_price code engine = close_of (engine code).current

  unfoldable pub bar_count : String → Engine F → ℕ
  bar_count code engine = length (engine code).completed
