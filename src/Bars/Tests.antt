-- ===== src/Bars/Tests.antt =====
-- Ticks of two stocks, and the bars of prime_jennie/services/scanner/bar_engine.py.
use prime_jennie.Prelude.{refl, none, some, [], arith}
use prime_jennie.Prelude.Int.{pos}
use prime_jennie.Float.{whole}
use prime_jennie.Float.Fixed.{Fixed, fixed, Fixed-IsOrdered}
use prime_jennie.Bars.{Engine, update}
use prime_jennie.Bars.Valid.{IsValid, update-IsValid}

-- one bar under way for every stock
abbrev trading : Engine Fixed
trading code = record {
  current = some (record {
    timestamp = pos 60;
    start = whole 100;
    high = whole 105;
    low = whole 99;
    close = whole 101;
    volume = pos 10;
  });
  completed = [];
  vwap = record { cum_pv = whole 0; cum_vol = pos 0; vwap = whole 0; date = none };
  volume_history = [];
}

trading-IsValid : IsValid 2 (trading "005930")
trading-IsValid = record {
  current = record { low-start = refl; start-high = refl; low-close = refl; close-high = refl };
  completed = tt;
  bounded = omega arith;
  in_step = refl;
}

update-IsValid_example :
    IsValid 2
      ((update (pos 60) 2 (whole 130) "2026-01-05" "005930" (whole 103) (pos 5) trading).0 "005930")
update-IsValid_example =
    update-IsValid Fixed-IsOrdered (whole 103) refl (pos 5) (pos 60) 1 (whole 130) "2026-01-05"
      "005930" trading trading-IsValid
