-- ===== src/Monitor/Tests.antt =====
-- Ticks of a held stock for prime_jennie/services/monitor/app.py.
use prime_jennie.Prelude.{
  ◌+◌, ◌≤◌, ◌≡◌, refl, true, false, none, some, List, [], ◌∷◌, codes, if◌then◌else◌,
}
use prime_jennie.Prelude.Int.{pos, ◌-ℤ◌}
use prime_jennie.Float.{whole}
use prime_jennie.Float.Fixed.{Fixed, fixed, Fixed-IsOrdered}
use prime_jennie.Config.Sell.{SellConfig, sell_defaults}
use prime_jennie.Exit.Stops.{check_hard_stop}
use prime_jennie.Services.Calls.{Position}
use prime_jennie.Monitor.State.{Monitor, Readings}
use prime_jennie.Monitor.Sales.{full_sales}
use prime_jennie.Monitor.Runs.{Tick, process_ticks, process_ticks_once}

abbrev settings : SellConfig Fixed
settings =
    sell_defaults (codes "7.0:25,15.0:25,25.0:15") (codes "2.0:25,5.0:25,8.0:25,12.0:15")
      (codes "3.0:25,7.0:25,12.0:25,18.0:15")

abbrev position : Position
position = record {
  stock_code = "005930";
  stock_name = "Samsung";
  quantity = pos 100;
  average_buy_price = pos 70_000;
  total_buy_amount = pos 7_000_000;
  current_price = none;
  current_value = none;
  sector_group = none;
  bought_at = none;
}

abbrev monitor : Monitor Fixed
monitor = record {
  positions = position ∷ [];
  rsi_cache = λ code. none;
  atr_cache = λ code. none;
  indicator_cache = λ code. none;
  pending_sell = λ code. false;
  last_snapshot_publish = whole 0;
}

abbrev readings : Readings Fixed
readings = record {
  armed = some none;
  is_target = some false;
  targets_left = none;
  context = some none;
  watermark = some none;
  profit_floor = some none;
  scale_out = some none;
  rsi_sold = some none;
  stop = some none;
  pause = some none;
  accepts = true;
  utc = pos 0;
  seconds = whole 100;
}

-- a fall by a seventh, twice
abbrev falls : List (Tick Fixed)
falls =
    record { readings = readings; stock_code = "005930"; price = whole 60_000 }
    ∷ record { readings = readings; stock_code = "005930"; price = whole 59_000 }
    ∷ []

process_ticks_once_example :
    full_sales "005930" (process_ticks settings monitor falls).effects
      + (if (process_ticks settings monitor falls).state.pending_sell "005930" then 0 else 1)
    ≤ (if false then 0 else 1)
process_ticks_once_example = process_ticks_once settings Fixed-IsOrdered "005930" monitor falls

-- The first fall is sold, and the second finds the sale under way.
falls_run : full_sales "005930" (process_ticks settings monitor falls).effects ≡ 1
unfolding process_ticks full_sales ◌-ℤ◌ check_hard_stop
falls_run = refl
