-- ===== src/Monitor/Runs.antt =====
-- Sequences of ticks in prime_jennie/services/monitor/app.py, between two refreshes of the positions.
use prime_jennie.Prelude.{◌+◌, ◌≤◌, refl, false, List, [], ◌∷◌, String, if◌then◌else◌, arith}
use prime_jennie.Float.{Float}
use prime_jennie.Float.Order.{IsOrdered}
use prime_jennie.Config.Sell.{SellConfig}
use prime_jennie.Monitor.State.{Monitor, Readings, Done, done}
use prime_jennie.Monitor.Tick.{after, process_tick}
use prime_jennie.Monitor.Sales.{full_sales, Spends, idle-Spends, full_sales-append, none_free}
use prime_jennie.Monitor.Pending.{process_tick-Spends}

-- a tick, with what may be read while it is processed
pub record Tick (F : Type 0) : Type 0 where
  pub readings : Readings F
  pub stock_code : String
  pub price : F

module _ {F : Type 0} ⦃num : Float F⦄ (cfg : SellConfig F) where
  -- An exception of one tick does not stop the next.
  unfoldable pub process_ticks : Monitor F → List (Tick F) → Done F
  unfolding process_tick
  process_ticks m [] = done m []
  process_ticks m (t ∷ ts) =
      let d = process_tick cfg t.readings m t.stock_code t.price in
      after d.effects (process_ticks d.state ts)

  process_ticks-Spends :
      (laws : IsOrdered num) (code : String) (m : Monitor F) (ts : List (Tick F))
      → Spends code m (process_ticks m ts)
  unfolding process_ticks
  process_ticks-Spends laws code m [] = idle-Spends code m m [] false (none_free F code) refl
  process_ticks-Spends laws code m (t ∷ ts) =
      let d = process_tick cfg t.readings m t.stock_code t.price in
      record {
        spent = omega (
          arith,
          full_sales-append code d.effects (process_ticks d.state ts).effects,
          (process_tick-Spends code laws cfg t.readings m t.stock_code t.price).spent,
          (process_ticks-Spends laws code d.state ts).spent,
        );
      }

  -- For floats with the laws of order, over any sequence of ticks and for every stock: the orders
  -- that are published to sell it for a reason that sells all shares (every reason but an overbought
  -- RSI and a profit target, which may be a scale-out), forced or not, are at most one, and none
  -- where a sale was under way before. Such an order leaves the mark of a sale under way.
  pub process_ticks_once :
      (laws : IsOrdered num) (code : String) (m : Monitor F) (ts : List (Tick F))
      → let d = process_ticks m ts in
        full_sales code d.effects + (if d.state.pending_sell code then 0 else 1)
        ≤ (if m.pending_sell code then 0 else 1)
  process_ticks_once laws code m ts = (process_ticks-Spends laws code m ts).spent
