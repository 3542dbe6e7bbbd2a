-- ===== src/Seller/Tests.antt =====
-- A broker and a store that answer as they should, a broker that fails, and the runs of
-- prime_jennie/services/seller/executor.py against them.
use prime_jennie.Prelude.{◌≤◌, ◌≡◌, refl, true, false, Option, none, some, [], ◌∷◌, String}
use prime_jennie.Prelude.{All}
use prime_jennie.Prelude.Int.{pos, negsuc, ◌-ℤ◌}
use prime_jennie.Enums.{SellReason}
use prime_jennie.Float.{whole}
use prime_jennie.Float.Fixed.{Fixed, fixed}
use prime_jennie.Services.Calls.{Call, Answer, Position, History, Env}
use prime_jennie.Services.Action.{ok}
use prime_jennie.Services.Trace.{IsOrderly, is_sell_lock, held}
use prime_jennie.Seller.Types.{SellOrder, SellerConfig, sale, success}
use prime_jennie.Services.Action.{attempt, finally, pure, ask, ◌>>=◌}
use prime_jennie.Kis.{confirm_order, poll, seen, check_order_status}
use prime_jennie.Seller.Types.{find_held, or_this, profit_of}
use prime_jennie.Seller.Steps.{
  is_market_hours, get_positions, is_emergency_stopped, acquire_lock, release_lock, set_cooldown,
  set_sell_cooldown, cleanup_position_state,
}
use prime_jennie.Seller.Confirm.{price_or_signal, after_sale, is_dry, confirmed, confirm_sale}
use prime_jennie.Seller.Execute.{
  settle, accepted, place_order, real_sale, execute_sell, sell_at, priced_sale, sell_shares,
  if_locked, with_position, if_not_stopped, if_open, process_signal,
}
use prime_jennie.Seller.Lock.{process_signal-IsOrderly}
use prime_jennie.Services.Counts.{count, AllCalls}
use prime_jennie.Seller.Orders.{
  Places, is_sell, IsSoundOrder, process_signal_once, execute_sell-AllCalls,
}
use prime_jennie.Seller.Cooldown.{Asked, cooldowns, process_signal-Asked}

abbrev stock : String
stock = "005930"

abbrev held_position : Position
held_position = record {
  stock_code = stock;
  stock_name = "Samsung";
  quantity = pos 100;
  average_buy_price = pos 70_000;
  total_buy_amount = pos 7_000_000;
  current_price = none;
  current_value = none;
  sector_group = none;
  bought_at = none;
}

abbrev signal : SellOrder
signal = record {
  stock_code = stock;
  stock_name = "Samsung";
  sell_reason = SellReason.stop_loss;
  current_price = pos 66_500;
  quantity = pos 150;
}

abbrev settings : SellerConfig
settings = record { dry_run = false; stoploss_cooldown_days = pos 3 }

abbrev accepting : History → (c : Call) → Option (Answer Fixed c)
accepting h Call.clock = some 36_000_000_000
accepting h (Call.redis_get k) = some none
accepting h (Call.redis_set_nx k ttl) = some true
accepting h (Call.redis_setex k ttl) = some tt
accepting h (Call.redis_delete k) = some tt
accepting h (Call.redis_incr k ttl) = some tt
accepting h (Call.redis_clear code) = some tt
accepting h (Call.sector_cap sector) = some none
accepting h (Call.kis_price code) = some (pos 66_000)
accepting h Call.kis_positions = some (held_position ∷ [])
accepting h Call.kis_balance = some (pos 1_000_000)
accepting h (Call.kis_daily_prices code days) = some []
accepting h (Call.kis_buy order) = none
accepting h (Call.kis_sell order) = some (record {
  success = true;
  order_no = some "0001";
  stock_code = order.stock_code;
  quantity = order.quantity;
  price = pos 0;
})
accepting h (Call.kis_cancel order_no) = some true
accepting h (Call.kis_status order_no) =
    some (record { filled = true; filled_qty = pos 100; avg_price = whole 65_900 })

abbrev broker : Env Fixed
broker = record { respond = accepting }

was_sold :
    (sale {F = Fixed} signal "0001" (pos 100) (pos 65_900) (negsuc 5_859_999)).status ≡ success
unfolding sale
was_sold = refl

sold :
    (process_signal broker settings signal []).0
    ≡ ok (sale signal "0001" (pos 100) (pos 65_900) (negsuc 5_859_999))
unfolding process_signal if_open if_not_stopped with_position if_locked execute_sell sell_shares
    priced_sale sell_at real_sale place_order accepted settle is_market_hours is_emergency_stopped
    get_positions acquire_lock release_lock set_cooldown set_sell_cooldown cleanup_position_state
    price_or_signal is_dry confirm_sale confirmed after_sale find_held or_this profit_of sale
    confirm_order poll seen check_order_status attempt finally pure ask ◌>>=◌ ◌-ℤ◌
sold = refl

process_signal-Asked_example :
    All (λ c. Asked c (process_signal broker settings signal []).1) (cooldowns settings signal)
process_signal-Asked_example =
    process_signal-Asked broker settings signal []
      (sale signal "0001" (pos 100) (pos 65_900) (negsuc 5_859_999)) sold (was_sold)

process_signal-IsOrderly_example :
    IsOrderly is_sell_lock stock (process_signal broker settings signal []).1
    × (held is_sell_lock stock (process_signal broker settings signal []).1 ≡ false)
process_signal-IsOrderly_example = process_signal-IsOrderly broker settings signal [] tt refl

process_signal_once_example : count is_sell (process_signal broker settings signal []).1 ≤ 1
process_signal_once_example = process_signal_once broker settings signal []

execute_sell-AllCalls_example :
    AllCalls
      (Places (IsSoundOrder signal held_position))
      (execute_sell broker settings signal held_position []).1
execute_sell-AllCalls_example = execute_sell-AllCalls broker settings signal held_position [] tt
