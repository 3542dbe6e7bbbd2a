-- ===== src/Services/Calls.antt =====
-- The calls that the executors make, with what they answer. The other side is an environment that
-- may answer anything, or raise, and may take into account all that was called before.
use prime_jennie.Prelude.{ℕ, Bool, true, false, Option, none, some, List, String}
use prime_jennie.Prelude.Int.{ℤ}
use prime_jennie.Enums.{OrderType, SectorGroup}
use prime_jennie.Config.Sell.{Text}

-- The Redis keys; a code is the stock code that ends the key.
pub data Key : Type 0 where
  lock_buy lock_sell : String → Key
  emergency_stop dryrun : Key
  stoploss_cooldown sell_cooldown : String → Key
  buy_count : Key

-- `Position` of prime_jennie/domain/portfolio.py: the fields that the executors and the monitor read. The
-- time of the purchase is in microseconds.
pub record Position : Type 0 where
  pub stock_code : String
  pub stock_name : String
  pub quantity : ℤ
  pub average_buy_price : ℤ
  pub total_buy_amount : ℤ
  pub current_price : Option ℤ
  pub current_value : Option ℤ
  pub sector_group : Option SectorGroup
  pub bought_at : Option ℤ

-- `OrderRequest` and `OrderResult` of prime_jennie/domain/trading.py.
pub record OrderRequest : Type 0 where
  pub stock_code : String
  pub quantity : ℤ
  pub order_type : OrderType
  pub price : Option ℤ

pub record OrderResult : Type 0 where
  pub success : Bool
  pub order_no : Option String
  pub stock_code : String
  pub quantity : ℤ
  pub price : ℤ

-- The answer of the gateway on the state of an order, and what `confirm_order` makes of it.
pub record OrderStatus (F : Type 0) : Type 0 where
  pub filled : Bool
  pub filled_qty : ℤ
  pub avg_price : F

pub record Fill (F : Type 0) : Type 0 where
  pub filled_qty : ℤ
  pub avg_price : F

pub record DailyPrice : Type 0 where
  pub high_price : ℤ
  pub low_price : ℤ
  pub close_price : ℤ
  pub volume : ℤ

pub data Call : Type 0 where
  -- the time of the day in Seoul, in microseconds
  clock : Call
  -- `get`, `set(…, nx=True, ex=ttl)`, `setex`, `delete`, `incr` with `expire`
  redis_get : Key → Call
  redis_set_nx : Key → ℕ → Call
  redis_setex : Key → ℤ → Call
  redis_delete : Key → Call
  redis_incr : Key → ℕ → Call
  -- the pipeline that deletes the four keys of a position
  redis_clear : String → Call
  -- `hget` of the dynamic budget of a sector, and the cap in its JSON
  sector_cap : SectorGroup → Call
  kis_price : String → Call
  kis_positions : Call
  kis_balance : Call
  kis_daily_prices : String → ℕ → Call
  kis_buy kis_sell : OrderRequest → Call
  kis_cancel : String → Call
  kis_status : String → Call

abbrev pub Answer : Type 0 → Call → Type 0
Answer F Call.clock = ℕ
Answer F (Call.redis_get k) = Option Text
Answer F (Call.redis_set_nx k ttl) = Bool
Answer F (Call.redis_setex k ttl) = Unit
Answer F (Call.redis_delete k) = Unit
Answer F (Call.redis_incr k ttl) = Unit
Answer F (Call.redis_clear code) = Unit
Answer F (Call.sector_cap sector) = Option ℤ
Answer F (Call.kis_price code) = ℤ
Answer F Call.kis_positions = List Position
Answer F Call.kis_balance = ℤ
Answer F (Call.kis_daily_prices code days) = List DailyPrice
Answer F (Call.kis_buy order) = OrderResult
Answer F (Call.kis_sell order) = OrderResult
Answer F (Call.kis_cancel order_no) = Bool
Answer F (Call.kis_status order_no) = OrderStatus F

-- Whether a call was made with success: a lock was granted, an order was accepted; any other call
-- counts if it did not raise.
abbrev pub went_well : (F : Type 0) (c : Call) → Option (Answer F c) → Bool
went_well F c none = false
went_well F (Call.redis_set_nx k ttl) (some b) = b
went_well F (Call.kis_buy order) (some r) = r.success
went_well F (Call.kis_sell order) (some r) = r.success
went_well F c (some a) = true

pub record Event : Type 0 where
  pub call : Call
  pub well : Bool

-- All calls so far, the last one first.
abbrev pub History : Type 0
History = List Event

pub record Env (F : Type 0) : Type 0 where
  pub respond : History → (c : Call) → Option (Answer F c)
