-- ===== src/Scout/Enriched.antt =====
-- The records of prime_jennie/services/scout/enrichment.py and the prices of prime_jennie/domain/stock.py,
-- with the fields that the quant score reads.
use prime_jennie.Prelude.{Option, List, String}
use prime_jennie.Prelude.Int.{ℤ}
use prime_jennie.Services.Calls.{DailyPrice}

pub record StockSnapshot : Type 0 where
  pub price : ℤ
  pub high_52w : Option ℤ

pub record InvestorTradingSummary (F : Type 0) : Type 0 where
  pub foreign_net_buy_sum : F
  pub institution_net_buy_sum : F
  pub foreign_ratio_trend : Option F

pub record FinancialTrend (F : Type 0) : Type 0 where
  pub per : Option F
  pub pbr : Option F
  pub roe : Option F

pub record ConsensusInfo (F : Type 0) : Type 0 where
  pub forward_per : Option F
  pub forward_roe : Option F
  pub eps_revision_pct : Option F

-- the master data is the code of the stock
pub record EnrichedCandidate (F : Type 0) : Type 0 where
  pub stock_code : String
  pub snapshot : Option StockSnapshot
  pub daily_prices : List DailyPrice
  pub news_sentiment_avg : Option F
  pub investor_trading : Option (InvestorTradingSummary F)
  pub financial_trend : Option (FinancialTrend F)
  pub consensus : Option (ConsensusInfo F)
  pub sector_avg_return_20d : Option F
