-- ===== src/Scout.antt =====
-- prime_jennie/services/scout: the quant score, the analyst, the budget of the sectors and the watchlist.
pub mod Budget
pub mod Select
pub mod Enriched
pub mod Factors
pub mod Quant
pub mod Score
pub mod Analyst
mod Caps
mod Picked
mod Mapped
mod Ranges
mod Traded
mod Momentum
mod Technical
mod Scored
mod Analysed
mod Tests
