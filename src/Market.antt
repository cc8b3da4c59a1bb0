-- ===== src/Market.antt =====
-- The settlement market: internal/engine/market.go over internal/economy/goods.go.
pub mod Demand
pub mod Prices
pub mod Matching
pub mod Resolve
