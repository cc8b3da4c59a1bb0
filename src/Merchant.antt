-- ===== src/Merchant.antt =====
-- The merchants of internal/engine/market.go: what they buy at home, carry, and sell abroad.
pub mod Sale
pub mod Commission
pub mod Purchase
pub mod MarketSell
pub mod Seek
pub mod Turn
pub mod Round
