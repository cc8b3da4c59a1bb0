-- ===== src/Treasury.antt =====
-- The flows between treasuries and purses: the daily functions of internal/engine/market.go.
pub mod Poverty
pub mod Taxes
pub mod Wages
pub mod Garrison
pub mod Decay
pub mod Food
