-- ===== src/World.antt =====
-- The hex grid (internal/world) and the walk over it that prices a journey (internal/engine/market.go).
pub mod Hex
pub mod Route
