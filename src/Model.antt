-- ===== src/Model.antt =====
-- The data model: internal/agents/types.go, internal/economy/goods.go, internal/social/settlement.go
-- and internal/agents/needs.go.
pub mod Goods
pub mod Agents
pub mod Settlements
