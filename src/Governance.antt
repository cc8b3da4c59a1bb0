-- ===== src/Governance.antt =====
-- internal/engine/governance.go, as far as it is modelled.
pub mod Revolution
