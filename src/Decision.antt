-- ===== src/Decision.antt =====
-- internal/decision: the pure scaling decision and the in-memory state of one resource.
pub mod Params
pub mod Cap
pub mod Ring
pub mod Store
pub mod Estimate
