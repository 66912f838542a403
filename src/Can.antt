-- ===== src/Can.antt =====
-- The DM-compatible CAN protocol and its runtime service (App/Comm/can).
pub mod Protocol
pub mod Policy
pub mod Transport
pub mod Service
pub mod NodeId
mod Tests
