-- ===== src/Asp.antt =====
-- The association set provider (asp/src).
pub mod Types
pub mod Policy
pub mod Guard
pub mod Monitor
pub mod Dataset
pub mod Tick
pub mod Tests
