-- ===== src/Publisher.antt =====
-- The reputation root publisher (publisher/src).
pub mod Types
pub mod Validate
pub mod Merge
pub mod Store
pub mod Tick
pub mod Tests
