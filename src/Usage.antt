-- ===== src/Usage.antt =====
-- The usage domain of the core service (internal/domain/usage).
pub mod Floats
pub mod Pricing
pub mod Calendar
pub mod Event
pub mod Summary
pub mod Repo
pub mod Service
pub mod Machines
pub mod Window
pub mod Tests
