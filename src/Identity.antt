-- ===== src/Identity.antt =====
-- Users, API keys and who a request comes from (internal/identity).
pub mod Repo
pub mod Service
mod Tests
