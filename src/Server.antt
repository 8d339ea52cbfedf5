-- ===== src/Server.antt =====
-- The running service (cmd/server/main.go): its routes, and what its tables go through.
pub mod Keys
pub mod Reports
mod Tests
