-- ===== src/DbQuery.antt =====
-- The check of who may touch which table (internal/dbquery/tableisolation.go).
pub mod Scan
pub mod Ownership
mod Tests
