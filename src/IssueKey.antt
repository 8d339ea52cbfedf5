-- ===== src/IssueKey.antt =====
-- The command that issues and rotates keys (cmd/issue-key).
pub mod KeyFile
pub mod Command
mod Tests
