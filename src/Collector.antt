-- ===== src/Collector.antt =====
-- The collector (internal/collector): what it reads from transcripts, how it attributes a path, and
-- what one run sends.
pub mod Pricing
pub mod Transcript
pub mod TouchedPaths
pub mod Paths
pub mod Store
pub mod Scan
pub mod Sent
pub mod Sessions
pub mod Config
pub mod Run
mod Tests
