-- ===== src/Bff.antt =====
-- The owner's console (internal/transport/bff).
pub mod Session
pub mod Oauth
pub mod Login
pub mod Gate
pub mod Keys
pub mod Console
mod Tests
