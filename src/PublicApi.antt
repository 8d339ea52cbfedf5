-- ===== src/PublicApi.antt =====
-- The API of the collectors and of agents (internal/transport/publicapi, with the routes of
-- cmd/server/main.go).
pub mod Middleware
pub mod Usage
pub mod Keys
