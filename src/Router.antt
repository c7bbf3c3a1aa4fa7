-- ===== src/Router.antt =====
-- The model router of task4_model_router/: rate limiter, token estimate, errors, failover, HTTP
-- surface.
pub mod Limiter
pub mod Tokens
pub mod Errors
pub mod Providers
pub mod Route
pub mod Page
pub mod App
