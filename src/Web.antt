-- ===== src/Web.antt =====
-- The package internal/web: requests, responses, sessions, limits and the handlers.
pub mod Access
pub mod McpVerify
pub mod RateLimiter
pub mod Response
pub mod Token
pub mod Session
pub mod Handlers
pub mod Authorize
pub mod Register
pub mod Discovery
pub mod Pages
pub mod Routes
