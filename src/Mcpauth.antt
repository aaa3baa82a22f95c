-- ===== src/Mcpauth.antt =====
-- The package internal/mcpauth: the authorization server's types, keys, artifacts and checks.
pub mod Artifacts
pub mod AuthServer
pub mod Cimd
pub mod Claims
pub mod Client
pub mod Jose
pub mod Keys
pub mod Pkce
pub mod RedirectUri
pub mod ReplayGuard
pub mod Scope
pub mod Resource
pub mod Options
pub mod Dial
pub mod Metadata
