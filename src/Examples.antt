-- ===== src/Examples.antt =====
-- The theorems at concrete inputs, with a table for the TTL cache and a small stand-in for `go-jose`,
-- and runs of the definitions.
pub mod ToyJose
mod Guard
mod Strings
mod Tokens
mod Endpoint
mod Sessions
mod Consent
mod Delivered
mod Register
mod Routes
mod Options
