-- ===== src/Mcpauth/AuthServer.antt =====
-- internal/mcpauth/mcpauth.go, the type `AS`: the configuration of the authorization server. Its
-- replay guard and its metadata cache are state, and stand in the state of the web server.
use oidc_proxy.Base.{ℕ, Bool, List, Text}
use oidc_proxy.Mcpauth.Keys.{KeyMaterial}

-- The lifetimes are in nanoseconds.
pub record AuthServer : Type 0 where
  pub issuer : Text
  pub resource : Text
  pub resource_docs : Text
  pub scopes_supported : List Text
  pub required_scopes : List Text
  pub access_ttl : ℕ
  pub refresh_ttl : ℕ
  pub code_ttl : ℕ
  pub auth_req_ttl : ℕ
  pub keys : KeyMaterial
  pub cimd_enabled : Bool
  pub canonical_resource : Text
  pub prm_url : Text
  pub resource_suffix : Text
  pub issuer_suffix : Text
