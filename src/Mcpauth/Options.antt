-- ===== src/Mcpauth/Options.antt =====
-- internal/mcpauth/mcpauth.go, `Options` and `New`, and internal/mcpauth/cimd.go, `CIMDOptions` and
-- `newCIMDResolver`: the construction of the authorization server. Durations are in nanoseconds, and
-- may be negative.
pub mod Configured
use oidc_proxy.Base.{
  ℕ, zero, suc, ◌*◌, Bool, not, Option, none, some, List, [], ◌∷◌, Text, codes, trim_char,
  trim_right, ◌==◌, is_empty, if◌then◌else◌, ℤ, pos, negsuc, Result, ok, err,
}
use oidc_proxy.Url.{Url}
use oidc_proxy.TtlCache.{TtlCache}
use oidc_proxy.Mcpauth.Jose.{second}
use oidc_proxy.Mcpauth.Artifacts.{◌>>=◌}
use oidc_proxy.Mcpauth.AuthServer.{AuthServer}
use oidc_proxy.Mcpauth.Keys.{KeyMaterial}
use oidc_proxy.Mcpauth.Keys.Load.{KeyTools, load_keys}
use oidc_proxy.Mcpauth.Scope.{unsupported_scope}
use oidc_proxy.Mcpauth.Resource.{require_https_url, normalize_resource, derive_prm_url}
use oidc_proxy.Mcpauth.ReplayGuard.{MemoryReplayGuard, new_memory_replay_guard}
use oidc_proxy.Mcpauth.Cimd.{HttpResponse, CimdResolver, CimdEntry, CimdCache, normalize_hosts}

pub record CimdOptions : Type 0 where
  pub enabled : Bool
  pub allowed_hosts : List Text
  pub allow_private_hosts : Bool
  pub cache_ttl : ℤ
  pub cache_size : ℤ
  pub timeout : ℤ

pub record Options : Type 0 where
  pub issuer : Text
  pub resource : Text
  pub resource_docs : Text
  pub scopes_supported : List Text
  pub required_scopes : List Text
  pub signing_key_pem : Text
  pub signing_kid : Text
  pub enc_key_b64 : Text
  pub access_ttl : ℤ
  pub refresh_ttl : ℤ
  pub code_ttl : ℤ
  pub auth_req_ttl : ℤ
  pub cimd : CimdOptions

-- `orDefault(d, def)`; also the test of the cache size in `newCIMDResolver`
unfoldable pub or_default : ℤ → ℕ → ℕ
or_default (pos zero) default = default
or_default (pos (suc n)) default = suc n
or_default (negsuc n) default = default

abbrev pub default_replay_guard_size : ℕ
default_replay_guard_size = 8192

abbrev pub default_cimd_cache_size : ℕ
default_cimd_cache_size = 512

abbrev pub default_cimd_cache_ttl : ℕ
default_cimd_cache_ttl = 15 * 60 * second

-- The scopes that are advertised.
abbrev pub scopes_of : Options → List Text
scopes_of opts = if is_empty opts.scopes_supported then codes "mcp" ∷ [] else opts.scopes_supported

-- `url_string` is `u.String()`.
module _ (t : KeyTools) (url_string : Url → Text) where
  -- The server that `New` assembles once every part of the options has been accepted.
  unfoldable pub assemble : Options → Url → Url → KeyMaterial → List Text → AuthServer
  assemble opts issuer resource keys scopes = record {
    issuer = trim_right (λ c. c == b'/') (url_string issuer);
    resource = url_string resource;
    resource_docs = opts.resource_docs;
    scopes_supported = scopes;
    required_scopes = opts.required_scopes;
    access_ttl = or_default opts.access_ttl (15 * 60 * second);
    refresh_ttl = or_default opts.refresh_ttl (30 * 24 * 3600 * second);
    code_ttl = or_default opts.code_ttl (60 * second);
    auth_req_ttl = or_default opts.auth_req_ttl (5 * 60 * second);
    keys = keys;
    cimd_enabled = opts.cimd.enabled;
    canonical_resource = normalize_resource resource;
    prm_url = derive_prm_url resource;
    resource_suffix = trim_char b'/' resource.path;
    issuer_suffix = trim_char b'/' issuer.path;
  }

  unfoldable pub new_auth_server : Options → Result AuthServer
  new_auth_server opts = do
    issuer ← require_https_url (codes "MCP_ISSUER") opts.issuer
    resource ← require_https_url (codes "MCP_RESOURCE") opts.resource
    keys ← load_keys t opts.signing_key_pem opts.signing_kid opts.enc_key_b64
    _ ← unsupported_scope (scopes_of opts) opts.required_scopes
    ok (assemble opts issuer resource keys (scopes_of opts))

-- `fetch_url` is the guarded client of the resolver.
unfoldable pub new_cimd_resolver : (ℕ → Text → Result HttpResponse) → CimdOptions → CimdResolver
new_cimd_resolver fetch_url opts = record {
  fetch_url = fetch_url;
  allowed = normalize_hosts opts.allowed_hosts;
  default_ttl = or_default opts.cache_ttl default_cimd_cache_ttl;
}

module _ (c : TtlCache) where
  unfoldable pub new_cimd_cache : CimdOptions → CimdCache c
  new_cimd_cache opts = c.create CimdEntry (or_default opts.cache_size default_cimd_cache_size)

  -- The guard of a server for which the options name none.
  unfoldable pub new_guard : MemoryReplayGuard c
  new_guard = new_memory_replay_guard c default_replay_guard_size
