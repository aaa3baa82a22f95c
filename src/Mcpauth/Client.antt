-- ===== src/Mcpauth/Client.antt =====
-- internal/mcpauth/mcpauth.go, `ResolveClient`: the client behind a client_id.
pub mod Resolved
use oidc_proxy.Base.{
  ℕ, Bool, true, false, not, [], Text, is_empty, if◌then◌else◌, message, Result, ok, err,
}
use oidc_proxy.TtlCache.{TtlCache}
use oidc_proxy.Mcpauth.Jose.{Jose}
use oidc_proxy.Mcpauth.AuthServer.{AuthServer}
use oidc_proxy.Mcpauth.Claims.{ClientClaims}
use oidc_proxy.Mcpauth.Artifacts.{verify_client_id}
use oidc_proxy.Mcpauth.RedirectUri.{is_url_client_id}
use oidc_proxy.Mcpauth.Cimd.{ClientMetadata, CimdResolver, CimdCache, resolve}

-- The metadata of a client that registered.
abbrev pub registered : Text → Result ClientClaims → Result ClientMetadata
registered client_id (err e) = err e
registered client_id (ok c) = ok (record {
  client_id = client_id;
  client_name = c.client_name;
  client_uri = [];
  redirect_uris = c.redirect_uris;
  cimd = false;
})

module _ (c : TtlCache) (j : Jose) (srv : AuthServer) (r : CimdResolver) (now : ℕ) where
  unfoldable pub resolve_client : Text → CimdCache c → CimdCache c × Result ClientMetadata
  resolve_client client_id s =
      if is_empty client_id
      then (s, err (message "client_id is required"))
      else if is_url_client_id client_id
      then (if not srv.cimd_enabled
          then (s, err (message "client ID metadata documents are not enabled"))
          else resolve c r now client_id s)
      else (s, registered client_id (verify_client_id j srv client_id))
