-- ===== src/Web/Discovery.antt =====
-- internal/web/mcp.go, discovery: `handleASMetadata`, `handleOIDCConfig`, `handlePRM`, `handleJWKS`.
use oidc_proxy.Base.{Bool, true, false, not, ◌&&◌, ◌||◌, [], text_eq, is_empty, if◌then◌else◌}
use oidc_proxy.Http.{Request}
use oidc_proxy.Mcpauth.AuthServer.{AuthServer}
use oidc_proxy.Mcpauth.Metadata.{as_metadata, pr_metadata}
use oidc_proxy.Web.Response.{Response, http_error, write_json, as_document, pr_document, key_set}

-- `http.NotFound(w, r)`
abbrev pub not_found : Response
not_found = http_error [] "404 page not found" 404

module _ (srv : AuthServer) where
  unfoldable pub issuer_suffix_matches : Request → Bool
  issuer_suffix_matches r = is_empty r.path_suffix || text_eq r.path_suffix srv.issuer_suffix

  unfoldable pub handle_as_metadata : Request → Response
  handle_as_metadata r =
      if not (issuer_suffix_matches r)
      then not_found
      else write_json (as_document (as_metadata srv false))

  unfoldable pub handle_oidc_config : Request → Response
  handle_oidc_config r =
      if not (issuer_suffix_matches r)
      then not_found
      else write_json (as_document (as_metadata srv true))

  unfoldable pub handle_prm : Request → Response
  handle_prm r =
      if not (is_empty r.path_suffix) && not (text_eq r.path_suffix srv.resource_suffix)
      then not_found
      else write_json (pr_document (pr_metadata srv))

  unfoldable pub handle_jwks : Response
  handle_jwks = write_json (key_set srv.keys.public)
