-- ===== src/Web/McpVerify.antt =====
-- internal/web/mcp.go, `handleMCPVerify` and `wwwAuthenticate`: the check of an access token that the
-- reverse proxy asks for before every request to the resource server.
pub mod Admitted
use oidc_proxy.Base.{
  ℕ, Bool, true, false, not, ◌||◌, Option, none, some, List, [], ◌∷◌, ◌++◌, String, Text, codes,
  leb, length, take, drop, text_eq, to_lower, trim_space, is_empty, if◌then◌else◌, Result, ok, err,
}
use oidc_proxy.Http.{get, Request}
use oidc_proxy.Mcpauth.Jose.{Jose}
use oidc_proxy.Mcpauth.AuthServer.{AuthServer}
use oidc_proxy.Mcpauth.Claims.{AccessClaims}
use oidc_proxy.Mcpauth.Scope.{required_scope, has_required_scopes}
use oidc_proxy.Mcpauth.Artifacts.{verify_access_token}
use oidc_proxy.Web.Access.{AccessPolicy, user_allowed}
use oidc_proxy.Web.Response.{Response, bare, http_error}

-- `Bearer `
abbrev pub bearer_prefix : Text
bearer_prefix = codes "Bearer "

-- The token of an `Authorization` header: `none` where the header does not start with the prefix, in
-- any case of its letters, or has nothing after it.
unfoldable pub bearer_token : Text → Option Text
bearer_token authz =
    if leb (length authz) (length bearer_prefix)
      || not (text_eq (to_lower (take (length bearer_prefix) authz)) (to_lower bearer_prefix))
    then none
    else some (trim_space (drop (length bearer_prefix) authz))

-- `wwwAuthenticate(errCode)`
unfoldable pub www_authenticate : AuthServer → Text → Text
www_authenticate srv err_code =
    let scope = required_scope srv.required_scopes in
    codes "Bearer resource_metadata=\""
    ++ srv.prm_url
    ++ codes "\""
    ++ (if is_empty err_code then [] else codes ", error=\"" ++ err_code ++ codes "\"")
    ++ (if is_empty scope then [] else codes ", scope=\"" ++ scope ++ codes "\"")

-- A header that is set only if its value is not empty.
abbrev pub header_if : String → Text → List (String × Text)
header_if name value = if is_empty value then [] else (name, value) ∷ []

-- The headers that name the user of a request that passes.
abbrev pub identity_headers : Text → Text → List (String × Text)
identity_headers email subject =
    header_if "X-Auth-Request-Email" email ++ header_if "X-Auth-Request-User" subject

module _ (j : Jose) (srv : AuthServer) (policy : AccessPolicy) (now : ℕ) where
  abbrev pub challenge : String → List (String × Text)
  challenge err_code = ("WWW-Authenticate", www_authenticate srv (codes err_code)) ∷ []

  -- The checks on a verified token.
  unfoldable pub admit : AccessClaims → Response
  admit claims =
      if not (user_allowed policy claims.email)
      then http_error [] "forbidden" 403
      else if not (has_required_scopes srv.required_scopes claims.scope)
      then http_error (challenge "insufficient_scope") "insufficient scope" 403
      else bare (identity_headers claims.email claims.claims.subject) 200

  unfoldable pub handle_mcp_verify : Request → Response
  handle_mcp_verify r =
      let authz = get r.header "Authorization" in
      if is_empty authz
      then http_error (challenge "") "unauthorized" 401
      else elim (bearer_token authz) [
        | none ↦ http_error (challenge "invalid_request") "invalid authorization header" 401
        | some token ↦ elim (verify_access_token j srv now token) [
          | err e ↦ http_error (challenge "invalid_token") "invalid token" 401
          | ok claims ↦ admit claims
        ]
      ]
