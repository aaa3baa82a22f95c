-- ===== src/Mcpauth/Resource.antt =====
-- internal/mcpauth/mcpauth.go, the resource and the URLs: `MatchesResource`, `requireHTTPSURL`,
-- `normalizeResource`, `derivePRMURL`, the endpoints.
use oidc_proxy.Base.{
  Bool, false, not, ◌||◌, none, some, [], ◌∷◌, ◌++◌, Text, codes, text_eq, to_lower, trim_space,
  trim_right, ◌==◌, is_empty, if◌then◌else◌, Result, ok, err,
}
use oidc_proxy.Url.{Url, url_parse}
use oidc_proxy.Mcpauth.AuthServer.{AuthServer}

unfoldable pub normalize_resource : Url → Text
normalize_resource u =
    let out = to_lower u.scheme ++ codes "://" ++ to_lower u.host ++ u.path in
    if not (is_empty u.raw_query) then out ++ codes "?" ++ u.raw_query else out

-- `MatchesResource(got)`, where `canonical` is `canonicalResource`
unfoldable pub matches_resource : Text → Text → Bool
matches_resource canonical got = if is_empty got then false else elim (url_parse got) [
  | none ↦ false
  | some u ↦
      if is_empty u.scheme || is_empty u.host || not (is_empty u.fragment)
      then false
      else text_eq (normalize_resource u) canonical
]

-- `requireHTTPSURL(name, raw)`; the name stands in the format of its errors
unfoldable pub require_https_url : Text → Text → Result Url
require_https_url name raw = elim (url_parse (trim_space raw)) [
  | none ↦ err (record { format = "%s: %w"; args = name ∷ [] })
  | some u ↦
      if not (text_eq u.scheme (codes "https"))
      then err (record { format = "%s must be an https:// URL, got %q"; args = name ∷ raw ∷ [] })
      else if is_empty u.host
      then err (record { format = "%s must include a host, got %q"; args = name ∷ raw ∷ [] })
      else if not (is_empty u.fragment)
      then err (record { format = "%s must not contain a fragment"; args = name ∷ [] })
      else ok u
]

unfoldable pub derive_prm_url : Url → Text
derive_prm_url u =
    let base = to_lower u.scheme ++ codes "://" ++ to_lower u.host in
    let path = trim_right (λ c. c == b'/') u.path in
    if is_empty path
    then base ++ codes "/.well-known/oauth-protected-resource"
    else base ++ codes "/.well-known/oauth-protected-resource" ++ path

abbrev pub authorization_endpoint : AuthServer → Text
authorization_endpoint srv = srv.issuer ++ codes "/oauth2/authorize"

abbrev pub token_endpoint : AuthServer → Text
token_endpoint srv = srv.issuer ++ codes "/oauth2/token"

abbrev pub registration_endpoint : AuthServer → Text
registration_endpoint srv = srv.issuer ++ codes "/oauth2/register"

abbrev pub jwks_uri : AuthServer → Text
jwks_uri srv = srv.issuer ++ codes "/oauth2/jwks.json"
