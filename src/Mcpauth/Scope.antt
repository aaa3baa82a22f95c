-- ===== src/Mcpauth/Scope.antt =====
-- internal/mcpauth/mcpauth.go, the scopes: which are granted and which a token must hold.
pub mod Words
pub mod Grant
use oidc_proxy.Base.{
  Bool, true, false, not, List, [], ◌∷◌, ◌++◌, Text, fields, join, contains, is_empty, all,
  if◌then◌else◌, Message, Result, ok, err,
}

-- The loop of `GrantScope` over the requested scopes; `granted` is what it has collected.
unfoldable pub grant_loop : List Text → List Text → List Text → Result (List Text)
grant_loop supported granted [] = ok granted
grant_loop supported granted (f ∷ requested) =
    let rest =
      grant_loop supported (if contains granted f then granted else granted ++ f ∷ []) requested in
    if not (contains supported f)
    then err (record { format = "scope %q is not supported"; args = f ∷ [] })
    else rest

abbrev pub join_result : Result (List Text) → Result Text
join_result (ok l) = ok (join l)
join_result (err e) = err e

-- `GrantScope(requested)`, where `supported` is `ScopesSupported`
unfoldable pub grant_scope : List Text → Text → Result Text
grant_scope supported requested =
    let wanted = fields requested in
    if is_empty wanted then ok (join supported) else join_result (grant_loop supported [] wanted)

-- `RequiredScope()`
unfoldable pub required_scope : List Text → Text
required_scope required = join required

-- `HasRequiredScopes(tokenScope)`
unfoldable pub has_required_scopes : List Text → Text → Bool
has_required_scopes required token_scope =
    if is_empty required then true else all (contains (fields token_scope)) required

-- The check of `New`: every required scope is supported.
unfoldable pub unsupported_scope : List Text → List Text → Result (Unit {0})
unsupported_scope supported [] = ok tt
unsupported_scope supported (s ∷ required) =
    if not (contains supported s)
    then err (record {
      format = "MCP_REQUIRED_SCOPES: %q is not in MCP_SCOPES_SUPPORTED";
      args = s ∷ [];
    })
    else unsupported_scope supported required
