-- ===== src/Examples/Strings.antt =====
-- Scopes, redirect URIs, cache lifetimes, redirect targets and the user lists.
use oidc_proxy.Base.{
  ℕ, ◌*◌, ◌≤◌, ◌≡◌, ◌≢◌, ◌↔◌, ◌⊎◌, inl, inr, refl, Bool, true, false, Option, none, some, List, [],
  ◌∷◌, Text, arith, codes, All, In, AnyOf, fields, contains_text, Result, ok, ℤ, pos, text_eq,
  to_lower,
}
use oidc_proxy.Mcpauth.Jose.{second}
use oidc_proxy.Url.{Url}
use oidc_proxy.Mcpauth.Scope.{grant_scope, has_required_scopes, unsupported_scope}
use oidc_proxy.Mcpauth.Scope.Words.{IsWord}
use oidc_proxy.Mcpauth.Scope.Grant.{
  Grants, grant_scope-Grants, grant_scope_iff, grant_scope-default,
}
use oidc_proxy.Mcpauth.RedirectUri.{match_redirect_uri, validate_redirect_uri}
use oidc_proxy.Mcpauth.RedirectUri.Laws.{
  IsLoopbackCandidate, Vouches, match_redirect_uri_iff, match_redirect_uri-valid,
}
use oidc_proxy.Mcpauth.Cimd.Duration.{
  cimd_min_ttl, cimd_max_ttl, cache_ttl, ttl_of_parts, cache_ttl_bounds, max_age_honoured,
  max_age_overflow,
}

abbrev supported : List Text
supported = codes "mcp" ∷ codes "admin" ∷ []

words : All IsWord supported
unfolding codes oidc_proxy.Base.is_space
words = (
  ((λ e. absurd (ground arith)), (refl, (refl, (refl, tt)))),
  (((λ e. absurd (ground arith)), (refl, (refl, (refl, (refl, (refl, tt)))))), tt),
)

grant_scope-Grants_example : Grants supported (codes "admin mcp admin") (codes "admin mcp")
unfolding codes grant_scope fields oidc_proxy.Mcpauth.Scope.grant_loop oidc_proxy.Base.contains
    text_eq oidc_proxy.Base.join
grant_scope-Grants_example =
    grant_scope-Grants supported (codes "admin mcp admin") (codes "admin mcp") words refl

grant_scope_iff_example :
    ((s : Text) × (grant_scope supported (codes "mcp root") ≡ ok s))
    ↔ All (λ f. In f supported) (fields (codes "mcp root"))
grant_scope_iff_example = grant_scope_iff supported (codes "mcp root")

grant_scope-default_example : has_required_scopes (codes "mcp" ∷ []) (codes "mcp admin") ≡ true
unfolding codes unsupported_scope oidc_proxy.Base.contains text_eq fields grant_scope
    oidc_proxy.Base.join
grant_scope-default_example =
    grant_scope-default supported (codes "mcp" ∷ []) [] (codes "mcp admin") words refl refl refl

abbrev registered : List Text
registered = codes "http://localhost/cb" ∷ codes "https://app.test/cb" ∷ []

match_redirect_uri_iff_example :
    (match_redirect_uri registered (codes "http://localhost:4000/cb") ≡ true) ↔ (
      (codes "http://localhost:4000/cb" ≢ [])
      × (AnyOf (λ (t : Text). t ≡ codes "http://localhost:4000/cb") registered
          ⊎ ((got : Url) × IsLoopbackCandidate (codes "http://localhost:4000/cb") got
              × AnyOf (Vouches got) registered)))
match_redirect_uri_iff_example =
    match_redirect_uri_iff registered (codes "http://localhost:4000/cb")

match_redirect_uri-valid_example : validate_redirect_uri (codes "http://localhost:4000/cb") ≡ none
unfolding validate_redirect_uri oidc_proxy.Url.url_parse oidc_proxy.Url.is_abs
    oidc_proxy.Mcpauth.RedirectUri.has_fragment oidc_proxy.Mcpauth.RedirectUri.is_loopback_host
    oidc_proxy.Url.hostname oidc_proxy.Url.strip_port match_redirect_uri oidc_proxy.Base.contains
    oidc_proxy.Mcpauth.RedirectUri.match_loopback oidc_proxy.Mcpauth.RedirectUri.same_but_port
match_redirect_uri-valid_example =
    match_redirect_uri-valid registered (codes "http://localhost:4000/cb") (refl, (refl, tt)) refl
      refl

max_age_overflow_example :
    ttl_of_parts (900 * second) (codes "max-age=10000000000" ∷ []) ≡ cimd_min_ttl
unfolding oidc_proxy.Base.cut_prefix codes to_lower oidc_proxy.Base.trim_space
    oidc_proxy.Mcpauth.Cimd.Duration.atoi
max_age_overflow_example =
    max_age_overflow (900 * second) 10_000_000_000 (codes "max-age=10000000000")
      (codes "10000000000") [] refl refl (omega arith) (omega arith)
