-- ===== src/Web/McpVerify/Admitted.antt =====
-- Which requests to the resource server pass, and how the others are answered.
use oidc_proxy.Base.{
  ℕ, ◌≡◌, ◌≢◌, ◌↔◌, inl, inr, refl, ap, none, some, List, [], ◌∷◌, String, Text, arith, codes, In,
  ◌++◌, if◌then◌else◌, Message, err, All, fields, is_empty, is_empty_sound, Bool-cases,
  Option-cases, ok, Result-cases,
}
use mathlib.Core.Path.{subst}
use oidc_proxy.Http.{get, Request}
use oidc_proxy.Mcpauth.Jose.{Jose}
use oidc_proxy.Mcpauth.AuthServer.{AuthServer}
use oidc_proxy.Mcpauth.Claims.{AccessClaims}
use oidc_proxy.Mcpauth.Scope.{required_scope, has_required_scopes}
use oidc_proxy.Mcpauth.Scope.Grant.{has_required_scopes_iff}
use oidc_proxy.Mcpauth.Artifacts.{verify_access_token}
use oidc_proxy.Web.Access.{AccessPolicy, IsAdmitted, user_allowed, user_allowed_iff}
use oidc_proxy.Web.Response.{Response, http_error}
use oidc_proxy.Web.McpVerify.{bearer_token, www_authenticate, admit, handle_mcp_verify}

bearer_token-nil : bearer_token [] ≡ none
unfolding bearer_token codes
bearer_token-nil = refl

module _ (j : Jose) (srv : AuthServer) (policy : AccessPolicy) (now : ℕ) (r : Request) where
  -- A request that passes.
  pub record Admitted (claims : AccessClaims) : Type 0 where
    pub token : Text
    pub presented : bearer_token (get r.header "Authorization") ≡ some token
    pub verified : verify_access_token j srv now token ≡ ok claims
    pub user : IsAdmitted policy claims.email
    pub scopes : All (λ s. In s (fields claims.scope)) srv.required_scopes

  admit_iff :
      (claims : AccessClaims)
      → ((admit j srv policy now claims).status ≡ 200) ↔ (
          IsAdmitted policy claims.email
          × All (λ s. In s (fields claims.scope)) srv.required_scopes)
  unfolding admit http_error
  admit_iff claims = elim (Bool-cases (user_allowed policy claims.email)) [
    | inr differ ↦ (
      λ h. absurd (ground arith),
      λ (u, _). absurd (ground (arith, (user_allowed_iff policy claims.email).1 u)),
    )
    | inl user ↦ elim (Bool-cases (has_required_scopes srv.required_scopes claims.scope)) [
      | inr differ ↦ (
        λ h. absurd (ground arith),
        λ (_, s).
            absurd (ground (arith, (has_required_scopes_iff srv.required_scopes claims.scope).1 s)),
      )
      | inl scopes ↦ (
        λ h. (
          (user_allowed_iff policy claims.email).0 user,
          (has_required_scopes_iff srv.required_scopes claims.scope).0 scopes,
        ),
        λ h. rw (user, scopes, admit) refl,
      )
    ]
  ]

  -- A request passes with status 200 exactly when its Authorization header bears a token that
  -- verifies as an access token of this server, for a user whom the policy admits and with a scope
  -- that has every required scope.
  pub handle_mcp_verify_iff :
      ((handle_mcp_verify j srv policy now r).status ≡ 200)
      ↔ ((claims : AccessClaims) × Admitted claims)
  unfolding handle_mcp_verify http_error
  handle_mcp_verify_iff =
      let authz = get r.header "Authorization" in
      elim (Bool-cases (is_empty authz)) [
        | inl empty ↦ (
          λ h. absurd (ground arith),
          λ (claims, a). absurd (
              ground (
                arith,
                a.presented,
                ap bearer_token (is_empty_sound authz empty),
                bearer_token-nil,
              )),
        )
        | inr filled ↦ elim (Option-cases (bearer_token authz)) [
          | inl malformed ↦
              (λ h. absurd (ground arith), λ (claims, a). absurd (ground (arith, a.presented)))
          | inr (token, bears) ↦ elim (Result-cases (verify_access_token j srv now token)) [
            | inr (e, bad) ↦ (
              λ h. absurd (ground arith),
              λ (claims, a).
                  let same : token ≡ a.token = ground (arith, a.presented) in
                  absurd (ground (arith, a.verified, ap (verify_access_token j srv now) same)),
            )
            | inl (claims, good) ↦
                rw (filled, bears, good, handle_mcp_verify)
                  (
                    λ h.
                        let (u, s) = (admit_iff claims).0 h in
                        (
                          claims,
                          record {
                            token = token;
                            presented = bears;
                            verified = good;
                            user = u;
                            scopes = s;
                          },
                        ),
                    λ (other, a).
                        let same : token ≡ a.token = ground (arith, a.presented) in
                        let e : other ≡ claims =
                          ground
                            (arith, good, a.verified, ap (verify_access_token j srv now) same) in
                        (admit_iff claims).1 (
                          subst
                            (λ q.
                              IsAdmitted policy q.email
                              × All (λ s. In s (fields q.scope)) srv.required_scopes)
                            e (a.user, a.scopes)),
                  )
          ]
        ]
      ]

  -- The answer begins with a challenge that names the metadata of the resource, then the error, then
  -- the required scopes if there are some.
  abbrev Challenges : Text → Response → Type 0
  Challenges error response =
      let scope = required_scope srv.required_scopes in
      (rest : List (String × Text)) × (response.headers
        ≡ (
          "WWW-Authenticate",
          codes "Bearer resource_metadata=\""
              ++ srv.prm_url
              ++ codes "\""
              ++ error
              ++ (if is_empty scope then [] else codes ", scope=\"" ++ scope ++ codes "\""),
        )
          ∷ rest)

  -- The request presents a token.
  abbrev Presents : Text → Type 0
  Presents token = bearer_token (get r.header "Authorization") ≡ some token

  -- The answer to a request that does not pass, for the reason that the request gives.
  pub data IsRefusal (response : Response) : Type 0 where
    unidentified :
        get r.header "Authorization" ≡ []
        → response.status ≡ 401
        → Challenges [] response
        → IsRefusal response
    malformed :
        get r.header "Authorization" ≢ []
        → bearer_token (get r.header "Authorization") ≡ none
        → response.status ≡ 401
        → Challenges (codes ", error=\"invalid_request\"") response
        → IsRefusal response
    unverified :
        (token : Text) (e : Message)
        → Presents token
        → verify_access_token j srv now token ≡ err e
        → response.status ≡ 401
        → Challenges (codes ", error=\"invalid_token\"") response
        → IsRefusal response
    user_forbidden :
        (token : Text) (claims : AccessClaims)
        → Presents token
        → verify_access_token j srv now token ≡ ok claims
        → ¬ IsAdmitted policy claims.email
        → response.status ≡ 403
        → IsRefusal response
    scope_forbidden :
        (token : Text) (claims : AccessClaims)
        → Presents token
        → verify_access_token j srv now token ≡ ok claims
        → IsAdmitted policy claims.email
        → ¬ All (λ s. In s (fields claims.scope)) srv.required_scopes
        → response.status ≡ 403
        → Challenges (codes ", error=\"insufficient_scope\"") response
        → IsRefusal response

  admit-IsRefusal :
      (token : Text) (claims : AccessClaims)
      → Presents token
      → verify_access_token j srv now token ≡ ok claims
      → (admit j srv policy now claims).status ≢ 200
      → IsRefusal (admit j srv policy now claims)
  unfolding admit http_error www_authenticate codes
  admit-IsRefusal token claims bears good h = elim (Bool-cases (user_allowed policy claims.email)) [
    | inr refused ↦
        rw (refused, admit)
          (user_forbidden token claims bears good
            (λ u. absurd (ground (arith, (user_allowed_iff policy claims.email).1 u))) refl)
    | inl user ↦ elim (Bool-cases (has_required_scopes srv.required_scopes claims.scope)) [
      | inr lacking ↦
          rw (user, lacking, admit)
            (scope_forbidden token claims bears good ((user_allowed_iff policy claims.email).0 user)
              (λ s.
                absurd
                  (ground (arith, (has_required_scopes_iff srv.required_scopes claims.scope).1 s)))
              refl (_, refl))
      | inl scopes ↦ absurd (h (rw (user, scopes, admit) refl))
    ]
  ]

  -- A request that does not pass is answered for its own reason: without an Authorization header
  -- with 401 and a challenge without an error; for a header that bears no token with 401 and
  -- "invalid_request"; for a token that does not verify with 401 and "invalid_token"; for a token
  -- of a user whom the policy does not admit with 403; and for a token of an admitted user without
  -- some required scope with 403 and "insufficient_scope". Every challenge names the metadata of
  -- the resource and the required scopes.
  pub mcp_refused :
      (handle_mcp_verify j srv policy now r).status ≢ 200
      → IsRefusal (handle_mcp_verify j srv policy now r)
  unfolding handle_mcp_verify http_error www_authenticate codes
  mcp_refused h =
      let authz = get r.header "Authorization" in
      elim (Bool-cases (is_empty authz)) [
        | inl empty ↦
            rw (empty, handle_mcp_verify) (unidentified (is_empty_sound authz empty) refl (_, refl))
        | inr filled ↦ elim (Option-cases (bearer_token authz)) [
          | inl none_borne ↦
              rw (filled, none_borne, handle_mcp_verify)
                (malformed (λ e. absurd (ground (arith, ap is_empty e))) none_borne refl (_, refl))
          | inr (token, bears) ↦ elim (Result-cases (verify_access_token j srv now token)) [
            | inr (e, bad) ↦
                rw (filled, bears, bad, handle_mcp_verify)
                  (unverified token e bears bad refl (_, refl))
            | inl (claims, good) ↦
                rw (filled, bears, good, handle_mcp_verify)
                  (admit-IsRefusal token claims bears good
                    (rw (filled, bears, good, handle_mcp_verify) at h))
          ]
        ]
      ]
