-- ===== src/Web/Authorize/Get/Checked.antt =====
-- Which authorization requests pass steps 2 to 6 of the endpoint, for a client.
use oidc_proxy.Base.{
  ℕ, ◌≡◌, ◌≢◌, ◌↔◌, inl, inr, ap, ◌∙◌, sym, true, false, not, ◌||◌, [], Text, String, Option-cases,
  arith, codes, text_eq, text_eq_iff, is_empty, Bool, is_empty_complete, Message, Result, ok, err,
  guard_iff, guard_left,
}
use mathlib.Core.Path.{subst}
use oidc_proxy.Http.{Values, get}
use oidc_proxy.Url.{url_parse}
use oidc_proxy.TtlCache.{TtlCache}
use oidc_proxy.Mcpauth.Jose.{Jose}
use oidc_proxy.Mcpauth.RedirectUri.{match_redirect_uri}
use oidc_proxy.Mcpauth.Cimd.{ClientMetadata}
use oidc_proxy.Mcpauth.Scope.{grant_scope}
use oidc_proxy.Mcpauth.Resource.{matches_resource}
use oidc_proxy.Web.Response.{Response, ConsentData, consent_page, render_authz_error}
use oidc_proxy.Web.Authorize.{Server, authorize_redirect_error}
use oidc_proxy.Web.Authorize.Get.{CheckedRequest, with_scope, check_request}

-- A response that is no consent page.
abbrev pub Declines : Response → Type 0
Declines response = (d : ConsentData) → response.body ≢ consent_page d

module _ (c : TtlCache) (j : Jose) (rand : ℕ → Text) (error_text : Message → Text) (S : Type 0)
    (s : Server S) (now : ℕ) where
  pub error_page-Declines :
      (status : ℕ) (title message : String)
      → Declines (render_authz_error s.brand_color status title message)
  unfolding render_authz_error
  error_page-Declines status title message d h = ground arith

  redirect_error-Declines :
      (uri : Text) (code : String) (desc state : Text)
      → Declines (authorize_redirect_error s.auth_server s.brand_color uri code desc state)
  unfolding authorize_redirect_error
  redirect_error-Declines uri code desc state = elim (Option-cases (url_parse uri)) [
    | inl e ↦ rw (e, authorize_redirect_error) (error_page-Declines 400 "Invalid request" _)
    | inr (u, e) ↦ rw (e, authorize_redirect_error) (λ d h. ground arith)
  ]

  -- A request that passes steps 2 to 6 for a client, with what it asks for.
  pub record IsChecked (q : Values) (client : ClientMetadata) (k : CheckedRequest) : Type 0 where
    pub matched : match_redirect_uri client.redirect_uris k.redirect_uri ≡ true
    pub redirect : get q "redirect_uri" ≡ k.redirect_uri
    pub response_type : get q "response_type" ≡ codes "code"
    pub challenge : get q "code_challenge" ≡ k.code_challenge
    pub challenged : k.code_challenge ≢ []
    pub challenge_method : get q "code_challenge_method" ≡ codes "S256"
    pub for_resource : matches_resource s.auth_server.canonical_resource (get q "resource") ≡ true
    pub granted : grant_scope s.auth_server.scopes_supported (get q "scope") ≡ ok k.scope
    pub carried : get q "state" ≡ k.state

  not_complete : (b : Bool) → b ≡ true → not b ≡ false
  not_complete b h = ground arith

  not_sound : (b : Bool) → not b ≡ false → b ≡ true
  not_sound b h = ground arith

  request_eq :
      (q : Values) (scope : Text) (k : CheckedRequest)
      → scope ≡ k.scope
      → get q "redirect_uri" ≡ k.redirect_uri
      → get q "code_challenge" ≡ k.code_challenge
      → get q "state" ≡ k.state
      → record {
        redirect_uri = get q "redirect_uri";
        code_challenge = get q "code_challenge";
        scope = scope;
        state = get q "state";
      }
        ≡ k
  request_eq q scope k a b d e = cc

  with_scope_iff :
      (q : Values) (early : Message → Response) (granted : Result Text) (k : CheckedRequest)
      → (with_scope q early granted ≡ inr k) ↔ (
          (granted ≡ ok k.scope)
          × (get q "redirect_uri" ≡ k.redirect_uri)
          × (get q "code_challenge" ≡ k.code_challenge)
          × (get q "state" ≡ k.state))
  with_scope_iff q early (err e) k =
      (λ h. absurd (ground arith), λ (p, _, _, _). absurd (ground arith))
  with_scope_iff q early (ok scope) k =
      (λ h. ground arith, λ (p, a, b, d). ap inr (request_eq q scope k (ground arith) a b d))

  with_scope-Declines :
      (q : Values) (early : Message → Response) (granted : Result Text)
      → ((e : Message) → Declines (early e))
      → (response : Response) → with_scope q early granted ≡ inl response
      → Declines response
  with_scope-Declines q early (err e) p response h =
      let same : early e ≡ response = ground arith in subst Declines same (p e)
  with_scope-Declines q early (ok scope) p response h = absurd (ground arith)

  challenge_iff :
      (given method : Text)
      → ((is_empty given || not (text_eq method (codes "S256"))) ≡ false)
        ↔ ((given ≢ []) × (method ≡ codes "S256"))
  challenge_iff given method = (
    λ h. (
      λ e. absurd (ground (arith, ap is_empty e)),
      (text_eq_iff method (codes "S256")).0 (ground arith),
    ),
    λ (p, q). ground (arith, is_empty_complete given p, (text_eq_iff method (codes "S256")).1 q),
  )

  pub check_request_iff :
      (q : Values) (client : ClientMetadata) (k : CheckedRequest)
      → (check_request c j rand error_text S s now q client ≡ inr k) ↔ IsChecked q client k
  unfolding check_request
  check_request_iff q client k = (
    λ h.
        let (matched, h) = (guard_iff _ _ _ k).0 h in
        let (kind, h) = (guard_iff _ _ _ k).0 h in
        let (challenge, h) = (guard_iff _ _ _ k).0 h in
        let (resource, h) = (guard_iff _ _ _ k).0 h in
        let (granted, redirect, given, state) = (with_scope_iff q _ _ k).0 h in
        let (present, method) = (challenge_iff (get q "code_challenge") _).0 challenge in
        record {
          matched = rw (sym redirect) (not_sound _ matched);
          redirect = redirect;
          response_type = (text_eq_iff _ _).0 (not_sound _ kind);
          challenge = given;
          challenged = λ e. present (given ∙ e);
          challenge_method = method;
          for_resource = not_sound _ resource;
          granted = granted;
          carried = state;
        },
    λ p. (guard_iff _ _ _ k).1 (
      not_complete _ (rw p.redirect p.matched),
      (guard_iff _ _ _ k).1 (
        not_complete _ ((text_eq_iff _ _).1 p.response_type),
        (guard_iff _ _ _ k).1 (
          (challenge_iff _ _).1 (λ e. p.challenged (sym p.challenge ∙ e), p.challenge_method),
          (guard_iff _ _ _ k).1 (
            not_complete _ p.for_resource,
            (with_scope_iff q _ _ k).1 (p.granted, p.redirect, p.challenge, p.carried),
          ),
        ),
      ),
    ),
  )

  pub check_request-Declines :
      (q : Values) (client : ClientMetadata) (response : Response)
      → check_request c j rand error_text S s now q client ≡ inl response
      → Declines response
  unfolding check_request
  check_request-Declines q client =
      guard_left Declines (not (match_redirect_uri client.redirect_uris (get q "redirect_uri"))) _ _
        (error_page-Declines _ _ _)
        (guard_left Declines (not (text_eq (get q "response_type") (codes "code"))) _ _
          (redirect_error-Declines _ _ _ _)
          (guard_left Declines
            (is_empty (get q "code_challenge")
              || not (text_eq (get q "code_challenge_method") (codes "S256")))
            _ _ (redirect_error-Declines _ _ _ _)
            (guard_left Declines
              (not (matches_resource s.auth_server.canonical_resource (get q "resource"))) _ _
              (redirect_error-Declines _ _ _ _)
              (with_scope-Declines q _ _ (λ e. redirect_error-Declines _ _ _ _)))))
