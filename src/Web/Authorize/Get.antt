-- ===== src/Web/Authorize/Get.antt =====
-- internal/web/mcp.go, `handleAuthorizeGET`: the checks of an authorization request and the consent
-- page.
pub mod Checked
pub mod Consent
pub mod Page
use oidc_proxy.Base.{
  ℕ, not, ◌&&◌, ◌||◌, ◌⊎◌, inl, inr, String, Text, codes, text_eq, is_empty, fields, if◌then◌else◌,
  Message, Result, ok, err,
}
use oidc_proxy.Http.{Values, get, Request}
use oidc_proxy.Utils.{client_ip, origin_of}
use oidc_proxy.TtlCache.{TtlCache}
use oidc_proxy.Mcpauth.Jose.{Jose}
use oidc_proxy.Mcpauth.Artifacts.{AuthReqInput, mint_auth_req}
use oidc_proxy.Mcpauth.RedirectUri.{is_url_client_id, match_redirect_uri}
use oidc_proxy.Mcpauth.Cimd.{ClientMetadata, localhost_only}
use oidc_proxy.Mcpauth.Client.{resolve_client}
use oidc_proxy.Mcpauth.Scope.{grant_scope}
use oidc_proxy.Mcpauth.Resource.{matches_resource}
use oidc_proxy.Web.RateLimiter.{allow}
use oidc_proxy.Web.Access.{user_allowed}
use oidc_proxy.Web.Response.{Response, ConsentData, render_consent}
use oidc_proxy.Web.Authorize.{
  Server, AuthorizeState, VerifiedId, host_of, cimd_host, authorize_redirect_error, error_page,
  authenticate_browser,
}

-- What an authorization request asks for once steps 2 to 6 have passed it.
pub record CheckedRequest : Type 0 where
  pub redirect_uri : Text
  pub code_challenge : Text
  pub scope : Text
  pub state : Text

-- Step 6 of the GET: the request, with the scope that is granted.
abbrev pub with_scope : Values → (Message → Response) → Result Text → Response ⊎ CheckedRequest
with_scope q early (err e) = inl (early e)
with_scope q early (ok scope) = inr (record {
  redirect_uri = get q "redirect_uri";
  code_challenge = get q "code_challenge";
  scope = scope;
  state = get q "state";
})

module _ (c : TtlCache) (j : Jose) (rand : ℕ → Text) (error_text : Message → Text) (S : Type 0)
    (s : Server S) (now : ℕ) where
  -- Step 1 of the GET.
  unfoldable pub authorize_client :
      Request → AuthorizeState c S → AuthorizeState c S × (Response ⊎ ClientMetadata)
  authorize_client r st =
      let client_id = get r.query "client_id" in
      let fetched = is_url_client_id client_id in
      let (limiter, allowed) = allow c now (client_ip r) st.limiter in
      let (cache, client) = resolve_client c j s.auth_server s.resolver now client_id st.cache in
      let st' : AuthorizeState c S = if fetched then record st { limiter = limiter } else st in
      if fetched && not allowed
      then (
        st',
        inl (
            error_page S s now 429 "Too many requests"
              "Too many authorization requests. Please try again in a minute."),
      )
      else (
        record st' { cache = cache },
        elim client [
          | ok meta ↦ inr meta
          | err e ↦ inl (
              error_page S s now 400 "Invalid request"
                "The client_id is missing or invalid. Re-register the client and try again.")
        ],
      )

  -- Steps 2 to 6 of the GET.
  unfoldable pub check_request : Values → ClientMetadata → Response ⊎ CheckedRequest
  check_request q client =
      let redirect_uri = get q "redirect_uri" in
      let state = get q "state" in
      let redirect_error = λ (code : String) (desc : Text).
        authorize_redirect_error s.auth_server s.brand_color redirect_uri code desc state in
      let challenge = get q "code_challenge" in
      if not (match_redirect_uri client.redirect_uris redirect_uri)
      then inl (
          error_page S s now 400 "Invalid request"
            "The redirect_uri does not match any registered URI for this client.")
      else if not (text_eq (get q "response_type") (codes "code"))
      then inl (
          redirect_error "unsupported_response_type" (codes "only response_type=code is supported"))
      else if is_empty challenge || not (text_eq (get q "code_challenge_method") (codes "S256"))
      then inl (
          redirect_error "invalid_request"
            (codes "code_challenge with code_challenge_method=S256 is required"))
      else if not (matches_resource s.auth_server.canonical_resource (get q "resource"))
      then inl (
          redirect_error "invalid_target"
            (codes "resource must equal the canonical MCP resource URI"))
      else with_scope q (λ e. redirect_error "invalid_scope" (error_text e))
          (grant_scope s.auth_server.scopes_supported (get q "scope"))

  unfoldable pub auth_req_input : Text → CheckedRequest → VerifiedId → AuthReqInput
  auth_req_input client_id k id_tok = record {
    client_id = client_id;
    redirect_uri = k.redirect_uri;
    code_challenge = k.code_challenge;
    resource = s.auth_server.resource;
    scope = k.scope;
    state = k.state;
    sub = id_tok.subject;
    email = id_tok.email;
  }

  unfoldable pub consent_data : ClientMetadata → CheckedRequest → Text × Text → ConsentData
  consent_data client k (blob, csrf) = record {
    redirect_host = host_of k.redirect_uri;
    redirect_origin = origin_of k.redirect_uri;
    client_name = client.client_name;
    client_host = cimd_host client;
    loopback_only = localhost_only client;
    resource = s.auth_server.resource;
    scopes = fields k.scope;
    auth_req = blob;
    csrf = csrf;
    brand_color = s.brand_color;
  }

  -- Steps 8 and 9 of the GET.
  unfoldable pub ask_consent :
      Text
      → ClientMetadata
      → CheckedRequest
      → VerifiedId
      → AuthorizeState c S
      → AuthorizeState c S × Response
  ask_consent client_id client k id_tok st =
      let (draws, sealed) =
        mint_auth_req j rand s.auth_server now st.draws (auth_req_input client_id k id_tok) in
      if not (user_allowed s.policy id_tok.email)
      then (
        st,
        error_page S s now 403 "Access denied"
            "Your account is not permitted to access this resource.",
      )
      else (
        record st { draws = draws },
        elim sealed [
          | err e ↦
              error_page S s now 500 "Server error"
                "Could not start the authorization flow. Please try again."
          | ok sealed ↦ render_consent s.brand_color (consent_data client k sealed)
        ],
      )

  -- Steps 7 to 9 of the GET.
  unfoldable pub authorize_browser :
      Request → ClientMetadata → CheckedRequest → AuthorizeState c S → AuthorizeState c S × Response
  authorize_browser r client k st =
      let (session, got) = authenticate_browser S s now r st.session in
      let st' : AuthorizeState c S = record st { session = session } in
      elim got [
        | inl response ↦ (st', response)
        | inr id_tok ↦ ask_consent (get r.query "client_id") client k id_tok st'
      ]

  unfoldable pub handle_authorize_get : Request → AuthorizeState c S → AuthorizeState c S × Response
  handle_authorize_get r st =
      let (st', resolved) = authorize_client r st in
      elim resolved [
        | inl response ↦ (st', response)
        | inr client ↦ elim (check_request r.query client) [
          | inl response ↦ (st', response)
          | inr k ↦ authorize_browser r client k st'
        ]
      ]
