-- ===== src/Web/Authorize.antt =====
-- internal/web/mcp.go, the authorization endpoint: `handleAuthorizeGET`, `handleAuthorizePOST` and
-- what they use. The state is what the endpoint reads and writes of the server: the number of the next
-- identifier that `randToken` draws, the limiter and the cache of metadata documents, and the state of
-- the ID token verifier.
pub mod Browser
pub mod Get
pub mod Post
pub mod Flow
pub mod Delivered
use oidc_proxy.Base.{
  ℕ, Bool, true, false, not, ◌&&◌, ◌||◌, Option, none, some, ◌⊎◌, inl, inr, List, [], ◌∷◌, ◌++◌,
  String, Text, codes, text_eq, is_empty, fields, if◌then◌else◌, Message, Result, ok, err,
}
use oidc_proxy.Http.{Values, get, Request}
use oidc_proxy.Url.{url_parse}
use oidc_proxy.Url.Query.{query_escape}
use oidc_proxy.Url.Values.{parse_query, set_value, encode}
use oidc_proxy.Utils.{client_ip, origin_of}
use oidc_proxy.TtlCache.{TtlCache}
use oidc_proxy.Token.{Verified}
use oidc_proxy.Mcpauth.Jose.{Jose}
use oidc_proxy.Mcpauth.AuthServer.{AuthServer}
use oidc_proxy.Mcpauth.Claims.{AuthReqClaims}
use oidc_proxy.Mcpauth.Artifacts.{AuthReqInput, mint_auth_req, mint_code, verify_auth_req}
use oidc_proxy.Mcpauth.RedirectUri.{is_url_client_id, match_redirect_uri}
use oidc_proxy.Mcpauth.Cimd.{ClientMetadata, CimdResolver, CimdCache, localhost_only}
use oidc_proxy.Mcpauth.Client.{resolve_client}
use oidc_proxy.Mcpauth.Scope.{grant_scope}
use oidc_proxy.Mcpauth.Resource.{matches_resource}
use oidc_proxy.Web.RateLimiter.{RateLimiter, allow}
use oidc_proxy.Web.Access.{AccessPolicy, user_allowed}
use oidc_proxy.Web.Response.{
  Response, aborted, ConsentData, found, found_query, http_error, render_consent,
  render_authz_error,
}
use oidc_proxy.Web.Session.{Tokens, CookieConfig, read_tokens}
use oidc_proxy.Web.Handlers.{expected_origin, same_origin, redirect_to_sign_in_with}

-- What the handlers read of the `Server`: its authorization server, the configuration, and the ID
-- token verifier, which keeps a state of its own.
pub record Server (S : Type 0) : Type 0 where
  pub auth_server : AuthServer
  pub resolver : CimdResolver
  pub cookies : CookieConfig
  pub policy : AccessPolicy
  pub brand_color : Text
  pub verify_fn : ℕ → Text → S → S × Result Verified

pub record AuthorizeState (c : TtlCache) (S : Type 0) : Type 0 where
  pub draws : ℕ
  pub limiter : Option (RateLimiter c)
  pub cache : CimdCache c
  pub session : S

-- `verifiedID`
pub record VerifiedId : Type 0 where
  pub subject : Text
  pub email : Text

unfoldable pub host_of : Text → Text
host_of raw_url = elim (url_parse raw_url) [ none ↦ raw_url | some u ↦ u.host ]

unfoldable pub cimd_host : ClientMetadata → Text
cimd_host client = if not client.cimd then [] else host_of client.client_id

-- `q.Set(name, v)` under the guard `v != ""`
abbrev pub set_given : Values → String → Text → Values
set_given q name v = if not (is_empty v) then set_value q name v else q

unfoldable pub resume_query : AuthReqClaims → Values
resume_query a =
    let q : Values = set_value [] "client_id" a.client_id in
    let q = set_value q "redirect_uri" a.redirect_uri in
    let q = set_value q "response_type" (codes "code") in
    let q = set_value q "code_challenge" a.code_challenge in
    let q = set_value q "code_challenge_method" (codes "S256") in
    let q = set_value q "resource" a.resource in
    let q = set_given q "scope" a.scope in set_given q "state" a.state

unfoldable pub reconstruct_authorize_url : AuthReqClaims → Text
reconstruct_authorize_url a = codes "/oauth2/authorize?" ++ encode (resume_query a)

module _ (srv : AuthServer) where
  -- The queries of an error response and of a code, on top of that of the redirect URI.
  unfoldable pub error_query : Values → String → Text → Text → Values
  error_query q code desc state =
      let q = set_value q "error" (codes code) in
      let q = set_value q "iss" srv.issuer in
      let q = set_given q "error_description" desc in set_given q "state" state

  unfoldable pub code_query : Values → Text → Text → Values
  code_query q code state =
      let q = set_value q "code" code in
      let q = set_value q "iss" srv.issuer in set_given q "state" state

  unfoldable pub authorize_redirect_error : Text → Text → String → Text → Text → Response
  authorize_redirect_error brand redirect_uri code desc state = elim (url_parse redirect_uri) [
    | none ↦ render_authz_error brand 400 "Invalid request" "The redirect_uri is invalid."
    | some u ↦
        found_query redirect_uri (encode (error_query (parse_query u.raw_query) code desc state))
  ]

  -- Step 6 of the POST: the redirect that carries the code. The error of `url.Parse` is dropped there,
  -- and the nil URL is dereferenced.
  unfoldable pub deliver_code : AuthReqClaims → Text → Response
  deliver_code req code = elim (url_parse req.redirect_uri) [
    | none ↦ aborted
    | some u ↦
        found_query req.redirect_uri (encode (code_query (parse_query u.raw_query) code req.state))
  ]

module _ (S : Type 0) (s : Server S) (now : ℕ) where
  abbrev pub error_page : ℕ → String → String → Response
  error_page = render_authz_error s.brand_color

  -- The part of `verifyEntraCookie` after the verifier: the response that it writes, or the identity.
  unfoldable pub browser_flow : Request → Text → Tokens → Response
  browser_flow r rd tokens =
      if not (is_empty tokens.refresh_token)
      then found (expected_origin r ++ codes "/oauth2/refresh?rd=" ++ query_escape rd)
      else redirect_to_sign_in_with r rd

  unfoldable pub identity_or_flow :
      Request → Text → Tokens → Result Verified → Response ⊎ VerifiedId
  identity_or_flow r rd tokens (ok v) = inr (record { subject = v.subject; email = v.email })
  identity_or_flow r rd tokens (err e) = inl (browser_flow r rd tokens)

  unfoldable pub verify_entra_cookie : Request → Text → S → S × (Response ⊎ VerifiedId)
  verify_entra_cookie r rd session =
      let tokens = read_tokens s.cookies r.cookies in
      let (session', result) = s.verify_fn now tokens.id_token session in
      if not (is_empty tokens.id_token)
      then (session', identity_or_flow r rd tokens result)
      else (session, inl (browser_flow r rd tokens))

  unfoldable pub authenticate_browser : Request → S → S × (Response ⊎ VerifiedId)
  authenticate_browser r = verify_entra_cookie r (
      codes "/oauth2/authorize"
      ++ (if not (is_empty r.raw_query) then codes "?" ++ r.raw_query else []))

  -- The check of the subject in `reauthenticate`.
  unfoldable pub same_subject : Request → AuthReqClaims → VerifiedId → Response ⊎ VerifiedId
  same_subject r req id_tok =
      if not (text_eq id_tok.subject req.claims.subject)
      then inl (redirect_to_sign_in_with r (reconstruct_authorize_url req))
      else inr id_tok

  unfoldable pub reauthenticate : Request → AuthReqClaims → S → S × (Response ⊎ VerifiedId)
  reauthenticate r req session =
      let (session', got) = verify_entra_cookie r (reconstruct_authorize_url req) session in
      (session', elim got [ inl response ↦ inl response | inr id_tok ↦ same_subject r req id_tok ])
