-- ===== src/Web/Token.antt =====
-- internal/web/mcp.go, the token endpoint: `handleToken`, `tokenAuthorizationCode` and
-- `tokenRefresh`. The state is what the endpoint reads and writes of the server: the replay guard,
-- the limiter by client address, and the number of the next identifier that `randToken` draws.
pub mod Redeem
pub mod Guarded
pub mod SingleUse
pub mod Flow
use oidc_proxy.Base.{
  ℕ, ◌+◌, ◌*◌, Bool, true, false, not, ◌&&◌, Option, none, some, List, [], ◌∷◌, String, Text, codes,
  text_eq, is_empty, if◌then◌else◌, Result, ok, err,
}
use oidc_proxy.Http.{Values, get, Request}
use oidc_proxy.Utils.{client_ip}
use oidc_proxy.TtlCache.{TtlCache}
use oidc_proxy.Mcpauth.Jose.{Jose, second}
use oidc_proxy.Mcpauth.AuthServer.{AuthServer}
use oidc_proxy.Mcpauth.Claims.{CodeClaims, RefreshClaims}
use oidc_proxy.Mcpauth.Artifacts.{
  GrantInput, TokenGrant, issue_grant, verify_code, verify_refresh_token,
}
use oidc_proxy.Mcpauth.Pkce.{verify_pkce}
use oidc_proxy.Mcpauth.ReplayGuard.{MemoryReplayGuard, seen_before}
use oidc_proxy.Web.RateLimiter.{RateLimiter, allow}
use oidc_proxy.Web.Response.{Response, write_error, write_token_grant}

pub record TokenState (c : TtlCache) : Type 0 where
  pub draws : ℕ
  pub guard : MemoryReplayGuard c
  pub limiter : Option (RateLimiter c)

-- The headers that `handleToken` sets first.
abbrev pub no_store : List (String × Text)
no_store = ("Cache-Control", codes "no-store") ∷ ("Pragma", codes "no-cache") ∷ []

abbrev pub invalid_grant : String → Response
invalid_grant desc = write_error no_store 400 "invalid_grant" desc

-- What a grant is bound to, from a code and from a refresh token.
unfoldable pub input_of_code : CodeClaims → GrantInput
input_of_code code = record {
  sub = code.claims.subject;
  email = code.email;
  client_id = code.client_id;
  resource = code.resource;
  scope = code.scope;
  family = [];
}

unfoldable pub input_of_refresh : RefreshClaims → GrantInput
input_of_refresh refresh = record {
  sub = refresh.claims.subject;
  email = refresh.email;
  client_id = refresh.client_id;
  resource = refresh.resource;
  scope = refresh.scope;
  family = refresh.family;
}

module _ (c : TtlCache) (j : Jose) (rand : ℕ → Text) (s256 : Text → Text) (srv : AuthServer)
    (now : ℕ) where
  -- `IssueGrant` and the answer.
  unfoldable pub grant_for : GrantInput → TokenState c → TokenState c × Response
  grant_for input st =
      let (draws, grant) = issue_grant j rand srv now st.draws input in
      (
        record st { draws = draws },
        elim grant [
          | ok g ↦ write_token_grant no_store g
          | err e ↦ write_error no_store 500 "server_error" "could not issue token"
        ],
      )

  -- The checks on a code that has just been burned.
  unfoldable pub redeem_code : Values → CodeClaims → TokenState c → TokenState c × Response
  redeem_code f code st =
      if not (text_eq (get f "client_id") code.client_id)
      then (st, invalid_grant "client_id mismatch")
      else if not (text_eq (get f "redirect_uri") code.redirect_uri)
      then (st, invalid_grant "redirect_uri mismatch")
      else if not (verify_pkce s256 (get f "code_verifier") code.code_challenge)
      then (st, invalid_grant "PKCE verification failed")
      else grant_for (input_of_code code) st

  unfoldable pub token_authorization_code : Values → TokenState c → TokenState c × Response
  token_authorization_code f st = elim (verify_code j srv now (get f "code")) [
    | err e ↦ (st, invalid_grant "code is invalid or expired")
    | ok code ↦
        let (guard, seen) = seen_before c now code.claims.id srv.code_ttl st.guard in
        if seen
        then (record st { guard = guard }, invalid_grant "code already used")
        else redeem_code f code (record st { guard = guard })
  ]

  unfoldable pub token_refresh : Values → TokenState c → TokenState c × Response
  token_refresh f st = elim (verify_refresh_token j srv now (get f "refresh_token")) [
    | err e ↦ (st, invalid_grant "refresh_token is invalid or expired")
    | ok refresh ↦
        let cid = get f "client_id" in
        let (guard, seen) = seen_before c now refresh.claims.id srv.refresh_ttl st.guard in
        if not (is_empty cid) && not (text_eq cid refresh.client_id)
        then (st, invalid_grant "client_id mismatch")
        else if seen
        then (record st { guard = guard }, invalid_grant "refresh_token already used")
        else grant_for (input_of_refresh refresh) (record st { guard = guard })
  ]

  -- The `switch` on the grant type.
  unfoldable pub token_grant_type : Values → TokenState c → TokenState c × Response
  token_grant_type f st =
      let grant_type = get f "grant_type" in
      if text_eq grant_type (codes "authorization_code")
      then token_authorization_code f st
      else if text_eq grant_type (codes "refresh_token")
      then token_refresh f st
      else (st, write_error no_store 400 "unsupported_grant_type" "unsupported grant_type")

  unfoldable pub handle_token : Request → TokenState c → TokenState c × Response
  handle_token r st =
      let (limiter, allowed) = allow c now (client_ip r) st.limiter in
      let st' = record st { limiter = limiter } in
      if not allowed
      then (st', write_error no_store 429 "temporarily_unavailable" "token rate limit exceeded")
      else elim r.post_form [
        | none ↦ (st', write_error no_store 400 "invalid_request" "could not parse form body")
        | some f ↦ token_grant_type f st'
      ]
