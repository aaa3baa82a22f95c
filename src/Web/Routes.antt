-- ===== src/Web/Routes.antt =====
-- internal/web/server.go: the routes, and the server as a whole. A request comes with its clean path;
-- `http.ServeMux` redirects other paths before it looks for a handler.
pub mod Redeemed
use oidc_proxy.Base.{
  ℕ, ◌*◌, Bool, true, false, ◌||◌, Option, none, some, List, [], ◌∷◌, ◌++◌, String, Text, codes,
  text_eq, cut_prefix, if◌then◌else◌, Message,
}
use oidc_proxy.Http.{Request}
use oidc_proxy.TtlCache.{TtlCache}
use oidc_proxy.Mcpauth.Jose.{Jose, second}
use oidc_proxy.Mcpauth.ReplayGuard.{MemoryReplayGuard}
use oidc_proxy.Mcpauth.Cimd.{CimdCache}
use oidc_proxy.Web.RateLimiter.{RateLimiter, new_rate_limiter}
use oidc_proxy.Web.Response.{Response, bare, http_error}
use oidc_proxy.Web.Handlers.{handle_verify, handle_session, handle_sign_out}
use oidc_proxy.Web.Pages.{PageConfig, handle_sign_in, handle_start, handle_callback, handle_refresh}
use oidc_proxy.Web.Discovery.{
  not_found, handle_as_metadata, handle_oidc_config, handle_prm, handle_jwks,
}
use oidc_proxy.Web.Register.{RegisterState, handle_register}
use oidc_proxy.Web.Authorize.{Server, AuthorizeState}
use oidc_proxy.Web.Authorize.Get.{handle_authorize_get}
use oidc_proxy.Web.Authorize.Post.{handle_authorize_post}
use oidc_proxy.Web.Token.{TokenState, handle_token}
use oidc_proxy.Web.McpVerify.{handle_mcp_verify}

-- The handlers that are registered; those of discovery with the suffix of the path.
pub data Endpoint : Type 0 where
  at_verify at_sign_in at_start at_callback at_refresh at_session at_sign_out at_healthz : Endpoint
  at_as_metadata at_oidc_config at_prm : Text → Endpoint
  at_jwks at_register at_authorize_get at_authorize_post at_token at_mcp_verify : Endpoint

-- What the mux finds for a request; the last two are answered with 405 and 404.
pub data Routed : Type 0 where
  to : Endpoint → Routed
  method_not_allowed no_route : Routed

abbrev by_method : Bool → Endpoint → Routed
by_method allowed e = if allowed then to e else method_not_allowed

-- A pattern for GET is also one for HEAD.
abbrev is_get : Text → Bool
is_get method = text_eq method (codes "GET") || text_eq method (codes "HEAD")

abbrev is_post : Text → Bool
is_post method = text_eq method (codes "POST")

-- What the path has after a well-known path: nothing, or the wildcard after a slash.
unfoldable pub suffix_after : String → Text → Option Text
suffix_after base path =
    if text_eq path (codes base) then some [] else cut_prefix path (codes base ++ codes "/")

-- The patterns of `registerMCPRoutes` after those of discovery.
unfoldable pub route_oauth : Text → Text → Routed
route_oauth method path =
    if text_eq path (codes "/oauth2/jwks.json")
    then by_method (is_get method) at_jwks
    else if text_eq path (codes "/oauth2/register")
    then by_method (is_post method) at_register
    else if text_eq path (codes "/oauth2/authorize")
    then (if is_get method
        then to at_authorize_get
        else by_method (is_post method) at_authorize_post)
    else if text_eq path (codes "/oauth2/token")
    then by_method (is_post method) at_token
    else if text_eq path (codes "/mcp-verify")
    then to at_mcp_verify
    else no_route

-- `registerMCPRoutes`
unfoldable pub route_mcp : Text → Text → Routed
route_mcp method path = elim (suffix_after "/.well-known/oauth-authorization-server" path) [
  | some s ↦ by_method (is_get method) (at_as_metadata s)
  | none ↦ elim (suffix_after "/.well-known/openid-configuration" path) [
    | some s ↦ by_method (is_get method) (at_oidc_config s)
    | none ↦ elim (suffix_after "/.well-known/oauth-protected-resource" path) [
      | some s ↦ by_method (is_get method) (at_prm s)
      | none ↦ route_oauth method path
    ]
  ]
]

-- `Routes`; `mcp` says whether the server has an authorization server.
unfoldable pub route : Bool → Text → Text → Routed
route mcp method path =
    if text_eq path (codes "/verify")
    then to at_verify
    else if text_eq path (codes "/oauth2/sign_in")
    then to at_sign_in
    else if text_eq path (codes "/oauth2/start")
    then to at_start
    else if text_eq path (codes "/oauth2/callback")
    then to at_callback
    else if text_eq path (codes "/oauth2/refresh")
    then to at_refresh
    else if text_eq path (codes "/oauth2/session")
    then to at_session
    else if text_eq path (codes "/oauth2/sign_out")
    then to at_sign_out
    else if text_eq path (codes "/healthz")
    then to at_healthz
    else if mcp
    then route_mcp method path
    else no_route

abbrev pub register_rate_limit : ℕ
register_rate_limit = 20

abbrev pub token_rate_limit : ℕ
token_rate_limit = 120

abbrev pub cimd_rate_limit : ℕ
cimd_rate_limit = 30

abbrev pub rate_limit_window : ℕ
rate_limit_window = 60 * second

-- All that the server changes while it serves.
pub record ServerState (c : TtlCache) (S : Type 0) : Type 0 where
  pub draws : ℕ
  pub guard : MemoryReplayGuard c
  pub cache : CimdCache c
  pub session : S
  pub reg_limiter : Option (RateLimiter c)
  pub token_limiter : Option (RateLimiter c)
  pub cimd_limiter : Option (RateLimiter c)

-- `NewServer` with an authorization server, whose guard and cache are given.
unfoldable pub new_server :
    (c : TtlCache) (S : Type 0) → MemoryReplayGuard c → CimdCache c → S → ServerState c S
new_server c S guard cache session = record {
  draws = 0;
  guard = guard;
  cache = cache;
  session = session;
  reg_limiter = some (new_rate_limiter c register_rate_limit rate_limit_window);
  token_limiter = some (new_rate_limiter c token_rate_limit rate_limit_window);
  cimd_limiter = some (new_rate_limiter c cimd_rate_limit rate_limit_window);
}

module _ (c : TtlCache) (j : Jose) (rand : ℕ → Text) (s256 : Text → Text)
    (error_text : Message → Text) (S : Type 0) (s : Server S) (pages : PageConfig) (now : ℕ) where
  abbrev State : Type 0
  State = ServerState c S

  -- The parts of the state that the handlers work on, and what they leave in them.
  abbrev pub token_part : State → TokenState c
  token_part st = record { draws = st.draws; guard = st.guard; limiter = st.token_limiter }

  abbrev after_token : State → TokenState c × Response → State × Response
  after_token st (t, response) =
      (record st { draws = t.draws; guard = t.guard; token_limiter = t.limiter }, response)

  abbrev register_part : State → RegisterState c
  register_part st = record { draws = st.draws; limiter = st.reg_limiter }

  abbrev after_register : State → RegisterState c × Response → State × Response
  after_register st (t, response) =
      (record st { draws = t.draws; reg_limiter = t.limiter }, response)

  abbrev authorize_part : State → AuthorizeState c S
  authorize_part st = record {
    draws = st.draws;
    limiter = st.cimd_limiter;
    cache = st.cache;
    session = st.session;
  }

  abbrev after_authorize : State → AuthorizeState c S × Response → State × Response
  after_authorize st (t, response) = (
    record st { draws = t.draws; cimd_limiter = t.limiter; cache = t.cache; session = t.session },
    response,
  )

  abbrev after_session : State → S × Response → State × Response
  after_session st (session, response) = (record st { session = session }, response)

  abbrev after_page : State → ℕ × Response → State × Response
  after_page st (draws, response) = (record st { draws = draws }, response)

  abbrev with_suffix : Request → Text → Request
  with_suffix r suffix = record r { path_suffix = suffix }

  -- The handler of an endpoint.
  unfoldable pub serve_endpoint : Endpoint → Request → State → State × Response
  serve_endpoint at_verify r st =
      after_session st (handle_verify S s.verify_fn s.cookies s.policy now r st.session)
  serve_endpoint at_sign_in r st = after_page st (handle_sign_in rand pages r st.draws)
  serve_endpoint at_start r st = after_page st (handle_start rand pages r st.draws)
  serve_endpoint at_callback r st = after_page st (handle_callback rand pages st.draws)
  serve_endpoint at_refresh r st = after_page st (handle_refresh rand pages r st.draws)
  serve_endpoint at_session r st =
      after_session st (handle_session S s.verify_fn s.cookies s.policy now r st.session)
  serve_endpoint at_sign_out r st = (st, handle_sign_out s.cookies r)
  serve_endpoint at_healthz r st = (st, bare [] 204)
  serve_endpoint (at_as_metadata suffix) r st =
      (st, handle_as_metadata s.auth_server (with_suffix r suffix))
  serve_endpoint (at_oidc_config suffix) r st =
      (st, handle_oidc_config s.auth_server (with_suffix r suffix))
  serve_endpoint (at_prm suffix) r st = (st, handle_prm s.auth_server (with_suffix r suffix))
  serve_endpoint at_jwks r st = (st, handle_jwks s.auth_server)
  serve_endpoint at_register r st =
      after_register st (handle_register c j rand error_text s.auth_server now r (register_part st))
  serve_endpoint at_authorize_get r st =
      after_authorize st (handle_authorize_get c j rand error_text S s now r (authorize_part st))
  serve_endpoint at_authorize_post r st =
      after_authorize st (handle_authorize_post c j rand S s now r (authorize_part st))
  serve_endpoint at_token r st =
      after_token st (handle_token c j rand s256 s.auth_server now r (token_part st))
  serve_endpoint at_mcp_verify r st = (st, handle_mcp_verify j s.auth_server s.policy now r)

  unfoldable pub serve_routed : Routed → Request → State → State × Response
  serve_routed (to e) r st = serve_endpoint e r st
  serve_routed method_not_allowed r st = (st, http_error [] "Method Not Allowed" 405)
  serve_routed no_route r st = (st, not_found)

  -- A request for a path, on a server with an authorization server.
  unfoldable pub serve_request : Text → Request → State → State × Response
  serve_request path r st = serve_routed (route true r.method path) r st
