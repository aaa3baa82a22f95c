-- ===== src/Examples/Routes.antt =====
-- The server as a whole.
use oidc_proxy.Base.{
  ℕ, suc, ◌+◌, ◌*◌, ◌<◌, ◌≡◌, ◌≢◌, refl, ap, ◌∙◌, false, Bool, true, none, List, [], ◌∷◌, Text,
  arith, codes, All, String, if◌then◌else◌, Message, message, Result, ok, err,
}
use oidc_proxy.TtlCache.Table.{table_cache, table_laws}
use oidc_proxy.Mcpauth.Jose.{second}
use oidc_proxy.Mcpauth.Artifacts.{TokenGrant}
use oidc_proxy.Mcpauth.ReplayGuard.{new_memory_replay_guard}
use oidc_proxy.Web.Response.{Response, token_grant}
use oidc_proxy.Web.Authorize.{Server}
use oidc_proxy.Web.Pages.{PageConfig}
use oidc_proxy.Web.Routes.{
  Routed, to, no_route, method_not_allowed, at_token, at_prm, at_authorize_get, route, ServerState,
  serve_request,
}
use oidc_proxy.Web.Routes.Redeemed.{Visit, Redeems, answer, run, token_answer, redeemed_once}
use oidc_proxy.Token.{Verified}
use oidc_proxy.Examples.Tokens.Fixture.{rand, noon, server, code_jose, code_laws, grant}
use oidc_proxy.Examples.Endpoint.{request, presents, granted_test}

-- Some routes.
token_route_test : route true (codes "POST") (codes "/oauth2/token") ≡ to at_token
unfolding route oidc_proxy.Base.text_eq codes oidc_proxy.Web.Routes.route_mcp
    oidc_proxy.Web.Routes.suffix_after oidc_proxy.Base.cut_prefix oidc_proxy.Web.Routes.route_oauth
token_route_test = refl

wrong_method_test : route true (codes "GET") (codes "/oauth2/token") ≡ method_not_allowed
unfolding route oidc_proxy.Base.text_eq codes oidc_proxy.Web.Routes.route_mcp
    oidc_proxy.Web.Routes.suffix_after oidc_proxy.Base.cut_prefix oidc_proxy.Web.Routes.route_oauth
wrong_method_test = refl

suffix_test :
    route true (codes "GET") (codes "/.well-known/oauth-protected-resource/mcp")
    ≡ to (at_prm (codes "mcp"))
unfolding route oidc_proxy.Base.text_eq codes oidc_proxy.Web.Routes.route_mcp
    oidc_proxy.Web.Routes.suffix_after oidc_proxy.Base.cut_prefix
suffix_test = refl

without_server_test : route false (codes "POST") (codes "/oauth2/token") ≡ no_route
unfolding route oidc_proxy.Base.text_eq codes
without_server_test = refl

abbrev verify_fn : ℕ → Text → Unit {0} → Unit {0} × Result Verified
verify_fn now tok s = (s, err (message "bad token"))

abbrev proxy : Server (Unit {0})
proxy = record {
  auth_server = server;
  resolver = record {
    fetch_url = λ now url. err (message "no network");
    allowed = [];
    default_ttl = 900 * second;
  };
  cookies = record { cookie_prefix = codes "_p"; cookie_domain = []; cookie_secure = true };
  policy = record { allowed_emails = []; allowed_domains = [] };
  brand_color = codes "#2563eb";
  verify_fn = verify_fn;
}

abbrev pages : PageConfig
pages = record {
  sign_in_title = codes "Sign in";
  sign_in_subtitle = [];
  sign_in_button = codes "Go";
  brand_color = codes "#2563eb";
  client_id = codes "c";
  scopes = codes "openid";
  auth_url = codes "https://op.test/auth";
  token_url = codes "https://op.test/token";
  cookie_prefix = codes "_p";
}

abbrev start : ServerState table_cache (Unit {0})
start = record {
  draws = 0;
  guard = record { cap = 8; rows = [] };
  cache = record { cap = 8; rows = [] };
  session = tt;
  reg_limiter = none;
  token_limiter = none;
  cimd_limiter = none;
}

abbrev error_text : Message → Text
error_text m = codes m.format

abbrev redeeming : ℕ → Visit
redeeming now = record { at = now; path = codes "/oauth2/token"; request = request }

abbrev health : Visit
health = record { at = noon; path = codes "/healthz"; request = request }

redeems : Redeems (0 ∷ []) (redeeming noon)
redeems = record { at_endpoint = token_route_test; presents = presents }

-- The first request is granted.
redeemed_test :
    (answer table_cache code_jose rand
      (λ v. v)
      error_text
      Unit
      proxy
      pages
      (redeeming noon)
      start).1.body
    ≡ token_grant grant
redeemed_test =
    ap (λ (x : Response). x.body)
      (token_answer table_cache code_jose rand (λ v. v) error_text Unit proxy pages (redeeming noon)
        start token_route_test).0
    ∙ granted_test

redeemed_once_example :
    All
      (λ (x : Visit × Response).
        Redeems (0 ∷ []) x.0
        → x.0.at < noon + 60 * second
        → (g : TokenGrant) → x.1.body ≢ token_grant g)
      (run table_cache code_jose rand
        (λ v. v)
        error_text
        Unit
        proxy
        pages
        (health ∷ redeeming (noon + 5 * second) ∷ [])
        (answer table_cache code_jose rand
          (λ v. v)
          error_text
          Unit
          proxy
          pages
          (redeeming noon)
          start).0)
unfolding new_memory_replay_guard route oidc_proxy.Base.text_eq codes
    oidc_proxy.Web.Routes.route_mcp oidc_proxy.Web.Routes.suffix_after oidc_proxy.Base.cut_prefix
    oidc_proxy.Web.Routes.route_oauth oidc_proxy.Web.Routes.Redeemed.run_state
redeemed_once_example =
    redeemed_once table_cache (table_laws Unit) code_jose code_laws rand (λ v. v) error_text Unit
      proxy pages (omega arith) (omega arith) 8 start [] (redeeming noon)
      (health ∷ redeeming (noon + 5 * second) ∷ []) (0 ∷ []) grant refl (omega arith) redeems
      redeemed_test
