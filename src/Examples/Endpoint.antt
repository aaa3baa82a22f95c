-- ===== src/Examples/Endpoint.antt =====
-- The token endpoint and the check of the resource server.
use oidc_proxy.Base.{
  ℕ, suc, ◌+◌, ◌*◌, ◌≤◌, ◌<◌, ◌≡◌, ◌≢◌, ◌↔◌, refl, Bool, true, false, Option, none, some, List, [],
  ◌∷◌, Text, arith, ◌++◌, codes, All, String, Result, ok, err,
}
use oidc_proxy.Http.{Values, Request, get}
use oidc_proxy.TtlCache.Table.{table_cache, table_laws, lookup}
use oidc_proxy.Mcpauth.Jose.{second}
use oidc_proxy.Mcpauth.Claims.{CodeClaims, RefreshClaims, AccessClaims}
use oidc_proxy.Mcpauth.Artifacts.{TokenGrant}
use oidc_proxy.Mcpauth.ReplayGuard.{new_memory_replay_guard, seen_before}
use oidc_proxy.Web.Access.{AccessPolicy}
use oidc_proxy.Web.Response.{Response, token_grant}
use oidc_proxy.Web.Token.{TokenState, token_authorization_code, token_refresh, handle_token}
use oidc_proxy.Web.Token.Redeem.{Redeemed, Rotated, code_grant_iff, refresh_grant_iff}
use oidc_proxy.Web.Token.SingleUse.{Arrival, Presents, serve, serve_state, code_redeemed_once}
use oidc_proxy.Web.McpVerify.{handle_mcp_verify, bearer_token}
use oidc_proxy.Web.McpVerify.Admitted.{Admitted, IsRefusal, handle_mcp_verify_iff, mcp_refused}
use oidc_proxy.Web.Token.Flow.{consented, token_authorization_code-mint_code}
use oidc_proxy.Mcpauth.Artifacts.{issue_grant}
use oidc_proxy.Mcpauth.Artifacts.Granted.{IsGrant}
use oidc_proxy.Mcpauth.Pkce.{verify_pkce}
use oidc_proxy.Examples.Tokens.Fixture.{
  consent, carried_code, rand, server, noon, code_jose, code_laws, grant_jose,
}

abbrev form : Values
form =
    (codes "grant_type", codes "authorization_code")
    ∷ (codes "code", 0 ∷ [])
    ∷ (codes "client_id", codes "app")
    ∷ (codes "redirect_uri", codes "http://localhost/cb")
    ∷ (codes "code_verifier", codes "v")
    ∷ []

abbrev pub request : Request
request = record {
  method = codes "POST";
  header = [];
  tls = true;
  host = codes "as.test";
  remote_addr = codes "10.0.0.1:5000";
  cookies = [];
  query = [];
  raw_query = [];
  path_suffix = [];
  post_form = some form;
  session_body = none;
  register_body = none;
}

abbrev start : TokenState table_cache
start = record { draws = 0; guard = record { cap = 8; rows = [] }; limiter = none }

abbrev granted : TokenGrant
granted = record {
  access_token = 0 ∷ codes "k1";
  refresh_token = 1 ∷ codes "k1";
  expires_in = 900;
  scope = codes "mcp";
}

abbrev arrival : ℕ → Arrival
arrival now = record { at = now; request = request }

pub presents : Presents (0 ∷ []) request
unfolding oidc_proxy.Base.text_eq get
presents = record { form = form; sent = refl; kind = refl; presented = refl }

code_grant_iff_example :
    ((token_authorization_code table_cache code_jose rand (λ v. v) server noon form start).1.body
      ≡ token_grant granted)
    ↔ ((code : CodeClaims) × Redeemed table_cache code_jose rand
          (λ v. v)
          server
          noon
          form
          start
          code
          granted)
code_grant_iff_example =
    code_grant_iff table_cache code_jose rand (λ v. v) server noon form start granted

-- The request is granted.
pub granted_test :
    (handle_token table_cache code_jose rand (λ v. v) server noon request start).1.body
    ≡ token_grant granted
unfolding handle_token oidc_proxy.Web.RateLimiter.allow oidc_proxy.Web.Token.token_grant_type
    oidc_proxy.Base.text_eq get token_authorization_code oidc_proxy.Mcpauth.Artifacts.verify_code
    oidc_proxy.Mcpauth.Artifacts.parse_encrypted oidc_proxy.Mcpauth.Artifacts.code_claims
    seen_before lookup oidc_proxy.Web.Token.redeem_code oidc_proxy.Mcpauth.Pkce.verify_pkce
    oidc_proxy.Web.Token.grant_for oidc_proxy.Mcpauth.Artifacts.issue_grant
    oidc_proxy.Mcpauth.Artifacts.sign_claims oidc_proxy.Web.Response.write_token_grant
    oidc_proxy.Base.any codes oidc_proxy.Base.cut oidc_proxy.Base.cut_last
    oidc_proxy.Base.cut_prefix oidc_proxy.Base.has_prefix oidc_proxy.Base.is_space
    oidc_proxy.Base.trim_left oidc_proxy.Base.trim_right oidc_proxy.Base.trim_space
    oidc_proxy.Http.first_value oidc_proxy.Mcpauth.Artifacts.access_claims
    oidc_proxy.Mcpauth.Artifacts.grant_family oidc_proxy.Mcpauth.Artifacts.parse_signed
    oidc_proxy.Mcpauth.Artifacts.refresh_claims oidc_proxy.Mcpauth.Artifacts.verify_refresh_token
    oidc_proxy.Mcpauth.Keys.find_key oidc_proxy.Mcpauth.Keys.verification_key
    oidc_proxy.Utils.bare_host oidc_proxy.Utils.bracketed_host oidc_proxy.Utils.client_ip
    oidc_proxy.Utils.first_field oidc_proxy.Utils.split_host oidc_proxy.Web.RateLimiter.allow_at
    oidc_proxy.Web.RateLimiter.hit oidc_proxy.Web.RateLimiter.open_window
    oidc_proxy.Web.Response.write_error oidc_proxy.Web.Token.input_of_code
    oidc_proxy.Web.Token.input_of_refresh token_refresh oidc_proxy.Mcpauth.Keys.key_material
granted_test = refl

code_redeemed_once_example :
    All
      (λ (x : Arrival × Response).
        Presents (0 ∷ []) x.0.request
        → x.0.at < noon + 60 * second
        → (g : TokenGrant) → x.1.body ≢ token_grant g)
      (serve table_cache code_jose rand
        (λ v. v)
        server
        (arrival (noon + 5 * second) ∷ [])
        (handle_token table_cache code_jose rand (λ v. v) server noon request start).0)
unfolding new_memory_replay_guard serve_state
code_redeemed_once_example =
    code_redeemed_once table_cache (table_laws Unit) code_jose code_laws rand (λ v. v) server
      (omega arith) (omega arith) 8 start [] (arrival noon) (arrival (noon + 5 * second) ∷ [])
      (0 ∷ []) granted refl (omega arith) presents granted_test

abbrev refresh_form : Values
refresh_form =
    (codes "grant_type", codes "refresh_token") ∷ (codes "refresh_token", 1 ∷ codes "k1") ∷ []

refresh_grant_iff_example :
    ((token_refresh table_cache grant_jose rand (λ v. v) server noon refresh_form start).1.body
      ≡ token_grant granted)
    ↔ ((refresh : RefreshClaims) × Rotated table_cache grant_jose rand
          (λ v. v)
          server
          noon
          refresh_form
          start
          refresh
          granted)
refresh_grant_iff_example =
    refresh_grant_iff table_cache grant_jose rand (λ v. v) server noon refresh_form start granted

abbrev everyone : AccessPolicy
everyone = record { allowed_emails = []; allowed_domains = [] }

abbrev bearing : Text → Request
bearing value = record request { header = (codes "Authorization", value) ∷ [] }

handle_mcp_verify_iff_example :
    ((handle_mcp_verify grant_jose server everyone noon
        (bearing (codes "bearer " ++ 0 ∷ codes "k1"))).status
      ≡ 200)
    ↔ ((claims : AccessClaims) × Admitted grant_jose server everyone noon
          (bearing (codes "bearer " ++ 0 ∷ codes "k1"))
          claims)
handle_mcp_verify_iff_example =
    handle_mcp_verify_iff grant_jose server everyone noon
      (bearing (codes "bearer " ++ 0 ∷ codes "k1"))

-- Another authentication scheme is answered with 401.
basic_test :
    (handle_mcp_verify grant_jose server everyone noon (bearing (codes "Basic eA=="))).status ≡ 401
unfolding handle_mcp_verify get oidc_proxy.Base.text_eq bearer_token oidc_proxy.Base.to_lower
    oidc_proxy.Web.Response.http_error
basic_test = refl

mcp_refused_example :
    IsRefusal grant_jose server everyone noon
      (bearing (codes "Basic eA=="))
      (handle_mcp_verify grant_jose server everyone noon (bearing (codes "Basic eA==")))
mcp_refused_example =
    mcp_refused grant_jose server everyone noon (bearing (codes "Basic eA=="))
      (λ e. absurd (ground (arith, basic_test)))

tokens_made :
    (issue_grant code_jose rand server (noon + 30 * second) 0 (consented consent)).1 ≡ ok granted
unfolding issue_grant oidc_proxy.Mcpauth.Artifacts.sign_claims oidc_proxy.Base.text_eq codes
    oidc_proxy.Mcpauth.Keys.key_material oidc_proxy.Mcpauth.Artifacts.access_claims
    oidc_proxy.Mcpauth.Artifacts.refresh_claims
tokens_made = refl

code_unseen :
    (seen_before table_cache (noon + 30 * second) (rand 0) (60 * second) start.guard).1 ≡ false
unfolding seen_before lookup
code_unseen = refl

code_proved : verify_pkce (λ v. v) (get form "code_verifier") (codes "v") ≡ true
unfolding verify_pkce get oidc_proxy.Base.text_eq
code_proved = refl

sent_client : get form "client_id" ≡ codes "app"
unfolding codes get oidc_proxy.Base.text_eq
sent_client = refl

sent_redirect : get form "redirect_uri" ≡ codes "http://localhost/cb"
unfolding codes get oidc_proxy.Base.text_eq
sent_redirect = refl

sent_code : get form "code" ≡ 0 ∷ []
unfolding get oidc_proxy.Base.text_eq
sent_code = refl

token_authorization_code-mint_code_example :
    ((token_authorization_code table_cache code_jose rand
        (λ v. v)
        server
        (noon + 30 * second)
        form
        start).1.body
      ≡ token_grant granted)
    × IsGrant code_jose rand server (noon + 30 * second) 0 (consented consent) granted
unfolding oidc_proxy.Mcpauth.Artifacts.mint_code oidc_proxy.Mcpauth.Artifacts.encrypt_claims
    oidc_proxy.Base.text_eq oidc_proxy.Mcpauth.Artifacts.code_claims codes
token_authorization_code-mint_code_example =
    token_authorization_code-mint_code table_cache code_jose code_laws rand (λ v. v) server
      (codes "sk") (codes "k1") (codes "ek") refl noon 0 (noon + 30 * second) consent (0 ∷ []) form
      start granted carried_code refl (omega arith) (omega arith) sent_code sent_client
      sent_redirect code_proved code_unseen tokens_made
