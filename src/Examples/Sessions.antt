-- ===== src/Examples/Sessions.antt =====
-- The browser session.
use oidc_proxy.Base.{
  ℕ, ◌≡◌, ◌≢◌, ◌↔◌, ◌⊎◌, refl, arith, has_prefix, cut_prefix, cut, split, Bool, true, false, Option,
  none, some, List, [], ◌∷◌, Text, codes, text_eq, String, if◌then◌else◌, message, Result, ok, err,
}
use oidc_proxy.Http.{Values, Request, first_value, get}
use oidc_proxy.Token.{Verified}
use oidc_proxy.Utils.Redirect.{IsSlashPath}
use oidc_proxy.Web.Access.{AccessPolicy, IsAdmitted}
use oidc_proxy.Web.Response.{redirect, FlowData, start_page}
use oidc_proxy.Web.Session.{CookieConfig, read_tokens, write_tokens}
use oidc_proxy.Web.Session.Jar.{store_cookies, read_tokens-write_tokens}
use oidc_proxy.Web.Handlers.{handle_verify, handle_session, handle_sign_out}
use oidc_proxy.Web.Handlers.Session.{
  IsGuarded, verify_passes_iff, handle_session-IsGuarded, sign_out_clears,
}
use oidc_proxy.Utils.{sanitize_redirect}
use oidc_proxy.Url.Escape.{unescape}
use oidc_proxy.Url.Query.{query_escape, escape_byte, is_unreserved, hex_digit}
use oidc_proxy.Url.Values.{parse_query, parse_pairs, parse_pair, query_unescape, plus_to_space}
use oidc_proxy.Web.Pages.{PageConfig, render_html, handle_sign_in, handle_start}
use oidc_proxy.Web.Pages.SignIn.{IsTargetOf, sign_in-start}

abbrev cfg : CookieConfig
cfg = record { cookie_prefix = codes "_p"; cookie_domain = []; cookie_secure = true }

abbrev policy : AccessPolicy
policy = record { allowed_emails = []; allowed_domains = codes "x.test" ∷ [] }

abbrev ann : Verified
ann = record { subject = codes "u1"; email = codes "ann@x.test"; nonce = codes "n"; expiry = 100 }

-- A verifier without a state of its own that accepts one token.
abbrev verify_fn : ℕ → Text → Unit {0} → Unit {0} × Result Verified
verify_fn now tok s = (s, if text_eq tok (codes "good") then ok ann else err (message "bad token"))

abbrev cookies : Values
cookies = (codes "_p_id_token", codes "good") ∷ (codes "_p_refresh_token", codes "r0") ∷ []

abbrev request : Request
request = record {
  method = codes "POST";
  header = (codes "Origin", codes "https://app.test") ∷ [];
  tls = true;
  host = codes "app.test";
  remote_addr = codes "10.0.0.1:5000";
  cookies = cookies;
  query = (codes "rd", codes "/docs") ∷ [];
  raw_query = codes "rd=/docs";
  path_suffix = [];
  post_form = none;
  session_body = some (record {
    id_token = codes "good";
    access_token = [];
    refresh_token = [];
    nonce = codes "n";
  });
  register_body = none;
}

verify_passes_iff_example :
    ((handle_verify Unit verify_fn cfg policy 7 request tt).1.status ≡ 200) ↔ (
      ((read_tokens cfg cookies).id_token ≢ [])
      × ((v : Verified) × ((verify_fn 7 (read_tokens cfg cookies).id_token tt).1 ≡ ok v)
          × IsAdmitted policy v.email))
verify_passes_iff_example = verify_passes_iff Unit verify_fn cfg policy 7 request tt

handle_session-IsGuarded_example :
    IsGuarded Unit verify_fn cfg policy 7 request tt
      (handle_session Unit verify_fn cfg policy 7 request tt).1
handle_session-IsGuarded_example = handle_session-IsGuarded Unit verify_fn cfg policy 7 request tt

-- The request opens a session.
session_test : (handle_session Unit verify_fn cfg policy 7 request tt).1.status ≡ 204
unfolding handle_session text_eq codes oidc_proxy.Web.Handlers.same_origin get
    oidc_proxy.Web.Handlers.expected_origin oidc_proxy.Utils.forwarded_proto
    oidc_proxy.Utils.forwarded_host oidc_proxy.Web.Handlers.session_decoded
    oidc_proxy.Web.Handlers.session_body_response oidc_proxy.Web.Handlers.session_response
    oidc_proxy.Web.Access.user_allowed oidc_proxy.Base.contains oidc_proxy.Base.cut_last
    oidc_proxy.Base.to_lower
session_test = refl

read_tokens-write_tokens_example :
    read_tokens cfg (
      store_cookies
        (write_tokens cfg 7
          (record { id_token = codes "new"; access_token = []; refresh_token = codes "r1" }))
        cookies)
    ≡ record {
      id_token = codes "new";
      access_token = (read_tokens cfg cookies).access_token;
      refresh_token = codes "r1";
    }
unfolding codes
read_tokens-write_tokens_example =
    read_tokens-write_tokens cfg 7
      (record { id_token = codes "new"; access_token = []; refresh_token = codes "r1" }) cookies
      (refl, (refl, (refl, tt))) tt (refl, (refl, tt))

sign_out_clears_example :
    ((((handle_sign_out cfg request).status ≡ 403)
        × ((handle_sign_out cfg request).cookies ≡ [])
        × (codes "POST" ≢ codes "POST")
        × (get request.header "Sec-Fetch-Site" ≡ codes "cross-site"))
      ⊎ ((target : Text) × ((handle_sign_out cfg request).body ≡ redirect target)
          × IsSlashPath target
          × (read_tokens cfg (store_cookies (handle_sign_out cfg request).cookies cookies)
              ≡ record { id_token = []; access_token = []; refresh_token = [] })))
sign_out_clears_example = sign_out_clears cfg request cookies

abbrev page_config : PageConfig
page_config = record {
  sign_in_title = codes "Sign in";
  sign_in_subtitle = [];
  sign_in_button = codes "Go";
  brand_color = codes "#2563eb";
  client_id = codes "proxy";
  scopes = codes "openid";
  auth_url = codes "https://idp.test/auth";
  token_url = codes "https://idp.test/token";
  cookie_prefix = codes "_p";
}

abbrev nonces : ℕ → Text
nonces n = codes "n0"

abbrev link : Text
link = codes "/oauth2/start?rd=%2Fdocs"

sign_in-start_example :
    (start : FlowData) × ((handle_start nonces page_config request 1).1.body ≡ start_page start)
    × IsTargetOf (codes "/docs") start.redirect
unfolding handle_sign_in render_html query_escape escape_byte is_unreserved sanitize_redirect codes
    get first_value text_eq has_prefix cut_prefix parse_query parse_pairs parse_pair query_unescape
    unescape cut split hex_digit plus_to_space
sign_in-start_example =
    sign_in-start nonces page_config request request 0 1
      (record {
        title = codes "Sign in";
        subtitle = [];
        button = codes "Go";
        start_url = link;
        brand_color = codes "#2563eb";
        nonce = codes "n0";
      })
      (omega arith, (omega arith, (omega arith, (omega arith, (omega arith, tt))))) refl refl
