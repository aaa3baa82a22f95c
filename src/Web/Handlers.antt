-- ===== src/Web/Handlers.antt =====
-- internal/web/handlers.go: the browser session, `handleVerify`, `handleSession` and
-- `handleSignOut`. The ID token verifier, with the cache in front of it, is a parameter that keeps a
-- state of its own; so are the time and the configuration.
pub mod Session
use oidc_proxy.Base.{
  ℕ, Bool, true, false, not, ◌&&◌, Option, none, some, [], ◌∷◌, ◌++◌, String, Text, codes, text_eq,
  is_empty, if◌then◌else◌, Result, ok, err,
}
use oidc_proxy.Http.{get, Request, SessionBody, Cookie}
use oidc_proxy.Token.{Verified}
use oidc_proxy.Url.Query.{query_escape}
use oidc_proxy.Utils.{forwarded_proto, forwarded_host, original_url, sanitize_redirect}
use oidc_proxy.Web.Access.{AccessPolicy, user_allowed}
use oidc_proxy.Web.Response.{Response, bare, found, http_error}
use oidc_proxy.Web.McpVerify.{identity_headers}
use oidc_proxy.Web.Session.{
  Tokens, CookieConfig, suffix_refresh_token, cookie_value, cookie_name, read_tokens, write_tokens,
  clear_tokens,
}

unfoldable pub expected_origin : Request → Text
expected_origin r = forwarded_proto r ++ codes "://" ++ forwarded_host r

unfoldable pub same_origin : Request → Bool
same_origin r =
    let got = get r.header "Origin" in
    if is_empty got then false else text_eq got (expected_origin r)

unfoldable pub redirect_to_sign_in_with : Request → Text → Response
redirect_to_sign_in_with r rd = found (
    expected_origin r
    ++ codes "/oauth2/sign_in"
    ++ (if is_empty rd then [] else codes "?rd=" ++ query_escape rd))

unfoldable pub redirect_to_sign_in : Request → Response
redirect_to_sign_in r = redirect_to_sign_in_with r (original_url r)

unfoldable pub redirect_to_refresh : Request → Response
redirect_to_refresh r =
    found (expected_origin r ++ codes "/oauth2/refresh?rd=" ++ query_escape (original_url r))

module _ (S : Type 0) (verify_fn : ℕ → Text → S → S × Result Verified) (cfg : CookieConfig)
    (policy : AccessPolicy) (now : ℕ) where
  -- The part of `handleVerify` after the verifier.
  unfoldable pub verified_response : Request → Tokens → Result Verified → Response
  verified_response r tokens (err e) =
      if not (is_empty tokens.refresh_token)
      then redirect_to_refresh r
      else record (redirect_to_sign_in r) { cookies = clear_tokens cfg }
  verified_response r tokens (ok id_tok) =
      if not (user_allowed policy id_tok.email)
      then record (http_error [] "forbidden" 403) { cookies = clear_tokens cfg }
      else bare (identity_headers id_tok.email id_tok.subject) 200

  unfoldable pub handle_verify : Request → S → S × Response
  handle_verify r s =
      let tokens = read_tokens cfg r.cookies in
      let (s', result) = verify_fn now tokens.id_token s in
      if is_empty tokens.id_token
      then (s, redirect_to_sign_in r)
      else (s', verified_response r tokens result)

  -- The part of `handleSession` after the verifier.
  unfoldable pub session_response : Request → SessionBody → Result Verified → Response
  session_response r body (err e) = http_error [] "id_token invalid" 401
  session_response r body (ok id_tok) =
      if not (is_empty body.nonce) && not (text_eq id_tok.nonce body.nonce)
      then http_error [] "nonce mismatch" 401
      else if not (user_allowed policy id_tok.email)
      then http_error [] "forbidden" 403
      else record (bare [] 204) {
        cookies = write_tokens cfg now (record {
          id_token = body.id_token;
          access_token = body.access_token;
          refresh_token =
              if is_empty body.refresh_token
              then cookie_value r.cookies (cookie_name cfg suffix_refresh_token)
              else body.refresh_token;
        });
      }

  unfoldable pub session_body_response : Request → SessionBody → S → S × Response
  session_body_response r body s =
      let (s', result) = verify_fn now body.id_token s in
      if is_empty body.id_token
      then (s, http_error [] "missing id_token" 400)
      else (s', session_response r body result)

  -- The part of `handleSession` after decoding the body.
  unfoldable pub session_decoded : Request → Option SessionBody → S → S × Response
  session_decoded r none s = (s, http_error [] "invalid body" 400)
  session_decoded r (some body) s = session_body_response r body s

  unfoldable pub handle_session : Request → S → S × Response
  handle_session r s =
      if not (text_eq r.method (codes "POST"))
      then (s, http_error [] "method not allowed" 405)
      else if not (same_origin r)
      then (s, http_error [] "bad origin" 403)
      else session_decoded r r.session_body s

unfoldable pub handle_sign_out : CookieConfig → Request → Response
handle_sign_out cfg r =
    let rd = sanitize_redirect (get r.query "rd") in
    if not (text_eq r.method (codes "POST"))
      && text_eq (get r.header "Sec-Fetch-Site") (codes "cross-site")
    then http_error [] "forbidden" 403
    else record (found (if is_empty rd then codes "/" else rd)) { cookies = clear_tokens cfg }
