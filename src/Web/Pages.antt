-- ===== src/Web/Pages.antt =====
-- internal/web/handlers.go, the pages: `handleSignIn`, `handleStart`, `handleCallback`,
-- `handleRefresh`, `renderHTML` and `newCSPNonce`, with the page data of internal/web/templates.go.
-- The endpoints of the provider are configuration. The nonce is the next identifier that is drawn.
pub mod SignIn
use oidc_proxy.Base.{ℕ, ◌+◌, [], ◌∷◌, ◌++◌, Text, codes, is_empty, if◌then◌else◌}
use oidc_proxy.Http.{Request, get}
use oidc_proxy.Url.Query.{query_escape}
use oidc_proxy.Utils.{sanitize_redirect, origin_of}
use oidc_proxy.Web.Response.{
  Response, Body, FlowData, page_headers, sign_in_page, start_page, callback_page, refresh_page,
}

-- What the pages show of the configuration and of the provider.
pub record PageConfig : Type 0 where
  pub sign_in_title : Text
  pub sign_in_subtitle : Text
  pub sign_in_button : Text
  pub brand_color : Text
  pub client_id : Text
  pub scopes : Text
  pub auth_url : Text
  pub token_url : Text
  pub cookie_prefix : Text

module _ (rand : ℕ → Text) (cfg : PageConfig) where
  -- The sources of the page's `connect-src`.
  unfoldable pub connect_src : Text
  connect_src =
      if is_empty (origin_of cfg.token_url)
      then codes "'self'"
      else codes "'self'" ++ codes " " ++ origin_of cfg.token_url

  -- `renderHTML`, for a page as a function of its nonce
  unfoldable pub render_html : ℕ → (Text → Body) → ℕ × Response
  render_html draws page = (
    draws + 1,
    record {
      status = 200;
      headers =
          page_headers
          ++ (
            "Content-Security-Policy",
            codes "default-src 'none'; script-src 'nonce-"
                ++ rand draws
                ++ codes "'; style-src 'unsafe-inline'; connect-src "
                ++ connect_src,
          )
            ∷ [];
      cookies = [];
      body = page (rand draws);
    },
  )

  abbrev rd_or_root : Request → Text
  rd_or_root r =
      let rd = sanitize_redirect (get r.query "rd") in if is_empty rd then codes "/" else rd

  unfoldable pub flow_data : Text → Text → FlowData
  flow_data rd nonce = record {
    client_id = cfg.client_id;
    scopes = cfg.scopes;
    authorize_endpoint = cfg.auth_url;
    token_endpoint = cfg.token_url;
    cookie_prefix = cfg.cookie_prefix;
    brand_color = cfg.brand_color;
    redirect = rd;
    nonce = nonce;
  }

  unfoldable pub handle_sign_in : Request → ℕ → ℕ × Response
  handle_sign_in r draws =
      let rd = sanitize_redirect (get r.query "rd") in
      render_html draws (λ nonce. sign_in_page (record {
        title = cfg.sign_in_title;
        subtitle = cfg.sign_in_subtitle;
        button = cfg.sign_in_button;
        start_url =
            codes "/oauth2/start" ++ (if is_empty rd then [] else codes "?rd=" ++ query_escape rd);
        brand_color = cfg.brand_color;
        nonce = nonce;
      }))

  unfoldable pub handle_start : Request → ℕ → ℕ × Response
  handle_start r draws = render_html draws (λ nonce. start_page (flow_data (rd_or_root r) nonce))

  unfoldable pub handle_callback : ℕ → ℕ × Response
  handle_callback draws = render_html draws (λ nonce. callback_page (flow_data [] nonce))

  unfoldable pub handle_refresh : Request → ℕ → ℕ × Response
  handle_refresh r draws =
      render_html draws (λ nonce. refresh_page (flow_data (rd_or_root r) nonce))
