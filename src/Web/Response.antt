-- ===== src/Web/Response.antt =====
-- The responses of the handlers, and the helpers of internal/web/mcp.go and internal/web/handlers.go
-- that write them: `writeError`, `writeTokenGrant`, `http.Error` and `http.Redirect`; and
-- internal/web/mcp_templates.go: `renderConsent` and `renderAuthzError`, with the data of the pages.
use oidc_proxy.Base.{
  ℕ, Bool, not, ◌&&◌, String, List, [], ◌∷◌, ◌++◌, Text, codes, ◌==◌, any, is_empty, if◌then◌else◌,
}
use oidc_proxy.Http.{Cookie}
use oidc_proxy.Mcpauth.Artifacts.{TokenGrant}
use oidc_proxy.Mcpauth.Keys.{JsonWebKey}
use oidc_proxy.Mcpauth.Metadata.{AsMetadata, PrMetadata}

-- `consentData`
pub record ConsentData : Type 0 where
  pub redirect_host : Text
  pub redirect_origin : Text
  pub client_name : Text
  pub client_host : Text
  pub loopback_only : Bool
  pub resource : Text
  pub scopes : List Text
  pub auth_req : Text
  pub csrf : Text
  pub brand_color : Text

-- `authzErrorData`
pub record AuthzErrorData : Type 0 where
  pub title : String
  pub message : String
  pub brand_color : Text

-- `dcrResponse`; the date is in seconds
pub record DcrResponse : Type 0 where
  pub client_id : Text
  pub client_id_issued_at : ℕ
  pub redirect_uris : List Text
  pub grant_types : List Text
  pub response_types : List Text
  pub token_endpoint_auth_method : Text
  pub application_type : Text
  pub client_name : Text
  pub scope : Text

-- `signInData`
pub record SignInData : Type 0 where
  pub title : Text
  pub subtitle : Text
  pub button : Text
  pub start_url : Text
  pub brand_color : Text
  pub nonce : Text

-- `flowData`
pub record FlowData : Type 0 where
  pub client_id : Text
  pub scopes : Text
  pub authorize_endpoint : Text
  pub token_endpoint : Text
  pub cookie_prefix : Text
  pub brand_color : Text
  pub redirect : Text
  pub nonce : Text

pub data Body : Type 0 where
  no_body : Body
  -- the text of `http.Error`
  plain : String → Body
  -- the target given to `http.Redirect`, which cleans the path of a relative one
  redirect : Text → Body
  -- the target `u.String()`, where `u` is the parse of the first text with the second as `RawQuery`
  redirect_query : Text → Text → Body
  -- the JSON object of `writeError`: error, error_description
  oauth_error : String → Text → Body
  -- the JSON object of `writeTokenGrant`
  token_grant : TokenGrant → Body
  -- the JSON object of a registration
  registration : DcrResponse → Body
  -- the JSON documents of discovery
  as_document : AsMetadata → Body
  pr_document : PrMetadata → Body
  key_set : List JsonWebKey → Body
  -- no answer: the handler panicked, and `net/http` closes the connection
  aborted_body : Body
  -- the pages of `consentTemplate` and `authzErrorTemplate`
  consent_page : ConsentData → Body
  authz_error_page : AuthzErrorData → Body
  -- the pages of `signInTemplate`, `startTemplate`, `callbackTemplate` and `refreshTemplate`
  sign_in_page : SignInData → Body
  start_page : FlowData → Body
  callback_page : FlowData → Body
  refresh_page : FlowData → Body

-- `headers` are in the order in which they are set; `cookies` are the Set-Cookie headers.
pub record Response : Type 0 where
  pub status : ℕ
  pub headers : List (String × Text)
  pub cookies : List Cookie
  pub body : Body

-- `w.WriteHeader(status)` after the given headers
abbrev pub bare : List (String × Text) → ℕ → Response
bare headers status = record { status = status; headers = headers; cookies = []; body = no_body }

-- A panic of the handler.
abbrev pub aborted : Response
aborted = record { status = 0; headers = []; cookies = []; body = aborted_body }

-- `http.Error(w, text, status)` after the given headers
unfoldable pub http_error : List (String × Text) → String → ℕ → Response
http_error headers text status = record {
  status = status;
  headers =
      headers
      ++ ("Content-Type", codes "text/plain; charset=utf-8")
        ∷ ("X-Content-Type-Options", codes "nosniff")
        ∷ [];
  cookies = [];
  body = plain text;
}

-- `http.Redirect(w, r, url, http.StatusFound)`
abbrev pub found : Text → Response
found url = record { status = 302; headers = []; cookies = []; body = redirect url }

-- The same for a changed query, after `Referrer-Policy: no-referrer`
abbrev pub found_query : Text → Text → Response
found_query raw query = record {
  status = 302;
  headers = ("Referrer-Policy", codes "no-referrer") ∷ [];
  cookies = [];
  body = redirect_query raw query;
}

abbrev content_json : List (String × Text) → List (String × Text)
content_json headers = headers ++ ("Content-Type", codes "application/json") ∷ []

unfoldable pub write_error : List (String × Text) → ℕ → String → String → Response
write_error headers status code desc = record {
  status = status;
  headers = content_json headers;
  cookies = [];
  body = oauth_error code (codes desc);
}

unfoldable pub write_token_grant : List (String × Text) → TokenGrant → Response
write_token_grant headers g = record {
  status = 200;
  headers = content_json headers;
  cookies = [];
  body = token_grant g;
}

-- `writeError` with a computed description
unfoldable pub write_error_text : ℕ → String → Text → Response
write_error_text status code desc = record {
  status = status;
  headers = content_json [];
  cookies = [];
  body = oauth_error code desc;
}

-- `writeJSON(w, http.StatusOK, v)`, where the body stands for `v`
unfoldable pub write_json : Body → Response
write_json body = record { status = 200; headers = content_json []; cookies = []; body = body }

-- `writeJSON(w, http.StatusCreated, ...)` of a registration
unfoldable pub write_registration : DcrResponse → Response
write_registration d = record {
  status = 201;
  headers = content_json [];
  cookies = [];
  body = registration d;
}

abbrev pub page_headers : List (String × Text)
page_headers =
    ("Content-Type", codes "text/html; charset=utf-8")
    ∷ ("Cache-Control", codes "no-store")
    ∷ ("X-Frame-Options", codes "DENY")
    ∷ []

-- The sources of the page's `form-action`.
unfoldable pub form_action : Text → Text
form_action origin =
    if not (is_empty origin) && not (any (λ c. any (λ d. d == c) (codes " \t\r\n;,'\"")) origin)
    then codes "'self'" ++ codes " " ++ origin
    else codes "'self'"

-- The data with the configured colour where it has none.
abbrev pub with_brand : Text → ConsentData → ConsentData
with_brand brand shown = record shown {
  brand_color = if is_empty shown.brand_color then brand else shown.brand_color;
}

-- `renderConsent(w, data)`, where `brand` is `s.cfg.BrandColor`
unfoldable pub render_consent : Text → ConsentData → Response
render_consent brand shown = record {
  status = 200;
  headers =
      page_headers
      ++ ("Referrer-Policy", codes "same-origin")
        ∷ (
          "Content-Security-Policy",
          codes "default-src 'none'; style-src 'unsafe-inline'; form-action "
              ++ form_action shown.redirect_origin
              ++ codes "; base-uri 'none'",
        )
        ∷ [];
  cookies = [];
  body = consent_page (with_brand brand shown);
}

unfoldable pub render_authz_error : Text → ℕ → String → String → Response
render_authz_error brand status title message = record {
  status = status;
  headers =
      page_headers
      ++ ("Content-Security-Policy", codes "default-src 'none'; style-src 'unsafe-inline'") ∷ [];
  cookies = [];
  body = authz_error_page (record { title = title; message = message; brand_color = brand });
}
