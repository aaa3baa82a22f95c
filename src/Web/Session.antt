-- ===== src/Web/Session.antt =====
-- internal/web/session.go: the tokens of a browser session, kept in cookies.
pub mod Jar
use oidc_proxy.Base.{
  ℕ, ◌+◌, ◌*◌, Bool, true, false, List, [], ◌∷◌, ◌++◌, String, Text, codes, is_empty, if◌then◌else◌,
}
use oidc_proxy.Http.{Values, first_value, Request, Cookie}
use oidc_proxy.Mcpauth.Jose.{second}

pub record Tokens : Type 0 where
  pub id_token : Text
  pub access_token : Text
  pub refresh_token : Text

-- What the cookies need of the configuration.
pub record CookieConfig : Type 0 where
  pub cookie_prefix : Text
  pub cookie_domain : Text
  pub cookie_secure : Bool

abbrev pub suffix_id_token : Text
suffix_id_token = codes "_id_token"

abbrev pub suffix_access_token : Text
suffix_access_token = codes "_access_token"

abbrev pub suffix_refresh_token : Text
suffix_refresh_token = codes "_refresh_token"

abbrev pub cookie_lifetime : ℕ
cookie_lifetime = 30 * 24 * 3600 * second

-- The value of the first cookie with a name, or the empty text.
unfoldable pub cookie_value : Values → Text → Text
cookie_value cookies name = first_value name cookies

module _ (cfg : CookieConfig) where
  unfoldable pub cookie_name : Text → Text
  cookie_name suffix = cfg.cookie_prefix ++ suffix

  -- `readTokens`, of the cookies of the request
  unfoldable pub read_tokens : Values → Tokens
  read_tokens cookies = record {
    id_token = cookie_value cookies (cookie_name suffix_id_token);
    access_token = cookie_value cookies (cookie_name suffix_access_token);
    refresh_token = cookie_value cookies (cookie_name suffix_refresh_token);
  }

  unfoldable pub make_cookie : Text → Text → ℕ → Cookie
  make_cookie name value expires = record {
    name = name;
    value = value;
    path = "/";
    domain = cfg.cookie_domain;
    expires = expires;
    http_only = false;
    secure = cfg.cookie_secure;
    same_site_lax = true;
    deleted = is_empty value;
  }

  -- The cookie of one token, set only if there is one.
  abbrev pub token_cookie : ℕ → Text → Text → List Cookie
  token_cookie now suffix value =
      if is_empty value
      then []
      else make_cookie (cookie_name suffix) value (now + cookie_lifetime) ∷ []

  unfoldable pub write_tokens : ℕ → Tokens → List Cookie
  write_tokens now t =
      token_cookie now suffix_id_token t.id_token
      ++ token_cookie now suffix_access_token t.access_token
      ++ token_cookie now suffix_refresh_token t.refresh_token

  unfoldable pub clear_tokens : List Cookie
  clear_tokens =
      make_cookie (cookie_name suffix_id_token) [] 0
      ∷ make_cookie (cookie_name suffix_access_token) [] 0
      ∷ make_cookie (cookie_name suffix_refresh_token) [] 0
      ∷ []
