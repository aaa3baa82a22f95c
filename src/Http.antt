-- ===== src/Http.antt =====
-- What the program uses of `net/http`: requests as the handlers read them, and responses as the
-- handlers write them. Parsing a request, JSON and HTML templates are outside: a body is given
-- decoded, `none` standing for one that is too large or does not decode, and a response carries the
-- value that the code would encode or render.
use oidc_proxy.Base.{ℕ, Bool, Option, List, [], ◌∷◌, Text, String, if◌then◌else◌, codes, text_eq}

-- Headers, query parameters, form fields and cookies: names with values, in order.
abbrev pub Values : Type 0
Values = List (Text × Text)

-- The first value of a name, or the empty text.
unfoldable pub first_value : Text → Values → Text
first_value k [] = []
first_value k ((j, v) ∷ vs) = if text_eq j k then v else first_value k vs

-- `Get(name)`
unfoldable pub get : Values → String → Text
unfolding first_value codes
get vs name = first_value (codes name) vs

-- The body of POST /oauth2/session.
pub record SessionBody : Type 0 where
  pub id_token : Text
  pub access_token : Text
  pub refresh_token : Text
  pub nonce : Text

-- `dcrRequest`, the body of POST /oauth2/register.
pub record DcrRequest : Type 0 where
  pub client_name : Text
  pub redirect_uris : List Text
  pub grant_types : List Text
  pub response_types : List Text
  pub token_endpoint_auth_method : Text
  pub application_type : Text
  pub scope : Text

pub record Request : Type 0 where
  pub method : Text
  pub header : Values
  pub tls : Bool
  pub host : Text
  pub remote_addr : Text
  pub cookies : Values
  pub query : Values
  pub raw_query : Text
  pub path_suffix : Text
  pub post_form : Option Values
  pub session_body : Option SessionBody
  pub register_body : Option DcrRequest

-- `http.Cookie` as `makeCookie` fills it in; `expires` is in nanoseconds, and `deleted` stands for
-- `MaxAge = -1`.
pub record Cookie : Type 0 where
  pub name : Text
  pub value : Text
  pub path : String
  pub domain : Text
  pub expires : ℕ
  pub http_only : Bool
  pub secure : Bool
  pub same_site_lax : Bool
  pub deleted : Bool
