-- ===== src/Examples/Register.antt =====
-- Dynamic client registration.
use oidc_proxy.Base.{
  ℕ, ◌*◌, ◌≡◌, ◌≢◌, ◌↔◌, refl, Bool, true, false, Option, none, some, List, [], ◌∷◌, ◌++◌, Text,
  arith, codes, String, if◌then◌else◌, Message, message, All, Result, ok, err,
}
use oidc_proxy.Http.{Request, DcrRequest}
use oidc_proxy.Utils.{client_ip}
use oidc_proxy.TtlCache.Table.{table_cache}
use oidc_proxy.Mcpauth.Jose.{Object, Jose, JoseLaws}
use oidc_proxy.Mcpauth.Claims.{empty_object, object_of_client}
use oidc_proxy.Mcpauth.Artifacts.{ClientRegistration, client_claims}
use oidc_proxy.Mcpauth.RedirectUri.{is_url_client_id}
use oidc_proxy.Web.RateLimiter.{allow}
use oidc_proxy.Web.Response.{DcrResponse, registration}
use oidc_proxy.Web.Register.{RegisterState, handle_register}
use oidc_proxy.Web.Register.Registered.{IsValidUri, IsRegistered, registration_iff}
use oidc_proxy.Web.Register.Resolved.{IsRegistrationCarried, Resolves, registered_client-Resolves}
use oidc_proxy.Examples.ToyJose.{toy_jose, toy_laws}
use oidc_proxy.Examples.Tokens.Fixture.{rand, noon, server, plain_jose}

abbrev error_text : Message → Text
error_text m = codes m.format

abbrev registered : ClientRegistration
registered = record { redirect_uris = codes "http://localhost/cb" ∷ []; client_name = codes "App" }

abbrev client_object : Object
client_object = object_of_client (client_claims plain_jose rand server noon 0 registered)

abbrev jose : Jose
jose = toy_jose client_object empty_object

abbrev laws : JoseLaws jose
laws = toy_laws client_object empty_object

abbrev body : DcrRequest
body = record {
  client_name = codes "App";
  redirect_uris = codes "http://localhost/cb" ∷ [];
  grant_types = [];
  response_types = [];
  token_endpoint_auth_method = codes "none";
  application_type = codes "native";
  scope = [];
}

abbrev request : Request
request = record {
  method = codes "POST";
  header = [];
  tls = true;
  host = codes "as.test";
  remote_addr = codes "10.0.0.1:5000";
  cookies = [];
  query = [];
  raw_query = [];
  path_suffix = [];
  post_form = none;
  session_body = none;
  register_body = some body;
}

abbrev start : RegisterState table_cache
start = record { draws = 0; limiter = none }

abbrev answer : DcrResponse
answer = record {
  client_id = 0 ∷ codes "k1";
  client_id_issued_at = 43_200;
  redirect_uris = codes "http://localhost/cb" ∷ [];
  grant_types = codes "authorization_code" ∷ codes "refresh_token" ∷ [];
  response_types = codes "code" ∷ [];
  token_endpoint_auth_method = codes "none";
  application_type = codes "native";
  client_name = codes "App";
  scope = [];
}

registration_iff_example :
    ((handle_register table_cache jose rand error_text server noon request start).1.body
      ≡ registration answer)
    ↔ (((allow table_cache noon (client_ip request) none).1 ≡ true)
        × ((req : DcrRequest) × (some body ≡ some req)
            × IsRegistered table_cache jose rand error_text server noon req 0 answer))
registration_iff_example =
    registration_iff table_cache jose rand error_text server noon request start answer

answered :
    (handle_register table_cache jose rand error_text server noon request start).1.body
    ≡ registration answer
unfolding handle_register allow oidc_proxy.Web.Register.register_body codes oidc_proxy.Base.text_eq
    oidc_proxy.Web.Register.register_uris oidc_proxy.Web.Register.first_invalid
    oidc_proxy.Mcpauth.RedirectUri.validate_redirect_uri oidc_proxy.Url.url_parse
    oidc_proxy.Url.is_abs oidc_proxy.Mcpauth.RedirectUri.has_fragment
    oidc_proxy.Mcpauth.RedirectUri.is_loopback_host oidc_proxy.Url.hostname
    oidc_proxy.Url.strip_port oidc_proxy.Web.Register.register_client
    oidc_proxy.Mcpauth.Artifacts.mint_client_id oidc_proxy.Mcpauth.Artifacts.sign_claims
    oidc_proxy.Base.all oidc_proxy.Base.any oidc_proxy.Base.contains_text oidc_proxy.Base.cut
    oidc_proxy.Base.cut_last oidc_proxy.Base.cut_prefix oidc_proxy.Base.has_prefix
    oidc_proxy.Base.has_suffix oidc_proxy.Base.is_space oidc_proxy.Base.lower
    oidc_proxy.Base.to_lower oidc_proxy.Base.trim_left oidc_proxy.Base.trim_right
    oidc_proxy.Base.trim_space oidc_proxy.Http.first_value oidc_proxy.Http.get client_claims
    oidc_proxy.Url.Authority.parse_authority oidc_proxy.Url.Authority.parse_bracketed
    oidc_proxy.Url.Authority.parse_host oidc_proxy.Url.Authority.parse_plain
    oidc_proxy.Url.Authority.scheme_from oidc_proxy.Url.Authority.split_zone
    oidc_proxy.Url.Authority.valid_optional_port oidc_proxy.Url.Authority.valid_userinfo
    oidc_proxy.Url.Escape.escaped_ok oidc_proxy.Url.Escape.host_char oidc_proxy.Url.Escape.is_alpha
    oidc_proxy.Url.Escape.is_digit oidc_proxy.Url.Escape.is_one_of oidc_proxy.Url.Escape.literal_ok
    oidc_proxy.Url.Escape.unescape oidc_proxy.Url.Escape.unescape_from oidc_proxy.Url.Escape.unhex
    oidc_proxy.Utils.bare_host oidc_proxy.Utils.bracketed_host client_ip
    oidc_proxy.Utils.first_field oidc_proxy.Utils.split_host oidc_proxy.Web.RateLimiter.allow_at
    oidc_proxy.Web.RateLimiter.hit oidc_proxy.Web.RateLimiter.open_window
    oidc_proxy.Web.Register.registration_of oidc_proxy.Web.Response.write_error
    oidc_proxy.Web.Response.write_error_text oidc_proxy.Web.Response.write_registration
    oidc_proxy.Mcpauth.Keys.key_material
answered = refl

carried :
    IsRegistrationCarried table_cache jose laws rand error_text server
      (codes "sk")
      (codes "k1")
      (codes "ek")
      refl
      noon
      0
      answer
unfolding oidc_proxy.Base.text_eq client_claims codes
carried = refl

not_url : is_url_client_id (0 ∷ codes "k1") ≡ false
unfolding is_url_client_id oidc_proxy.Base.contains_text codes
not_url = refl

registered_client-Resolves_example :
    Resolves table_cache jose laws rand error_text server
      (codes "sk")
      (codes "k1")
      (codes "ek")
      refl
      noon
      0
      answer
    × All IsValidUri (codes "http://localhost/cb" ∷ [])
registered_client-Resolves_example =
    registered_client-Resolves table_cache jose laws rand error_text server (codes "sk")
      (codes "k1") (codes "ek") refl noon request start answer answered carried
      (λ e. absurd (ground arith)) not_url
