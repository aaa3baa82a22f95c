-- ===== src/Examples/Delivered.antt =====
-- The redirects of the authorization endpoint.
use oidc_proxy.Base.{
  ℕ, ◌+◌, ◌*◌, ◌≤◌, ◌≡◌, ◌≢◌, ◌↔◌, refl, sym, ◌∙◌, all, ltb, ltb→lt, &&-eq-true, Bool, true, false,
  Option, none, some, List, [], ◌∷◌, ◌++◌, Text, arith, codes, String, if◌then◌else◌, Message,
  message, text_eq, Result, ok, err,
}
use oidc_proxy.Url.{Url, url_parse}
use oidc_proxy.Url.Values.RoundTrip.{IsBytes}
use oidc_proxy.Url.Values.Encoded.{IsByteValues}
use oidc_proxy.Url.Values.{parse_query}
use oidc_proxy.Mcpauth.Claims.{AuthReqClaims}
use oidc_proxy.Web.Response.{redirect_query}
use oidc_proxy.Web.Authorize.{reconstruct_authorize_url, deliver_code}
use oidc_proxy.Web.Authorize.Delivered.{
  IsDelivered, IsByteClaims, AsksFor, deliver_code-IsDelivered, reconstruct_authorize_url-AsksFor,
}
use oidc_proxy.Examples.Tokens.Fixture.{server, consent}

abbrev callback : Url
callback = record {
  scheme = codes "http";
  has_user = false;
  host = codes "localhost";
  path = codes "/cb";
  raw_query = codes "from=a%20b";
  fragment = [];
}

abbrev stateful : AuthReqClaims
stateful = record consent {
  redirect_uri = codes "http://localhost/cb?from=a%20b";
  state = codes "s&t=u";
}

callback_parsed : url_parse stateful.redirect_uri ≡ some callback
unfolding url_parse
callback_parsed = refl

callback_query : parse_query callback.raw_query ≡ (codes "from", codes "a b") ∷ []
unfolding parse_query oidc_proxy.Url.Values.parse_pairs oidc_proxy.Base.split codes
    oidc_proxy.Url.Values.parse_pair oidc_proxy.Base.cut oidc_proxy.Url.Values.query_unescape
    oidc_proxy.Url.Escape.unescape oidc_proxy.Url.Values.plus_to_space
callback_query = refl

bytes : (s : Text) → all (λ b. ltb b 256) s ≡ true → IsBytes s
unfolding all
bytes [] h = tt
bytes (b ∷ s) h =
    let (p, q) = &&-eq-true (ltb b 256) (all (λ b. ltb b 256) s) h in (ltb→lt b 256 p, bytes s q)

code_bytes : IsBytes (7 ∷ [])
unfolding all
code_bytes = bytes (7 ∷ []) refl

issuer_bytes : IsBytes server.issuer
unfolding all codes
issuer_bytes = bytes (codes "https://as.test") refl

state_bytes : IsBytes stateful.state
unfolding all codes
state_bytes = bytes (codes "s&t=u") refl

query_bytes : IsByteValues ((codes "from", codes "a b") ∷ [])
unfolding all codes
query_bytes = ((bytes (codes "from") refl, bytes (codes "a b") refl), tt)

deliver_code-IsDelivered_example :
    (query : Text) × ((deliver_code server stateful (7 ∷ [])).body
      ≡ redirect_query stateful.redirect_uri query)
    × IsDelivered server stateful (7 ∷ []) callback query
deliver_code-IsDelivered_example =
    deliver_code-IsDelivered server stateful (7 ∷ []) callback callback_parsed
      (rw callback_query query_bytes) code_bytes issuer_bytes state_bytes

stateful_bytes : IsByteClaims stateful
unfolding all codes
stateful_bytes = record {
  client_id = bytes (codes "app") refl;
  redirect_uri = bytes (codes "http://localhost/cb?from=a%20b") refl;
  code_challenge = bytes (codes "v") refl;
  resource = bytes (codes "https://as.test/mcp") refl;
  scope = bytes (codes "mcp") refl;
  state = bytes (codes "s&t=u") refl;
}

reconstruct_authorize_url-AsksFor_example :
    (query : Text) × (reconstruct_authorize_url stateful ≡ codes "/oauth2/authorize?" ++ query)
    × AsksFor (parse_query query) stateful
reconstruct_authorize_url-AsksFor_example =
    reconstruct_authorize_url-AsksFor stateful stateful_bytes
