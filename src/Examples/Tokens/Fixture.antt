-- ===== src/Examples/Tokens/Fixture.antt =====
-- A server, a consent, a grant, and the stand-ins that carry their artifacts.
use oidc_proxy.Base.{ℕ, ◌+◌, ◌*◌, ◌≢◌, true, [], ◌∷◌, Text, codes, arith, text_eq, refl}
use oidc_proxy.Mcpauth.Jose.{Object, Jose, JoseLaws, second}
use oidc_proxy.Mcpauth.Claims.{
  use_auth_req, no_claims, empty_object, AuthReqClaims, object_of_code, object_of_access,
  object_of_refresh,
}
use oidc_proxy.Mcpauth.Keys.{key_material}
use oidc_proxy.Mcpauth.AuthServer.{AuthServer}
use oidc_proxy.Mcpauth.Artifacts.{
  GrantInput, TokenGrant, code_claims, access_claims, refresh_claims, grant_family,
}
use oidc_proxy.Mcpauth.Artifacts.Granted.{granted_access, granted_refresh}
use oidc_proxy.Examples.ToyJose.{toy_jose, toy_laws}

-- Identifiers that differ.
abbrev pub rand : ℕ → Text
rand n = (n + 1) ∷ []

abbrev pub noon : ℕ
noon = 43_200 * second

abbrev pub server : AuthServer
server = record {
  issuer = codes "https://as.test";
  resource = codes "https://as.test/mcp";
  resource_docs = [];
  scopes_supported = codes "mcp" ∷ codes "admin" ∷ [];
  required_scopes = codes "mcp" ∷ [];
  access_ttl = 900 * second;
  refresh_ttl = 2_592_000 * second;
  code_ttl = 60 * second;
  auth_req_ttl = 300 * second;
  keys = key_material (codes "sk") (codes "sk") (codes "k1") (codes "ek");
  cimd_enabled = true;
  canonical_resource = codes "https://as.test/mcp";
  prm_url = codes "https://as.test/.well-known/oauth-protected-resource/mcp";
  resource_suffix = codes "/mcp";
  issuer_suffix = [];
}

abbrev pub consent : AuthReqClaims
consent = record {
  claims = record no_claims { subject = codes "u1" };
  token_use = use_auth_req;
  client_id = codes "app";
  redirect_uri = codes "http://localhost/cb";
  code_challenge = codes "v";
  resource = codes "https://as.test/mcp";
  scope = codes "mcp";
  state = [];
  email = codes "ann@x.test";
  csrf = [];
}

abbrev pub plain_jose : Jose
plain_jose = toy_jose empty_object empty_object

abbrev pub code_object : Object
code_object = object_of_code (code_claims plain_jose rand server noon 0 consent)

abbrev pub code_jose : Jose
code_jose = toy_jose code_object empty_object

abbrev pub code_laws : JoseLaws code_jose
code_laws = toy_laws code_object empty_object

abbrev pub grant_input : GrantInput
grant_input = record {
  sub = codes "u1";
  email = codes "ann@x.test";
  client_id = codes "app";
  resource = codes "https://as.test/mcp";
  scope = codes "mcp";
  family = [];
}

abbrev pub access_object : Object
access_object = object_of_access (granted_access plain_jose rand server noon 0 grant_input)

abbrev pub refresh_object : Object
refresh_object = object_of_refresh (granted_refresh plain_jose rand server noon 0 grant_input)

abbrev pub grant_jose : Jose
grant_jose = toy_jose access_object refresh_object

abbrev pub grant_laws : JoseLaws grant_jose
grant_laws = toy_laws access_object refresh_object

abbrev pub grant : TokenGrant
grant = record {
  access_token = 0 ∷ codes "k1";
  refresh_token = 1 ∷ codes "k1";
  expires_in = 900;
  scope = codes "mcp";
}

pub issuer_set : codes "https://as.test" ≢ []
unfolding codes
issuer_set = λ e. absurd (ground arith)

-- The stand-ins carry the artifacts.
pub carried_code :
    code_laws.IsCarried (object_of_code (code_claims code_jose rand server noon 0 consent))
unfolding code_claims text_eq codes
carried_code = refl

pub carried_access :
    grant_laws.IsCarried
      (object_of_access (granted_access grant_jose rand server noon 0 grant_input))
unfolding access_claims text_eq codes
carried_access = refl

pub carried_refresh :
    grant_laws.IsCarried
      (object_of_refresh (granted_refresh grant_jose rand server noon 0 grant_input))
unfolding refresh_claims grant_family text_eq codes
carried_refresh = refl
