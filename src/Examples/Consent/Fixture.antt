-- ===== src/Examples/Consent/Fixture.antt =====
-- A proxy, a client, a browser and a consent page.
use oidc_proxy.Base.{
  ℕ, ◌*◌, true, false, none, some, [], ◌∷◌, Text, codes, if◌then◌else◌, Message, message, text_eq,
  Result, ok, err,
}
use oidc_proxy.Http.{Values, Request}
use oidc_proxy.TtlCache.Table.{table_cache}
use oidc_proxy.Token.{Verified}
use oidc_proxy.Mcpauth.Jose.{Object, Jose, JoseLaws, second}
use oidc_proxy.Mcpauth.Claims.{use_client, no_claims, object_of_auth_req, object_of_client}
use oidc_proxy.Mcpauth.Artifacts.{AuthReqInput, auth_req_claims}
use oidc_proxy.Mcpauth.Cimd.{ClientMetadata}
use oidc_proxy.Web.Response.{ConsentData}
use oidc_proxy.Web.Authorize.{Server, AuthorizeState, VerifiedId}
use oidc_proxy.Web.Authorize.Get.{CheckedRequest}
use oidc_proxy.Examples.ToyJose.{toy_jose, toy_laws}
use oidc_proxy.Examples.Tokens.Fixture.{rand, noon, server, plain_jose}

abbrev pub ann : Verified
ann = record { subject = codes "u1"; email = codes "ann@x.test"; nonce = []; expiry = 100 }

-- A verifier without a state of its own that accepts one token.
abbrev pub verify_fn : ℕ → Text → Unit {0} → Unit {0} × Result Verified
verify_fn now tok s = (s, if text_eq tok (codes "good") then ok ann else err (message "bad token"))

abbrev pub proxy : Server (Unit {0})
proxy = record {
  auth_server = server;
  resolver = record {
    fetch_url = λ now url. err (message "no network");
    allowed = [];
    default_ttl = 900 * second;
  };
  cookies = record { cookie_prefix = codes "_p"; cookie_domain = []; cookie_secure = true };
  policy = record { allowed_emails = []; allowed_domains = [] };
  brand_color = codes "#2563eb";
  verify_fn = verify_fn;
}

abbrev pub error_text : Message → Text
error_text m = codes m.format

abbrev client_token : Text
client_token = 1 ∷ codes "k1"

abbrev client_object : Object
client_object = object_of_client (record {
  claims = no_claims;
  token_use = use_client;
  redirect_uris = codes "http://localhost/cb" ∷ [];
  client_name = codes "App";
})

abbrev pub input : AuthReqInput
input = record {
  client_id = client_token;
  redirect_uri = codes "http://localhost/cb";
  code_challenge = codes "v";
  resource = codes "https://as.test/mcp";
  scope = codes "mcp";
  state = codes "s t";
  sub = codes "u1";
  email = codes "ann@x.test";
}

abbrev blob_object : Object
blob_object = object_of_auth_req (auth_req_claims plain_jose rand server noon 0 input)

abbrev pub jose : Jose
jose = toy_jose blob_object client_object

abbrev pub laws : JoseLaws jose
laws = toy_laws blob_object client_object

abbrev pub query : Values
query =
    (codes "client_id", client_token)
    ∷ (codes "redirect_uri", codes "http://localhost/cb")
    ∷ (codes "response_type", codes "code")
    ∷ (codes "code_challenge", codes "v")
    ∷ (codes "code_challenge_method", codes "S256")
    ∷ (codes "resource", codes "https://as.test/mcp")
    ∷ (codes "scope", codes "mcp")
    ∷ (codes "state", codes "s t")
    ∷ []

abbrev pub asking : Request
asking = record {
  method = codes "GET";
  header = [];
  tls = true;
  host = codes "as.test";
  remote_addr = codes "10.0.0.1:5000";
  cookies = (codes "_p_id_token", codes "good") ∷ [];
  query = query;
  raw_query = codes "client_id=app";
  path_suffix = [];
  post_form = none;
  session_body = none;
  register_body = none;
}

abbrev pub form : Values
form = (codes "authreq", 0 ∷ []) ∷ (codes "csrf", 1 ∷ []) ∷ (codes "action", codes "approve") ∷ []

abbrev pub approving : Request
approving = record asking {
  method = codes "POST";
  header = (codes "Origin", codes "https://as.test") ∷ [];
  post_form = some form;
}

abbrev pub start : AuthorizeState table_cache (Unit {0})
start = record { draws = 0; limiter = none; cache = record { cap = 8; rows = [] }; session = tt }

abbrev pub client : ClientMetadata
client = record {
  client_id = client_token;
  client_name = codes "App";
  client_uri = [];
  redirect_uris = codes "http://localhost/cb" ∷ [];
  cimd = false;
}

abbrev pub asked : CheckedRequest
asked = record {
  redirect_uri = codes "http://localhost/cb";
  code_challenge = codes "v";
  scope = codes "mcp";
  state = codes "s t";
}

abbrev pub user : VerifiedId
user = record { subject = codes "u1"; email = codes "ann@x.test" }

abbrev pub page : ConsentData
page = record {
  redirect_host = codes "localhost";
  redirect_origin = codes "http://localhost";
  client_name = codes "App";
  client_host = [];
  loopback_only = true;
  resource = codes "https://as.test/mcp";
  scopes = codes "mcp" ∷ [];
  auth_req = 0 ∷ [];
  csrf = 1 ∷ [];
  brand_color = codes "#2563eb";
}
