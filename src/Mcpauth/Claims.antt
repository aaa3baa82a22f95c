-- ===== src/Mcpauth/Claims.antt =====
-- internal/mcpauth/artifacts.go, the claim shapes: one record for each artifact, its JSON object,
-- and what a struct of that kind decodes from an object (members that it lacks are ignored).
use oidc_proxy.Base.{List, [], Text, none, codes}
use oidc_proxy.Mcpauth.Jose.{Registered, Object}

-- The values of `token_use`.
abbrev pub use_client : Text
use_client = codes "client"

abbrev pub use_auth_req : Text
use_auth_req = codes "authreq"

abbrev pub use_code : Text
use_code = codes "code"

abbrev pub use_access : Text
use_access = codes "access"

abbrev pub use_refresh : Text
use_refresh = codes "refresh"

-- `jwt.Claims{}`
abbrev pub no_claims : Registered
no_claims = record {
  issuer = [];
  subject = [];
  audience = [];
  expiry = none;
  not_before = none;
  issued_at = none;
  id = [];
}

abbrev pub empty_object : Object
empty_object = record {
  claims = no_claims;
  token_use = [];
  redirect_uris = [];
  client_name = [];
  client_id = [];
  redirect_uri = [];
  code_challenge = [];
  resource = [];
  scope = [];
  state = [];
  email = [];
  csrf = [];
  family = [];
}

pub record ClientClaims : Type 0 where
  pub claims : Registered
  pub token_use : Text
  pub redirect_uris : List Text
  pub client_name : Text

abbrev pub object_of_client : ClientClaims → Object
object_of_client c = record empty_object {
  claims = c.claims;
  token_use = c.token_use;
  redirect_uris = c.redirect_uris;
  client_name = c.client_name;
}

abbrev pub client_of_object : Object → ClientClaims
client_of_object o = record {
  claims = o.claims;
  token_use = o.token_use;
  redirect_uris = o.redirect_uris;
  client_name = o.client_name;
}

pub record AuthReqClaims : Type 0 where
  pub claims : Registered
  pub token_use : Text
  pub client_id : Text
  pub redirect_uri : Text
  pub code_challenge : Text
  pub resource : Text
  pub scope : Text
  pub state : Text
  pub email : Text
  pub csrf : Text

abbrev pub object_of_auth_req : AuthReqClaims → Object
object_of_auth_req c = record empty_object {
  claims = c.claims;
  token_use = c.token_use;
  client_id = c.client_id;
  redirect_uri = c.redirect_uri;
  code_challenge = c.code_challenge;
  resource = c.resource;
  scope = c.scope;
  state = c.state;
  email = c.email;
  csrf = c.csrf;
}

abbrev pub auth_req_of_object : Object → AuthReqClaims
auth_req_of_object o = record {
  claims = o.claims;
  token_use = o.token_use;
  client_id = o.client_id;
  redirect_uri = o.redirect_uri;
  code_challenge = o.code_challenge;
  resource = o.resource;
  scope = o.scope;
  state = o.state;
  email = o.email;
  csrf = o.csrf;
}

pub record CodeClaims : Type 0 where
  pub claims : Registered
  pub token_use : Text
  pub client_id : Text
  pub redirect_uri : Text
  pub code_challenge : Text
  pub resource : Text
  pub scope : Text
  pub email : Text

abbrev pub object_of_code : CodeClaims → Object
object_of_code c = record empty_object {
  claims = c.claims;
  token_use = c.token_use;
  client_id = c.client_id;
  redirect_uri = c.redirect_uri;
  code_challenge = c.code_challenge;
  resource = c.resource;
  scope = c.scope;
  email = c.email;
}

abbrev pub code_of_object : Object → CodeClaims
code_of_object o = record {
  claims = o.claims;
  token_use = o.token_use;
  client_id = o.client_id;
  redirect_uri = o.redirect_uri;
  code_challenge = o.code_challenge;
  resource = o.resource;
  scope = o.scope;
  email = o.email;
}

pub record AccessClaims : Type 0 where
  pub claims : Registered
  pub token_use : Text
  pub scope : Text
  pub email : Text
  pub client_id : Text

abbrev pub object_of_access : AccessClaims → Object
object_of_access c = record empty_object {
  claims = c.claims;
  token_use = c.token_use;
  scope = c.scope;
  email = c.email;
  client_id = c.client_id;
}

abbrev pub access_of_object : Object → AccessClaims
access_of_object o = record {
  claims = o.claims;
  token_use = o.token_use;
  scope = o.scope;
  email = o.email;
  client_id = o.client_id;
}

pub record RefreshClaims : Type 0 where
  pub claims : Registered
  pub token_use : Text
  pub client_id : Text
  pub resource : Text
  pub scope : Text
  pub email : Text
  pub family : Text

abbrev pub object_of_refresh : RefreshClaims → Object
object_of_refresh c = record empty_object {
  claims = c.claims;
  token_use = c.token_use;
  client_id = c.client_id;
  resource = c.resource;
  scope = c.scope;
  email = c.email;
  family = c.family;
}

abbrev pub refresh_of_object : Object → RefreshClaims
refresh_of_object o = record {
  claims = o.claims;
  token_use = o.token_use;
  client_id = o.client_id;
  resource = o.resource;
  scope = o.scope;
  email = o.email;
  family = o.family;
}
