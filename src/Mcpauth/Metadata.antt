-- ===== src/Mcpauth/Metadata.antt =====
-- internal/mcpauth/mcpauth.go, the metadata documents: `ASMetadata` and `PRMetadata`.
use oidc_proxy.Base.{Bool, true, List, [], ◌∷◌, Text, codes, if◌then◌else◌}
use oidc_proxy.Mcpauth.AuthServer.{AuthServer}
use oidc_proxy.Mcpauth.Resource.{
  authorization_endpoint, token_endpoint, registration_endpoint, jwks_uri,
}

pub record AsMetadata : Type 0 where
  pub issuer : Text
  pub authorization_endpoint : Text
  pub token_endpoint : Text
  pub registration_endpoint : Text
  pub jwks_uri : Text
  pub response_types_supported : List Text
  pub response_modes_supported : List Text
  pub grant_types_supported : List Text
  pub token_endpoint_auth_methods_supported : List Text
  pub code_challenge_methods_supported : List Text
  pub scopes_supported : List Text
  pub client_id_metadata_document_supported : Bool
  pub authorization_response_iss_parameter_supported : Bool
  pub subject_types_supported : List Text
  pub id_token_signing_alg_values_supported : List Text

-- `ASMetadata(oidc)`
unfoldable pub as_metadata : AuthServer → Bool → AsMetadata
as_metadata srv oidc = record {
  issuer = srv.issuer;
  authorization_endpoint = authorization_endpoint srv;
  token_endpoint = token_endpoint srv;
  registration_endpoint = registration_endpoint srv;
  jwks_uri = jwks_uri srv;
  response_types_supported = codes "code" ∷ [];
  response_modes_supported = codes "query" ∷ [];
  grant_types_supported = codes "authorization_code" ∷ codes "refresh_token" ∷ [];
  token_endpoint_auth_methods_supported = codes "none" ∷ [];
  code_challenge_methods_supported = codes "S256" ∷ [];
  scopes_supported = srv.scopes_supported;
  client_id_metadata_document_supported = srv.cimd_enabled;
  authorization_response_iss_parameter_supported = true;
  subject_types_supported = if oidc then codes "public" ∷ [] else [];
  id_token_signing_alg_values_supported = if oidc then codes "ES256" ∷ [] else [];
}

pub record PrMetadata : Type 0 where
  pub resource : Text
  pub authorization_servers : List Text
  pub scopes_supported : List Text
  pub bearer_methods_supported : List Text
  pub resource_documentation : Text

-- `PRMetadata()`
unfoldable pub pr_metadata : AuthServer → PrMetadata
pr_metadata srv = record {
  resource = srv.resource;
  authorization_servers = srv.issuer ∷ [];
  scopes_supported = srv.scopes_supported;
  bearer_methods_supported = codes "header" ∷ [];
  resource_documentation = srv.resource_docs;
}
