-- ===== src/Config.antt =====
-- internal/config/config.go: loading the configuration, and cmd/oidc-proxy/main.go, `buildAS`. The
-- package envconfig, which reads the environment, and the file system are parameters.
pub mod Loaded
use oidc_proxy.Base.{
  ℕ, Bool, true, false, not, ◌&&◌, ◌||◌, Option, none, some, List, [], ◌∷◌, ◌++◌, map, Text, codes,
  to_lower, trim_space, fields, contains, is_empty, length, leb, ◌==◌, all, if◌then◌else◌, ℤ,
  Message, message, Result, ok, err,
}
use oidc_proxy.Url.{Url}
use oidc_proxy.Mcpauth.Artifacts.{◌>>=◌}
use oidc_proxy.Mcpauth.AuthServer.{AuthServer}
use oidc_proxy.Mcpauth.Keys.Load.{KeyTools}
use oidc_proxy.Mcpauth.Options.{Options, CimdOptions, new_auth_server}

pub record Config : Type 0 where
  pub issuer : Text
  pub client_id : Text
  pub scopes : Text
  pub allowed_emails : List Text
  pub allowed_domains : List Text
  pub cookie_prefix : Text
  pub cookie_domain : Text
  pub cookie_secure : Bool
  pub verify_cache_size : ℤ
  pub listen_addr : Text
  pub sign_in_title : Text
  pub sign_in_subtitle : Text
  pub sign_in_button : Text
  pub brand_color : Text
  pub mcp_enabled : Bool
  pub mcp_issuer : Text
  pub mcp_resource : Text
  pub mcp_resource_docs : Text
  pub mcp_signing_key : Text
  pub mcp_signing_key_file : Text
  pub mcp_signing_kid : Text
  pub mcp_enc_key : Text
  pub mcp_access_token_ttl : ℤ
  pub mcp_refresh_token_ttl : ℤ
  pub mcp_code_ttl : ℤ
  pub mcp_auth_req_ttl : ℤ
  pub mcp_scopes_supported : List Text
  pub mcp_required_scopes : List Text
  pub mcp_cimd : CimdOptions

abbrev pub default_brand_color : Text
default_brand_color = codes "#2563eb"

unfoldable pub is_hex_digit : ℕ → Bool
is_hex_digit b =
    (leb b'0' b && leb b b'9') || (leb b'a' b && leb b b'f') || (leb b'A' b && leb b b'F')

-- `brandColorRe`: a number sign and 3, 4, 6 or 8 hexadecimal digits
unfoldable pub is_brand_color : Text → Bool
is_brand_color [] = false
is_brand_color (c ∷ digits) =
    let n = length digits in
    c == b'#' && all is_hex_digit digits && (n == 3 || n == 4 || n == 6 || n == 8)

abbrev pub folded : Text → Text
folded s = to_lower (trim_space s)

unfoldable pub normalize_scopes : List Text → List Text
normalize_scopes [] = []
normalize_scopes (s ∷ scopes) =
    let rest = normalize_scopes scopes in
    let trimmed = trim_space s in if is_empty trimmed then rest else trimmed ∷ rest

-- `validateMCP`: the error, if there is one
unfoldable pub validate_mcp : Config → Option Message
validate_mcp c =
    if not c.mcp_enabled
    then none
    else if is_empty c.mcp_issuer
    then some (message "MCP_ENABLED=true requires MCP_ISSUER")
    else if is_empty c.mcp_resource
    then some (message "MCP_ENABLED=true requires MCP_RESOURCE")
    else if is_empty c.mcp_signing_key && is_empty c.mcp_signing_key_file
    then some (message "MCP_ENABLED=true requires MCP_SIGNING_KEY or MCP_SIGNING_KEY_FILE")
    else if is_empty c.mcp_scopes_supported
    then some (message "MCP_SCOPES_SUPPORTED must list at least one scope")
    else none

-- What `Load` changes of a configuration.
unfoldable pub normalized : Config → Config
normalized c = record c {
  scopes =
      if not (contains (fields c.scopes) (codes "openid"))
      then codes "openid " ++ trim_space c.scopes
      else c.scopes;
  allowed_emails = map folded c.allowed_emails;
  allowed_domains = map folded c.allowed_domains;
  brand_color = if not (is_brand_color c.brand_color) then default_brand_color else c.brand_color;
  mcp_scopes_supported = normalize_scopes c.mcp_scopes_supported;
  mcp_required_scopes = normalize_scopes c.mcp_required_scopes;
}

-- The end of `Load`.
unfoldable pub validated_config : Config → Result Config
validated_config c = elim (validate_mcp c) [ some e ↦ err e | none ↦ ok c ]

-- `Load`, given what `envconfig.Process` reads
unfoldable pub load : Result Config → Result Config
load process = do c ← process; validated_config (normalized c)

unfoldable pub options_of : Config → Text → Options
options_of c signing_pem = record {
  issuer = c.mcp_issuer;
  resource = c.mcp_resource;
  resource_docs = c.mcp_resource_docs;
  scopes_supported = c.mcp_scopes_supported;
  required_scopes = c.mcp_required_scopes;
  signing_key_pem = signing_pem;
  signing_kid = c.mcp_signing_kid;
  enc_key_b64 = c.mcp_enc_key;
  access_ttl = c.mcp_access_token_ttl;
  refresh_ttl = c.mcp_refresh_token_ttl;
  code_ttl = c.mcp_code_ttl;
  auth_req_ttl = c.mcp_auth_req_ttl;
  cimd = c.mcp_cimd;
}

-- `buildAS`; `none` is the nil server. `read_file` is `os.ReadFile`, as a string.
unfoldable pub build_as :
    KeyTools → (Url → Text) → (Text → Result Text) → Config → Result (Option AuthServer)
build_as t url_string read_file c = if not c.mcp_enabled then ok none else do
  signing_pem ←
      (if is_empty c.mcp_signing_key && not (is_empty c.mcp_signing_key_file)
        then read_file c.mcp_signing_key_file
        else ok c.mcp_signing_key)
  srv ← new_auth_server t url_string (options_of c signing_pem)
  ok (some srv)
