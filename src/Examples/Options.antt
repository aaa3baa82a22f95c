-- ===== src/Examples/Options.antt =====
-- The construction of a server, and the guard of its client.
use oidc_proxy.Base.{
  ℕ, ◌*◌, ◌<◌, ◌≡◌, ◌↔◌, refl, sym, ap, ◌∙◌, Bool, true, false, Option, none, some, List, [], ◌∷◌,
  ◌++◌, Text, String, arith, codes, length, if◌then◌else◌, text_eq, pos, negsuc, message, Result,
  ok, err,
}
use oidc_proxy.Config.{Config, load}
use oidc_proxy.Config.Loaded.{IsLoaded, load-IsLoaded}
use oidc_proxy.Url.{Url}
use oidc_proxy.Utils.{split_host}
use oidc_proxy.Mcpauth.AuthServer.{AuthServer}
use oidc_proxy.Mcpauth.Keys.Load.{KeyTools, hkdf_enc_key_info}
use oidc_proxy.Mcpauth.Options.{Options, new_auth_server, assemble}
use oidc_proxy.Mcpauth.Options.Configured.{IsConfigured, new_auth_server-IsConfigured}
use oidc_proxy.Mcpauth.Keys.{key_material}
use oidc_proxy.Mcpauth.Dial.{Ip, v4, dial_guard}
use oidc_proxy.Mcpauth.Dial.Ranges.{IsReserved, number, dial_guard_iff}

abbrev zeros : Text
zeros = codes "00000000000000000000000000000000"

-- Tools that take every PEM text for the key that it is.
abbrev tools : KeyTools
tools = record {
  decode_pem = λ pem. some (codes "PRIVATE KEY", pem);
  parse_ec = λ b. ok b;
  parse_pkcs8 = λ b. ok (some b);
  is_p256 = λ key. true;
  public = λ key. key;
  thumbprint = λ key. ok key;
  raw_url_base64 = λ b. b;
  marshal_pkcs8 = λ key. ok key;
  hkdf = λ secret info n. ok zeros;
  std_encoding = λ s. none;
  raw_std_encoding = λ s. none;
  url_encoding = λ s. none;
  raw_url_encoding = λ s. some s;
  new_signer = λ key kid. ok tt;
  new_encrypter = λ key. ok tt;
}

abbrev url_string : Url → Text
url_string u = u.scheme ++ codes "://" ++ u.host ++ u.path

abbrev options : Options
options = record {
  issuer = codes "https://as.test/";
  resource = codes "https://AS.test/mcp";
  resource_docs = [];
  scopes_supported = [];
  required_scopes = codes "mcp" ∷ [];
  signing_key_pem = codes "k";
  signing_kid = [];
  enc_key_b64 = [];
  access_ttl = negsuc 4;
  refresh_ttl = pos 0;
  code_ttl = pos 30;
  auth_req_ttl = pos 0;
  cimd = record {
    enabled = true;
    allowed_hosts = [];
    allow_private_hosts = false;
    cache_ttl = pos 0;
    cache_size = pos 0;
    timeout = pos 0;
  };
}

abbrev parsed : Text → Text → Url
parsed host path = record {
  scheme = codes "https";
  has_user = false;
  host = host;
  path = path;
  raw_query = [];
  fragment = [];
}

abbrev made : AuthServer
made =
    assemble tools url_string options (parsed (codes "as.test") (codes "/"))
      (parsed (codes "AS.test") (codes "/mcp"))
      (key_material (codes "k") (codes "k") (codes "k") zeros) (codes "mcp" ∷ [])

made_test : new_auth_server tools url_string options ≡ ok made
unfolding new_auth_server oidc_proxy.Mcpauth.Resource.require_https_url oidc_proxy.Url.url_parse
    oidc_proxy.Base.trim_space oidc_proxy.Mcpauth.Keys.Load.load_keys
    oidc_proxy.Mcpauth.Keys.Load.parse_es256_private_key oidc_proxy.Mcpauth.Keys.Load.parse_block
    oidc_proxy.Mcpauth.Keys.Load.key_id_of oidc_proxy.Mcpauth.Keys.Load.derive_enc_key
    oidc_proxy.Mcpauth.Scope.unsupported_scope oidc_proxy.Base.contains
made_test = refl

long_zeros : length zeros ≡ 32
unfolding codes
long_zeros = refl

derived_long :
    (secret out : Text) → tools.hkdf secret hkdf_enc_key_info 32 ≡ ok out → length out ≡ 32
derived_long secret out e = ap length (sym (ok_eq e)) ∙ long_zeros
  where
    ok_eq : {a b : Text} → ok a ≡ ok b → a ≡ b
    ok_eq h = ground arith

new_auth_server-IsConfigured_example : IsConfigured tools url_string options made
new_auth_server-IsConfigured_example =
    new_auth_server-IsConfigured tools url_string options made derived_long made_test

abbrev parse_ip : Text → Option Ip
parse_ip host = if text_eq host (codes "10.0.0.1") then some (v4 10 0 0 1) else none

host_of_address : split_host (codes "10.0.0.1:443") ≡ some (codes "10.0.0.1")
unfolding split_host oidc_proxy.Base.cut_last codes oidc_proxy.Base.has_prefix
    oidc_proxy.Utils.bare_host oidc_proxy.Base.any
host_of_address = refl

ip_of_host : parse_ip (codes "10.0.0.1") ≡ some (v4 10 0 0 1)
unfolding text_eq codes
ip_of_host = refl

dial_guard_iff_example :
    (dial_guard parse_ip false (codes "10.0.0.1:443") ≡ none) ↔ (¬ IsReserved (number 10 0 0 1))
dial_guard_iff_example =
    dial_guard_iff parse_ip (codes "10.0.0.1:443") (codes "10.0.0.1") 10 0 0 1 host_of_address
      ip_of_host (omega arith) (omega arith) (omega arith) (omega arith)

abbrev read_config : Config
read_config = record {
  issuer = codes "https://op.test";
  client_id = codes "c";
  scopes = codes " profile email";
  allowed_emails = codes " Ann@X.test" ∷ [];
  allowed_domains = [];
  cookie_prefix = codes "_oidc_proxy";
  cookie_domain = [];
  cookie_secure = true;
  verify_cache_size = pos 1024;
  listen_addr = codes ":8080";
  sign_in_title = codes "Sign in";
  sign_in_subtitle = [];
  sign_in_button = codes "Go";
  brand_color = codes "red";
  mcp_enabled = true;
  mcp_issuer = codes "https://as.test";
  mcp_resource = codes "https://as.test/mcp";
  mcp_resource_docs = [];
  mcp_signing_key = codes "k";
  mcp_signing_key_file = [];
  mcp_signing_kid = [];
  mcp_enc_key = [];
  mcp_access_token_ttl = pos 0;
  mcp_refresh_token_ttl = pos 0;
  mcp_code_ttl = pos 0;
  mcp_auth_req_ttl = pos 0;
  mcp_scopes_supported = codes " mcp " ∷ codes " " ∷ [];
  mcp_required_scopes = [];
  mcp_cimd = options.cimd;
}

abbrev loaded : Config
loaded = record read_config {
  scopes = codes "openid profile email";
  allowed_emails = codes "ann@x.test" ∷ [];
  brand_color = codes "#2563eb";
  mcp_scopes_supported = codes "mcp" ∷ [];
}

loaded_test : load (ok read_config) ≡ ok loaded
unfolding load oidc_proxy.Config.validated_config oidc_proxy.Config.validate_mcp
    oidc_proxy.Config.normalized codes oidc_proxy.Config.normalize_scopes oidc_proxy.Base.trim_space
    oidc_proxy.Base.contains oidc_proxy.Base.to_lower oidc_proxy.Config.is_brand_color
    oidc_proxy.Base.fields text_eq
loaded_test = refl

load-IsLoaded_example : IsLoaded loaded
load-IsLoaded_example = load-IsLoaded (ok read_config) loaded loaded_test
