-- ===== src/Examples/Tokens.antt =====
-- The artifacts of the authorization server, and client metadata.
pub mod Fixture
use oidc_proxy.Base.{
  ℕ, ◌+◌, ◌*◌, ◌≤◌, ◌<◌, ◌≡◌, ◌≢◌, refl, Bool, true, false, Option, none, some, List, [], ◌∷◌, Text,
  arith, codes, Message, message, Result, ok, err,
}
use oidc_proxy.TtlCache.Table.{table_cache, table_laws, lookup, remove}
use oidc_proxy.Url.{Url, hostname}
use oidc_proxy.Mcpauth.Jose.{Object, second}
use oidc_proxy.Mcpauth.Claims.{
  use_client, use_auth_req, use_code, use_access, use_refresh, ClientClaims, AuthReqClaims,
  CodeClaims, AccessClaims, RefreshClaims, object_of_code, object_of_access, object_of_refresh,
}
use oidc_proxy.Mcpauth.Artifacts.{
  sign_claims, verify_client_id, verify_auth_req, verify_code, verify_access_token,
  verify_refresh_token, code_claims,
}
use oidc_proxy.Mcpauth.Artifacts.Checks.{AccessChecks, verify_access_token_sound}
use oidc_proxy.Mcpauth.Artifacts.Kinds.{signed_kind, sealed_kind}
use oidc_proxy.Mcpauth.Artifacts.Granted.{
  IsForGrant, granted_access, granted_refresh, grant_kinds_apart,
}
use oidc_proxy.Mcpauth.Artifacts.Lifetime.{
  verify_code-mint_code, verify_code_late, verify_access_token-issue_grant,
}
use oidc_proxy.Mcpauth.RedirectUri.{validate_cimd_url}
use oidc_proxy.Mcpauth.Cimd.{
  ClientMetadata, CimdEntry, CimdDocument, HttpResponse, CimdResolver, host_allowed, resolve,
}
use oidc_proxy.Mcpauth.Cimd.Sound.{IsVouched, Reach, resolve-IsVouched}
use oidc_proxy.Mcpauth.Client.{resolve_client}
use oidc_proxy.Mcpauth.Client.Resolved.{IsResolved, resolve_client-IsResolved}
use oidc_proxy.Examples.ToyJose.{toy_jose, toy_laws}
use oidc_proxy.Examples.Tokens.Fixture.{
  rand, issuer_set, carried_code, carried_access, carried_refresh, server, noon, consent,
  code_object, access_object, refresh_object, grant_input, grant, code_jose, code_laws, grant_jose,
  grant_laws,
}

verify_code-mint_code_example :
    verify_code code_jose server (noon + 30 * second) (0 ∷ [])
    ≡ ok (code_claims code_jose rand server noon 0 consent)
unfolding code_claims oidc_proxy.Base.text_eq codes oidc_proxy.Mcpauth.Artifacts.mint_code
    oidc_proxy.Mcpauth.Artifacts.encrypt_claims
verify_code-mint_code_example =
    verify_code-mint_code code_jose code_laws rand server (codes "sk") (codes "k1") (codes "ek")
      refl noon 0 (noon + 30 * second) consent (0 ∷ []) carried_code refl (omega arith)
      (omega arith)

sealed_kind_example :
    ((c : AuthReqClaims)
      → verify_auth_req code_jose server noon (0 ∷ []) ≡ ok c
      → use_code ≡ use_auth_req)
    × ((c : CodeClaims) → verify_code code_jose server noon (0 ∷ []) ≡ ok c → use_code ≡ use_code)
unfolding oidc_proxy.Base.text_eq code_claims codes oidc_proxy.Mcpauth.Artifacts.encrypt_claims
sealed_kind_example =
    sealed_kind code_jose code_laws server (codes "sk") (codes "k1") (codes "ek") refl code_object
      (0 ∷ []) noon refl refl

signed_kind_example :
    ((c : ClientClaims)
      → verify_client_id grant_jose server (0 ∷ codes "k1") ≡ ok c
      → use_access ≡ use_client)
    × ((c : AccessClaims)
        → verify_access_token grant_jose server noon (0 ∷ codes "k1") ≡ ok c
        → use_access ≡ use_access)
    × ((c : RefreshClaims)
        → verify_refresh_token grant_jose server noon (0 ∷ codes "k1") ≡ ok c
        → use_access ≡ use_refresh)
unfolding oidc_proxy.Base.text_eq oidc_proxy.Mcpauth.Artifacts.access_claims codes
    oidc_proxy.Mcpauth.Artifacts.sign_claims oidc_proxy.Mcpauth.Keys.key_material
signed_kind_example =
    signed_kind grant_jose grant_laws server (codes "sk") (codes "k1") (codes "ek") refl
      access_object (0 ∷ codes "k1") noon issuer_set refl refl

verify_access_token_sound_example :
    AccessChecks grant_jose grant_laws server noon
      (0 ∷ codes "k1")
      (granted_access grant_jose rand server noon 0 grant_input)
unfolding verify_access_token oidc_proxy.Mcpauth.Artifacts.parse_signed
    oidc_proxy.Mcpauth.Keys.verification_key oidc_proxy.Mcpauth.Keys.find_key
    oidc_proxy.Mcpauth.Keys.key_material oidc_proxy.Base.text_eq
    oidc_proxy.Mcpauth.Keys.published_key codes oidc_proxy.Mcpauth.Artifacts.access_claims
    oidc_proxy.Base.any oidc_proxy.Base.contains
verify_access_token_sound_example =
    verify_access_token_sound grant_jose grant_laws server noon (0 ∷ codes "k1")
      (granted_access grant_jose rand server noon 0 grant_input) issuer_set refl

grant_kinds_apart_example :
    ((c : AccessClaims) → verify_access_token grant_jose server noon grant.refresh_token ≢ ok c)
    × ((c : RefreshClaims) → verify_refresh_token grant_jose server noon grant.access_token ≢ ok c)
    × ((c : ClientClaims) → verify_client_id grant_jose server grant.access_token ≢ ok c)
    × ((c : ClientClaims) → verify_client_id grant_jose server grant.refresh_token ≢ ok c)
unfolding oidc_proxy.Mcpauth.Artifacts.issue_grant oidc_proxy.Mcpauth.Artifacts.sign_claims
    oidc_proxy.Base.text_eq codes oidc_proxy.Mcpauth.Artifacts.access_claims
    oidc_proxy.Mcpauth.Keys.key_material oidc_proxy.Mcpauth.Artifacts.refresh_claims
grant_kinds_apart_example =
    grant_kinds_apart grant_jose grant_laws rand server (codes "sk") (codes "k1") (codes "ek") refl
      noon 0 noon grant_input grant issuer_set carried_access carried_refresh refl

verify_access_token-issue_grant_example :
    (verify_access_token grant_jose server (noon + 900 * second) grant.access_token
      ≡ ok (granted_access grant_jose rand server noon 0 grant_input))
    × (sign_claims grant_jose server.keys
          (object_of_refresh (granted_refresh grant_jose rand server noon 0 grant_input))
        ≡ ok grant.refresh_token)
    × IsForGrant grant_input grant
        (granted_access grant_jose rand server noon 0 grant_input)
        (granted_refresh grant_jose rand server noon 0 grant_input)
unfolding oidc_proxy.Mcpauth.Artifacts.issue_grant oidc_proxy.Mcpauth.Artifacts.sign_claims
    oidc_proxy.Base.text_eq codes oidc_proxy.Mcpauth.Artifacts.access_claims
    oidc_proxy.Mcpauth.Keys.key_material oidc_proxy.Mcpauth.Artifacts.refresh_claims
verify_access_token-issue_grant_example =
    verify_access_token-issue_grant grant_jose grant_laws rand server (codes "sk") (codes "k1")
      (codes "ek") refl noon 0 (noon + 900 * second) grant_input grant carried_access refl refl
      (omega arith) (omega arith)

abbrev client_id : Text
client_id = codes "https://app.test/client.json"

-- A host that serves one metadata document.
abbrev resolver : CimdResolver
resolver = record {
  fetch_url = λ now url. ok (record {
    status = 200;
    readable = true;
    body_length = 120;
    document = some (record {
      client_id = client_id;
      client_name = codes "App";
      client_uri = [];
      redirect_uris = codes "http://localhost/cb" ∷ [];
      token_endpoint_auth_method = codes "none";
    });
    cache_control = [];
  });
  allowed = codes "*.test" ∷ [];
  default_ttl = 900 * second;
}

abbrev metadata : ClientMetadata
metadata = record {
  client_id = client_id;
  client_name = codes "App";
  client_uri = [];
  redirect_uris = codes "http://localhost/cb" ∷ [];
  cimd = true;
}

resolve-IsVouched_example :
    IsVouched resolver ((noon, client_id) ∷ []) client_id metadata
    × ((u : Url) × (validate_cimd_url client_id ≡ ok u)
        × (host_allowed (codes "*.test" ∷ []) (hostname u) ≡ true))
unfolding resolve validate_cimd_url oidc_proxy.Url.url_parse
    oidc_proxy.Mcpauth.RedirectUri.has_fragment oidc_proxy.Base.trim_char host_allowed
    oidc_proxy.Mcpauth.Cimd.any_host_matches oidc_proxy.Mcpauth.Cimd.host_matches
    oidc_proxy.Base.has_suffix hostname oidc_proxy.Url.strip_port lookup
    oidc_proxy.Mcpauth.Cimd.fetch_and_store oidc_proxy.Mcpauth.Cimd.fetch
    oidc_proxy.Mcpauth.Cimd.validate_document oidc_proxy.Base.trim_space
    oidc_proxy.Mcpauth.Cimd.invalid_redirect oidc_proxy.Base.mul_int64 oidc_proxy.Base.negate
    oidc_proxy.Base.of_bits oidc_proxy.Base.all oidc_proxy.Base.any codes
    oidc_proxy.Base.contains_text oidc_proxy.Base.cut oidc_proxy.Base.cut_last
    oidc_proxy.Base.cut_prefix oidc_proxy.Base.has_prefix oidc_proxy.Base.is_space
    oidc_proxy.Base.lower oidc_proxy.Base.split oidc_proxy.Base.split_from oidc_proxy.Base.text_eq
    oidc_proxy.Base.to_lower oidc_proxy.Base.trim_left oidc_proxy.Base.trim_right
    oidc_proxy.Mcpauth.Cimd.Duration.atoi oidc_proxy.Mcpauth.Cimd.Duration.cache_ttl
    oidc_proxy.Mcpauth.Cimd.Duration.clamp_duration oidc_proxy.Mcpauth.Cimd.Duration.digits_from
    oidc_proxy.Mcpauth.Cimd.Duration.ttl_of_parts oidc_proxy.Mcpauth.RedirectUri.is_loopback_host
    oidc_proxy.Mcpauth.RedirectUri.validate_redirect_uri oidc_proxy.Url.Authority.parse_authority
    oidc_proxy.Url.Authority.parse_bracketed oidc_proxy.Url.Authority.parse_host
    oidc_proxy.Url.Authority.parse_plain oidc_proxy.Url.Authority.scheme_from
    oidc_proxy.Url.Authority.split_zone oidc_proxy.Url.Authority.valid_optional_port
    oidc_proxy.Url.Authority.valid_userinfo oidc_proxy.Url.Escape.escaped_ok
    oidc_proxy.Url.Escape.host_char oidc_proxy.Url.Escape.is_alpha oidc_proxy.Url.Escape.is_digit
    oidc_proxy.Url.Escape.is_one_of oidc_proxy.Url.Escape.literal_ok oidc_proxy.Url.Escape.unescape
    oidc_proxy.Url.Escape.unescape_from oidc_proxy.Url.Escape.unhex oidc_proxy.Url.is_abs
resolve-IsVouched_example =
    resolve-IsVouched table_cache (table_laws CimdEntry) resolver
      {s = record { cap = 8; rows = [] }} noon client_id metadata (Reach.start 8) refl

client_resolved :
    (resolve_client table_cache code_jose server resolver noon client_id
      (record { cap = 8; rows = [] })).1
    ≡ ok metadata
unfolding resolve_client oidc_proxy.Mcpauth.RedirectUri.is_url_client_id resolve validate_cimd_url
    oidc_proxy.Url.url_parse oidc_proxy.Mcpauth.RedirectUri.has_fragment oidc_proxy.Base.trim_char
    host_allowed oidc_proxy.Mcpauth.Cimd.any_host_matches oidc_proxy.Mcpauth.Cimd.host_matches
    oidc_proxy.Base.has_suffix hostname oidc_proxy.Url.strip_port lookup
    oidc_proxy.Mcpauth.Cimd.fetch_and_store oidc_proxy.Mcpauth.Cimd.fetch
    oidc_proxy.Mcpauth.Cimd.validate_document oidc_proxy.Base.trim_space
    oidc_proxy.Mcpauth.Cimd.invalid_redirect oidc_proxy.Base.mul_int64 oidc_proxy.Base.negate
    oidc_proxy.Base.of_bits oidc_proxy.Base.all oidc_proxy.Base.any codes
    oidc_proxy.Base.contains_text oidc_proxy.Base.cut oidc_proxy.Base.cut_last
    oidc_proxy.Base.cut_prefix oidc_proxy.Base.has_prefix oidc_proxy.Base.is_space
    oidc_proxy.Base.lower oidc_proxy.Base.split oidc_proxy.Base.split_from oidc_proxy.Base.text_eq
    oidc_proxy.Base.to_lower oidc_proxy.Base.trim_left oidc_proxy.Base.trim_right
    oidc_proxy.Mcpauth.Cimd.Duration.atoi oidc_proxy.Mcpauth.Cimd.Duration.cache_ttl
    oidc_proxy.Mcpauth.Cimd.Duration.clamp_duration oidc_proxy.Mcpauth.Cimd.Duration.digits_from
    oidc_proxy.Mcpauth.Cimd.Duration.ttl_of_parts oidc_proxy.Mcpauth.RedirectUri.is_loopback_host
    oidc_proxy.Mcpauth.RedirectUri.validate_redirect_uri oidc_proxy.Url.Authority.parse_authority
    oidc_proxy.Url.Authority.parse_bracketed oidc_proxy.Url.Authority.parse_host
    oidc_proxy.Url.Authority.parse_plain oidc_proxy.Url.Authority.scheme_from
    oidc_proxy.Url.Authority.split_zone oidc_proxy.Url.Authority.valid_optional_port
    oidc_proxy.Url.Authority.valid_userinfo oidc_proxy.Url.Escape.escaped_ok
    oidc_proxy.Url.Escape.host_char oidc_proxy.Url.Escape.is_alpha oidc_proxy.Url.Escape.is_digit
    oidc_proxy.Url.Escape.is_one_of oidc_proxy.Url.Escape.literal_ok oidc_proxy.Url.Escape.unescape
    oidc_proxy.Url.Escape.unescape_from oidc_proxy.Url.Escape.unhex oidc_proxy.Url.is_abs
client_resolved = refl

resolve_client-IsResolved_example :
    IsResolved table_cache
      (table_laws CimdEntry)
      code_jose
      code_laws
      server
      resolver
      []
      noon
      client_id
      metadata
resolve_client-IsResolved_example =
    resolve_client-IsResolved table_cache (table_laws CimdEntry) code_jose code_laws server resolver
      [] noon client_id {s = record { cap = 8; rows = [] }} metadata (Reach.start 8) client_resolved
