-- ===== src/Mcpauth/Options/Configured.antt =====
-- What `loadKeys` and `New` have established of a server that they return.
use oidc_proxy.Base.{
  ℕ, zero, suc, ◌<◌, ◌≡◌, ◌≢◌, inl, inr, refl, ap, sym, String, true, [], Text, arith, codes,
  trim_right, trim_char, In, All, trim_space, is_empty, length, ◌==◌, ==_iff, Bool-cases,
  Option-cases, ℤ, pos, negsuc, Result, ok, err, Result-cases,
}
use mathlib.Core.Path.{subst}
use oidc_proxy.Url.{Url}
use oidc_proxy.Mcpauth.Artifacts.{◌>>=◌}
use oidc_proxy.Mcpauth.AuthServer.{AuthServer}
use oidc_proxy.Mcpauth.Keys.{KeyMaterial, key_material}
use oidc_proxy.Mcpauth.Keys.Load.{
  KeyTools, parse_block, parse_es256_private_key, derive_enc_key, decode_base64, key_id_of,
  load_keys, on_p256, of_32_bytes, wrapped, hkdf_enc_key_info,
}
use oidc_proxy.Mcpauth.Scope.{unsupported_scope}
use oidc_proxy.Mcpauth.Scope.Grant.{unsupported_scope-ok}
use oidc_proxy.Mcpauth.Resource.{require_https_url, normalize_resource, derive_prm_url}
use oidc_proxy.Mcpauth.Options.{Options, or_default, assemble, scopes_of, new_auth_server}

-- A chain of steps succeeds only if its first step does.
bind_ok {ℓ} :
    {A B : Type ℓ} (r : Result A) (f : A → Result B) (b : B)
    → (r >>= f) ≡ ok b
    → (a : A) × (r ≡ ok a) × (f a ≡ ok b)
bind_ok (ok a) f b h = (a, refl, h)
bind_ok (err e) f b h = absurd (ground arith)

ok_eq {ℓ} : {A : Type ℓ} {a b : A} → ok a ≡ ok b → a ≡ b
ok_eq h = ground arith

module _ (t : KeyTools) where
  -- Keys that may be used: of a P-256 private key, with its public key published under the key id, and
  -- an encryption key of 32 bytes.
  pub record IsUsable (k : KeyMaterial) : Type 0 where
    pub priv : Text
    pub kid : Text
    pub enc_key : Text
    pub material : k ≡ key_material priv (t.public priv) kid enc_key
    pub on_curve : t.is_p256 priv ≡ true
    pub long : length enc_key ≡ 32

  on_p256-ok : (p priv : Text) → on_p256 t p ≡ ok priv → t.is_p256 priv ≡ true
  on_p256-ok p priv h = elim (Bool-cases (t.is_p256 p)) [
    | inr other ↦ absurd (ground arith)
    | inl good ↦ let same : p ≡ priv = ok_eq (rw good at h) in rw (sym same) good
  ]

  of_32_bytes-ok : (raw key : Text) → of_32_bytes t raw ≡ ok key → length key ≡ 32
  of_32_bytes-ok raw key h = elim (Bool-cases (length raw == 32)) [
    | inr other ↦ absurd (ground arith)
    | inl good ↦
        let same : raw ≡ key = ok_eq (rw good at h) in
        rw (sym same) ((==_iff (length raw) 32).0 good)
  ]

  wrapped-ok {ℓ} :
      {A : Type ℓ} (format : String) (r : Result A) (a : A) → wrapped format r ≡ ok a → r ≡ ok a
  wrapped-ok format (ok b) a h = h
  wrapped-ok format (err e) a h = absurd (ground arith)

  private_key_on_curve :
      (pem priv : Text) → parse_es256_private_key t pem ≡ ok priv → t.is_p256 priv ≡ true
  unfolding parse_es256_private_key
  private_key_on_curve pem priv h = elim (Bool-cases (is_empty (trim_space pem))) [
    | inl empty ↦ absurd (ground arith)
    | inr filled ↦ elim (Option-cases (t.decode_pem (trim_space pem))) [
      | inl none_there ↦ absurd (ground arith)
      | inr (block, there) ↦
          let h = rw (filled, there, parse_es256_private_key) at h in
          let (p, _, h) = bind_ok (parse_block t block) (on_p256 t) priv h in on_p256-ok p priv h
    ]
  ]

  enc_key_long :
      (priv b64 key : Text)
      → ((secret out : Text) → t.hkdf secret hkdf_enc_key_info 32 ≡ ok out → length out ≡ 32)
      → derive_enc_key t priv b64 ≡ ok key
      → length key ≡ 32
  unfolding derive_enc_key
  enc_key_long priv b64 key law h = elim (Bool-cases (is_empty (trim_space b64))) [
    | inr given ↦
        let h = rw (given, derive_enc_key) at h in
        let (raw, _, h) =
          bind_ok (wrapped "MCP_ENC_KEY: %w" (decode_base64 t (trim_space b64))) (of_32_bytes t) key
            h in
        of_32_bytes-ok raw key h
    | inl absent ↦
        let h = rw (absent, derive_enc_key) at h in
        let (secret, _, h) =
          bind_ok (wrapped "marshal signing key for HKDF: %w" (t.marshal_pkcs8 priv))
            (λ x. wrapped "derive enc key: %w" (t.hkdf x hkdf_enc_key_info 32)) key h in
        law secret key (wrapped-ok "derive enc key: %w" _ key h)
  ]

  pub load_keys-IsUsable :
      (pem kid b64 : Text) (k : KeyMaterial)
      → ((secret out : Text) → t.hkdf secret hkdf_enc_key_info 32 ≡ ok out → length out ≡ 32)
      → load_keys t pem kid b64 ≡ ok k
      → IsUsable k
  unfolding load_keys
  load_keys-IsUsable pem kid b64 k law h = elim (Result-cases (parse_es256_private_key t pem)) [
    | inr (e, bad) ↦ absurd (ground arith)
    | inl (priv, parsed) ↦ elim (Result-cases (key_id_of t priv kid)) [
      | inr (e, bad) ↦ absurd (ground arith)
      | inl (id, named) ↦ elim (Result-cases (t.new_signer priv id)) [
        | inr (e, bad) ↦ absurd (ground arith)
        | inl (_, signer) ↦ elim (Result-cases (derive_enc_key t priv b64)) [
          | inr (e, bad) ↦ absurd (ground arith)
          | inl (enc_key, derived) ↦ elim (Result-cases (t.new_encrypter enc_key)) [
            | inr (e, bad) ↦ absurd (ground arith)
            | inl (_, encrypter) ↦ record {
              priv = priv;
              kid = id;
              enc_key = enc_key;
              material =
                  sym (ok_eq (rw (parsed, named, signer, derived, encrypter, load_keys) at h));
              on_curve = private_key_on_curve pem priv parsed;
              long = enc_key_long priv b64 enc_key law derived;
            }
          ]
        ]
      ]
    ]
  ]

-- A server as `New` returns it: its configured parts fit together.
pub record IsConfigured (t : KeyTools) (url_string : Url → Text) (opts : Options) (srv : AuthServer)
    : Type 0 where
  pub usable : IsUsable t srv.keys
  pub scoped : srv.scopes_supported ≢ []
  pub issuer_url : Url
  pub issuer_parsed : require_https_url (codes "MCP_ISSUER") opts.issuer ≡ ok issuer_url
  pub issuer : srv.issuer ≡ trim_right (λ c. c == b'/') (url_string issuer_url)
  pub required_supported : All (λ s. In s srv.scopes_supported) srv.required_scopes
  pub access_positive : 0 < srv.access_ttl
  pub refresh_positive : 0 < srv.refresh_ttl
  pub code_positive : 0 < srv.code_ttl
  pub auth_req_positive : 0 < srv.auth_req_ttl
  pub resource_url : Url
  pub resource_parsed : require_https_url (codes "MCP_RESOURCE") opts.resource ≡ ok resource_url
  pub resource : srv.resource ≡ url_string resource_url
  pub canonical : srv.canonical_resource ≡ normalize_resource resource_url
  pub metadata_url : srv.prm_url ≡ derive_prm_url resource_url
  pub resource_suffix : srv.resource_suffix ≡ trim_char b'/' resource_url.path
  pub issuer_suffix : srv.issuer_suffix ≡ trim_char b'/' issuer_url.path

or_default_positive : (d : ℤ) (default : ℕ) → 0 < default → 0 < or_default d default
unfolding or_default
or_default_positive (pos zero) default h = h
or_default_positive (pos (suc n)) default h = omega arith
or_default_positive (negsuc n) default h = h

scopes_given : (opts : Options) → scopes_of opts ≢ []
unfolding codes
scopes_given opts e = elim (Bool-cases (is_empty opts.scopes_supported)) [
  | inl empty ↦ absurd (ground arith)
  | inr given ↦ absurd (ground (arith, ap is_empty (rw given at e)))
]

assembled :
    (t : KeyTools) (url_string : Url → Text) (opts : Options) (issuer resource : Url)
    (keys : KeyMaterial)
    → require_https_url (codes "MCP_ISSUER") opts.issuer ≡ ok issuer
    → require_https_url (codes "MCP_RESOURCE") opts.resource ≡ ok resource
    → unsupported_scope (scopes_of opts) opts.required_scopes ≡ ok tt
    → IsUsable t keys
    → IsConfigured t url_string opts
        (assemble t url_string opts issuer resource keys (scopes_of opts))
unfolding assemble
assembled t url_string opts issuer resource keys at_issuer parsed satisfied usable = record {
  usable = usable;
  scoped = scopes_given opts;
  issuer_url = issuer;
  issuer_parsed = at_issuer;
  issuer = refl;
  required_supported = unsupported_scope-ok (scopes_of opts) opts.required_scopes satisfied;
  access_positive = or_default_positive opts.access_ttl _ (omega arith);
  refresh_positive = or_default_positive opts.refresh_ttl _ (omega arith);
  code_positive = or_default_positive opts.code_ttl _ (omega arith);
  auth_req_positive = or_default_positive opts.auth_req_ttl _ (omega arith);
  resource_url = resource;
  resource_parsed = parsed;
  resource = refl;
  canonical = refl;
  metadata_url = refl;
  resource_suffix = refl;
  issuer_suffix = refl;
}

-- Where the derivation of an encryption key gives the 32 bytes that it is asked for: a server that
-- `New` returns has the keys of a P-256 private key, with its public key published, and an
-- encryption key of 32 bytes; it supports some scope, and lists every scope that it requires as
-- supported; its lifetimes are positive; its issuer is the configured https URL less trailing
-- slashes; and its resource is the configured https URL, from which the canonical form, the
-- metadata URL and the suffix of its path derive.
pub new_auth_server-IsConfigured :
    (t : KeyTools) (url_string : Url → Text) (opts : Options) (srv : AuthServer)
    → ((secret out : Text) → t.hkdf secret hkdf_enc_key_info 32 ≡ ok out → length out ≡ 32)
    → new_auth_server t url_string opts ≡ ok srv
    → IsConfigured t url_string opts srv
unfolding new_auth_server assemble
new_auth_server-IsConfigured t url_string opts srv law h =
    elim (Result-cases (require_https_url (codes "MCP_ISSUER") opts.issuer)) [
      | inr (e, bad) ↦ absurd (ground arith)
      | inl (issuer, at_issuer) ↦
          elim (Result-cases (require_https_url (codes "MCP_RESOURCE") opts.resource)) [
            | inr (e, bad) ↦ absurd (ground arith)
            | inl (resource, parsed) ↦
                elim (Result-cases
                  (load_keys t opts.signing_key_pem opts.signing_kid opts.enc_key_b64)) [
                    | inr (e, bad) ↦ absurd (ground arith)
                    | inl (keys, loaded) ↦
                        elim (Result-cases
                          (unsupported_scope (scopes_of opts) opts.required_scopes)) [
                            | inr (e, bad) ↦ absurd (ground arith)
                            | inl (_, satisfied) ↦
                                subst (IsConfigured t url_string opts)
                                  (ok_eq (
                                    rw (at_issuer, parsed, loaded, satisfied, new_auth_server) at
                                      h))
                                  (assembled t url_string opts issuer resource keys at_issuer parsed
                                    satisfied
                                    (load_keys-IsUsable t opts.signing_key_pem opts.signing_kid
                                      opts.enc_key_b64 keys law loaded))
                          ]
                  ]
          ]
    ]
