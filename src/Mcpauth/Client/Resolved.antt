-- ===== src/Mcpauth/Client/Resolved.antt =====
-- What stands behind a resolved client.
use oidc_proxy.Base.{
  ℕ, ◌≡◌, ◌≢◌, inl, inr, true, false, List, [], ◌∷◌, Text, arith, is_empty, Bool-cases, ok,
  Result-cases,
}
use oidc_proxy.TtlCache.{TtlCache, TtlCacheLaws}
use oidc_proxy.Mcpauth.Jose.{Object, Jose}
use oidc_proxy.Mcpauth.AuthServer.{AuthServer}
use oidc_proxy.Mcpauth.Claims.{use_client}
use oidc_proxy.Mcpauth.Artifacts.{parse_signed, verify_client_id}
use oidc_proxy.Mcpauth.Artifacts.Checks.{verify_client_id_sound}
use oidc_proxy.Mcpauth.Jose.{JoseLaws}
use oidc_proxy.Mcpauth.RedirectUri.{is_url_client_id}
use oidc_proxy.Mcpauth.Cimd.{ClientMetadata, CimdEntry, CimdResolver, CimdCache}
use oidc_proxy.Mcpauth.Cimd.Sound.{IsVouched, Reach, resolve-IsVouched}
use oidc_proxy.Mcpauth.Client.{registered, resolve_client}

module _ (c : TtlCache) (l : TtlCacheLaws c CimdEntry) (j : Jose) (jl : JoseLaws j)
    (srv : AuthServer) (r : CimdResolver) (calls : List (ℕ × Text)) (now : ℕ)
    (client_id : Text) where
  -- The two ways to be a client.
  pub data IsResolved (meta : ClientMetadata) : Type 0 where
    by_document :
        srv.cimd_enabled ≡ true
        → is_url_client_id client_id ≡ true
        → IsVouched r ((now, client_id) ∷ calls) client_id meta
        → IsResolved meta
    by_registration :
        (o : Object)
        → is_url_client_id client_id ≡ false
        → parse_signed j srv.keys client_id ≡ ok o
        → o.token_use ≡ use_client
        → meta.client_id ≡ client_id
        → meta.redirect_uris ≡ o.redirect_uris
        → meta.redirect_uris ≢ []
        → meta.cimd ≡ false
        → IsResolved meta

  registered-IsResolved :
      (meta : ClientMetadata)
      → is_url_client_id client_id ≡ false
      → registered client_id (verify_client_id j srv client_id) ≡ ok meta
      → IsResolved meta
  registered-IsResolved meta own h = elim (Result-cases (verify_client_id j srv client_id)) [
    | inr (e, bad) ↦ absurd (ground arith)
    | inl (claims, good) ↦
        let (o, parsed, kind, decoded, filled) =
          verify_client_id_sound j jl srv now client_id claims good in
        let uris : meta.redirect_uris ≡ claims.redirect_uris = ground arith in
        by_registration o own parsed kind (ground arith) (ground (arith, decoded)) (rw uris filled)
          (ground arith)
  ]

  -- In every state that a run of calls leads the metadata cache to, a client that `ResolveClient`
  -- returns is either one whose client_id is a URL that vouches for the metadata, with metadata
  -- documents enabled, or one whose client_id is not a URL and is signed with an accepted key as a
  -- client_id, from which the redirect URIs are taken, and there are some.
  pub resolve_client-IsResolved :
      {s : CimdCache c} (meta : ClientMetadata)
      → Reach c r calls s
      → (resolve_client c j srv r now client_id s).1 ≡ ok meta
      → IsResolved meta
  unfolding resolve_client
  resolve_client-IsResolved {s} meta reached h = elim (Bool-cases (is_empty client_id)) [
    | inl empty ↦ absurd (ground arith)
    | inr given ↦ elim (Bool-cases (is_url_client_id client_id)) [
      | inr own ↦ registered-IsResolved meta own (rw (given, own, resolve_client) at h)
      | inl url ↦ elim (Bool-cases srv.cimd_enabled) [
        | inr off ↦ absurd (ground arith)
        | inl on ↦
            by_document on url
              (resolve-IsVouched c l r now client_id meta reached
                (rw (given, url, on, resolve_client) at h)).0
      ]
    ]
  ]
