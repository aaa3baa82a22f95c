-- ===== src/Mcpauth/Artifacts/Kinds.antt =====
-- No artifact is accepted as one of another kind, although all share the server's keys.
use oidc_proxy.Base.{ℕ, ◌≡◌, ◌≢◌, ap, ◌∙◌, [], Text, arith, codes, Result, ok}
use oidc_proxy.Mcpauth.Jose.{Object, Jose, JoseLaws}
use oidc_proxy.Mcpauth.Claims.{
  use_client, use_auth_req, use_code, use_access, use_refresh, ClientClaims, AuthReqClaims,
  CodeClaims, AccessClaims, RefreshClaims,
}
use oidc_proxy.Mcpauth.AuthServer.{AuthServer}
use oidc_proxy.Mcpauth.Artifacts.{
  sign_claims, encrypt_claims, parse_signed, parse_encrypted, verify_client_id, verify_auth_req,
  verify_code, verify_access_token, verify_refresh_token,
}
use oidc_proxy.Mcpauth.Artifacts.Sealing.{
  keys, parse_signed-sign_claims, parse_encrypted-encrypt_claims,
}
use oidc_proxy.Mcpauth.Artifacts.Checks.{
  verify_access_token_sound, verify_refresh_token_sound, verify_code_sound, verify_auth_req_sound,
  verify_client_id_sound,
}

-- The five token uses differ.
pub uses_differ :
    (use_client ≢ use_access)
    × (use_client ≢ use_refresh)
    × (use_access ≢ use_refresh)
    × (use_code ≢ use_auth_req)
unfolding codes
uses_differ = ground arith

pub ok-injective {ℓ} : {A : Type ℓ} {r : Result A} {a b : A} → r ≡ ok a → r ≡ ok b → a ≡ b
ok-injective p q = cc

module _ (j : Jose) (l : JoseLaws j) (srv : AuthServer) (priv kid enc_key : Text)
    (set_up : srv.keys ≡ keys j l priv kid enc_key) where
  -- What the server's keys have signed, or sealed, is read back.
  pub signed_object :
      (o : Object) (t : Text)
      → l.IsCarried o
      → sign_claims j srv.keys o ≡ ok t
      → parse_signed j srv.keys t ≡ ok o
  signed_object o t carried signed =
      rw set_up (parse_signed-sign_claims j l priv kid enc_key o t carried (rw set_up at signed))

  pub sealed_object :
      (o : Object) (t : Text)
      → l.IsCarried o
      → encrypt_claims j srv.keys o ≡ ok t
      → parse_encrypted j srv.keys t ≡ ok o
  sealed_object o t carried sealed =
      rw set_up
        (parse_encrypted-encrypt_claims j l priv kid enc_key o t carried (rw set_up at sealed))

  -- With a configured issuer, the keys as `loadKeys` sets them up and claims that JSON carries
  -- unchanged: a token that the server has signed is accepted, at any time, only as the kind that
  -- its token use names: as a client_id, an access token or a refresh token.
  pub signed_kind :
      (o : Object) (t : Text) (now : ℕ)
      → srv.issuer ≢ []
      → l.IsCarried o
      → sign_claims j srv.keys o ≡ ok t
      → ((c : ClientClaims) → verify_client_id j srv t ≡ ok c → o.token_use ≡ use_client)
        × ((c : AccessClaims) → verify_access_token j srv now t ≡ ok c → o.token_use ≡ use_access)
        × ((c : RefreshClaims)
            → verify_refresh_token j srv now t ≡ ok c
            → o.token_use ≡ use_refresh)
  signed_kind o t now configured carried signed =
      let read = signed_object o t carried signed in
      (
        λ c h.
            let (p, parsed, kind, _, _) = verify_client_id_sound j l srv now t c h in
            ap (λ (q : Object). q.token_use) (ok-injective read parsed) ∙ kind,
        λ c h.
            let k = verify_access_token_sound j l srv now t c configured h in
            ap (λ (q : Object). q.token_use) (ok-injective read k.signed) ∙ k.of_kind,
        λ c h.
            let (k, _) = verify_refresh_token_sound j l srv now t c h in
            ap (λ (q : Object). q.token_use) (ok-injective read k.parsed) ∙ k.of_kind,
      )

  -- With the keys as `loadKeys` sets them up and claims that JSON carries unchanged:
  -- a text that the server has encrypted is accepted, at any time, only as the kind that its token
  -- use names: as a consent blob or an authorization code.
  pub sealed_kind :
      (o : Object) (t : Text) (now : ℕ)
      → l.IsCarried o
      → encrypt_claims j srv.keys o ≡ ok t
      → ((c : AuthReqClaims) → verify_auth_req j srv now t ≡ ok c → o.token_use ≡ use_auth_req)
        × ((c : CodeClaims) → verify_code j srv now t ≡ ok c → o.token_use ≡ use_code)
  sealed_kind o t now carried sealed =
      let read = sealed_object o t carried sealed in
      (
        λ c h.
            let (k, _) = verify_auth_req_sound j l srv now t c h in
            ap (λ (q : Object). q.token_use) (ok-injective read k.parsed) ∙ k.of_kind,
        λ c h.
            let (k, _) = verify_code_sound j l srv now t c h in
            ap (λ (q : Object). q.token_use) (ok-injective read k.parsed) ∙ k.of_kind,
      )
