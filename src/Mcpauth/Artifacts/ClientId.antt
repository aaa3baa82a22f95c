-- ===== src/Mcpauth/Artifacts/ClientId.antt =====
-- A minted client_id is accepted.
use oidc_proxy.Base.{ℕ, ◌≡◌, ◌≢◌, refl, [], Text, text_eq_refl, is_empty_complete, ok}
use oidc_proxy.Mcpauth.Jose.{Jose, JoseLaws}
use oidc_proxy.Mcpauth.Claims.{use_client, object_of_client}
use oidc_proxy.Mcpauth.AuthServer.{AuthServer}
use oidc_proxy.Mcpauth.Artifacts.{
  ClientRegistration, client_claims, mint_client_id, verify_client_id,
}
use oidc_proxy.Mcpauth.Artifacts.Sealing.{keys}
use oidc_proxy.Mcpauth.Artifacts.Kinds.{signed_object}

module _ (j : Jose) (l : JoseLaws j) (rand : ℕ → Text) (srv : AuthServer) (priv kid enc_key : Text)
    (set_up : srv.keys ≡ keys j l priv kid enc_key) where
  -- With the keys as `loadKeys` sets them up and claims that JSON carries unchanged:
  -- a client_id that was minted for a registration with redirect URIs is accepted, and gives the claims
  -- that were signed.
  pub verify_client_id-mint_client_id :
      (now draws : ℕ) (reg : ClientRegistration) (token : Text)
      → l.IsCarried (object_of_client (client_claims j rand srv now draws reg))
      → (mint_client_id j rand srv now draws reg).1 ≡ ok token
      → reg.redirect_uris ≢ []
      → verify_client_id j srv token ≡ ok (client_claims j rand srv now draws reg)
  unfolding mint_client_id verify_client_id client_claims
  verify_client_id-mint_client_id now draws reg token carried minted given =
      let o = object_of_client (client_claims j rand srv now draws reg) in
      rw
        (
          signed_object j l srv priv kid enc_key set_up o token carried minted,
          text_eq_refl use_client,
          is_empty_complete reg.redirect_uris given,
        )
        refl
