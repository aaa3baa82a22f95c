-- ===== src/Web/Register/Resolved.antt =====
-- The client_id of a registration resolves to what was registered.
use oidc_proxy.Base.{ℕ, ◌≡◌, ◌≢◌, refl, sym, false, [], Text, is_empty_complete, All, Message, ok}
use mathlib.Core.Path.{subst}
use oidc_proxy.Http.{Request, DcrRequest}
use oidc_proxy.TtlCache.{TtlCache}
use oidc_proxy.Mcpauth.Jose.{Jose, JoseLaws}
use oidc_proxy.Mcpauth.AuthServer.{AuthServer}
use oidc_proxy.Mcpauth.Claims.{object_of_client}
use oidc_proxy.Mcpauth.Artifacts.{client_claims, mint_client_id}
use oidc_proxy.Mcpauth.Artifacts.Sealing.{keys}
use oidc_proxy.Mcpauth.Artifacts.ClientId.{verify_client_id-mint_client_id}
use oidc_proxy.Mcpauth.Cimd.{CimdResolver, CimdCache}
use oidc_proxy.Mcpauth.Client.{resolve_client}
use oidc_proxy.Mcpauth.RedirectUri.{is_url_client_id}
use oidc_proxy.Web.Response.{DcrResponse, registration}
use oidc_proxy.Web.Register.{RegisterState, registration_of, handle_register}
use oidc_proxy.Web.Register.Registered.{IsValidUri, registration_iff}

module _ (c : TtlCache) (j : Jose) (l : JoseLaws j) (rand : ℕ → Text) (error_text : Message → Text)
    (srv : AuthServer) (priv kid enc_key : Text) (set_up : srv.keys ≡ keys j l priv kid enc_key)
    (now draws : ℕ) where
  -- The claims of the client_id of a registration are carried unchanged by JSON.
  abbrev pub IsRegistrationCarried : DcrResponse → Type 0
  IsRegistrationCarried d = l.IsCarried (
      object_of_client (
        client_claims j rand srv now draws
          (record { redirect_uris = d.redirect_uris; client_name = d.client_name })))

  -- The client_id of a registration resolves to its name and its redirect URIs.
  abbrev pub Resolves : DcrResponse → Type 0
  Resolves d =
      (resolver : CimdResolver) (later : ℕ) (cache : CimdCache c)
      → (resolve_client c j srv resolver later d.client_id cache).1
        ≡ ok (record {
          client_id = d.client_id;
          client_name = d.client_name;
          client_uri = [];
          redirect_uris = d.redirect_uris;
          cimd = false;
        })

  registration-Resolves :
      (req : DcrRequest) (client_id : Text)
      → (mint_client_id j rand srv now draws
          (record { redirect_uris = req.redirect_uris; client_name = req.client_name })).1
        ≡ ok client_id
      → req.redirect_uris ≢ []
      → IsRegistrationCarried (registration_of req now client_id)
      → client_id ≢ []
      → is_url_client_id client_id ≡ false
      → Resolves (registration_of req now client_id)
  unfolding resolve_client registration_of client_claims
  registration-Resolves req client_id minted given carried filled opaque resolver later cache =
      let accepted =
        verify_client_id-mint_client_id j l rand srv priv kid enc_key set_up now draws
          (record { redirect_uris = req.redirect_uris; client_name = req.client_name }) client_id
          carried minted given in
      rw (is_empty_complete client_id filled, opaque, accepted) refl

module _ (c : TtlCache) (j : Jose) (l : JoseLaws j) (rand : ℕ → Text) (error_text : Message → Text)
    (srv : AuthServer) (priv kid enc_key : Text) (set_up : srv.keys ≡ keys j l priv kid enc_key)
    (now : ℕ) where
  -- With the keys as `loadKeys` sets them up and claims that JSON carries unchanged, for a minted
  -- client_id that is not empty and is not a URL:
  -- a client that POST /oauth2/register has registered resolves, at any later time and with any cache
  -- of metadata documents, to the name and the redirect URIs of the registration, and all of these are
  -- valid.
  pub registered_client-Resolves :
      (r : Request) (st : RegisterState c) (d : DcrResponse)
      → (handle_register c j rand error_text srv now r st).1.body ≡ registration d
      → IsRegistrationCarried c j l rand error_text srv priv kid enc_key set_up now st.draws d
      → d.client_id ≢ []
      → is_url_client_id d.client_id ≡ false
      → Resolves c j l rand error_text srv priv kid enc_key set_up now st.draws d
        × All IsValidUri d.redirect_uris
  unfolding registration_of
  registered_client-Resolves r st d answered carried filled opaque =
      let (_, (req, _, p)) = (registration_iff c j rand error_text srv now r st d).0 answered in
      let e = p.answered in
      (
        subst (Resolves c j l rand error_text srv priv kid enc_key set_up now st.draws) (sym e) (
            registration-Resolves c j l rand error_text srv priv kid enc_key set_up now st.draws req
              p.client_id p.minted p.given
              (subst
                (IsRegistrationCarried c j l rand error_text srv priv kid enc_key set_up now
                  st.draws)
                e carried)
              (subst (λ (d : DcrResponse). d.client_id ≢ []) e filled)
              (subst (λ (d : DcrResponse). is_url_client_id d.client_id ≡ false) e opaque)),
        subst (λ (d : DcrResponse). All IsValidUri d.redirect_uris) (sym e) p.valid,
      )
