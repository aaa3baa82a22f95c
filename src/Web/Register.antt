-- ===== src/Web/Register.antt =====
-- internal/web/mcp.go, `handleRegister`: dynamic client registration. The state is the number of the
-- next identifier that `randToken` draws, and the limiter by client address.
pub mod Registered
pub mod Resolved
use oidc_proxy.Base.{
  ℕ, ◌/◌, Bool, not, ◌&&◌, Option, none, some, List, [], ◌∷◌, String, Text, codes, text_eq,
  is_empty, if◌then◌else◌, Message, Result, ok, err,
}
use oidc_proxy.Http.{Request, DcrRequest}
use oidc_proxy.Utils.{client_ip}
use oidc_proxy.TtlCache.{TtlCache}
use oidc_proxy.Mcpauth.Jose.{Jose, second}
use oidc_proxy.Mcpauth.AuthServer.{AuthServer}
use oidc_proxy.Mcpauth.Artifacts.{ClientRegistration, mint_client_id}
use oidc_proxy.Mcpauth.RedirectUri.{validate_redirect_uri}
use oidc_proxy.Web.RateLimiter.{RateLimiter, allow}
use oidc_proxy.Web.Response.{
  Response, DcrResponse, write_error, write_error_text, write_registration,
}

pub record RegisterState (c : TtlCache) : Type 0 where
  pub draws : ℕ
  pub limiter : Option (RateLimiter c)

-- The loop over the redirect URIs: the first error.
unfoldable pub first_invalid : List Text → Option Message
first_invalid [] = none
first_invalid (uri ∷ uris) = elim (validate_redirect_uri uri) [
  | some e ↦ some e
  | none ↦ first_invalid uris
]

abbrev pub or_default : Text → String → Text
or_default given default = if is_empty given then codes default else given

unfoldable pub registration_of : DcrRequest → ℕ → Text → DcrResponse
registration_of req now client_id = record {
  client_id = client_id;
  client_id_issued_at = now / second;
  redirect_uris = req.redirect_uris;
  grant_types =
      if is_empty req.grant_types
      then codes "authorization_code" ∷ codes "refresh_token" ∷ []
      else req.grant_types;
  response_types = if is_empty req.response_types then codes "code" ∷ [] else req.response_types;
  token_endpoint_auth_method = codes "none";
  application_type = or_default req.application_type "web";
  client_name = req.client_name;
  scope = req.scope;
}

module _ (c : TtlCache) (j : Jose) (rand : ℕ → Text) (error_text : Message → Text)
    (srv : AuthServer) (now : ℕ) where
  -- The part of the handler after the checks.
  unfoldable pub register_client : DcrRequest → RegisterState c → RegisterState c × Response
  register_client req st =
      let (draws, minted) =
        mint_client_id j rand srv now st.draws
          (record { redirect_uris = req.redirect_uris; client_name = req.client_name }) in
      (
        record st { draws = draws },
        elim minted [
          | err e ↦ write_error [] 500 "server_error" "could not register client"
          | ok client_id ↦ write_registration (registration_of req now client_id)
        ],
      )

  -- The checks of the redirect URIs.
  unfoldable pub register_uris : DcrRequest → RegisterState c → RegisterState c × Response
  register_uris req st =
      if is_empty req.redirect_uris
      then (st, write_error [] 400 "invalid_redirect_uri" "at least one redirect_uri is required")
      else (elim (first_invalid req.redirect_uris) [
        | some e ↦ (st, write_error_text 400 "invalid_redirect_uri" (error_text e))
        | none ↦ register_client req st
      ])

  -- The part of the handler after the body has been read.
  unfoldable pub register_body : Option DcrRequest → RegisterState c → RegisterState c × Response
  register_body none st =
      (st, write_error [] 400 "invalid_client_metadata" "request body is not valid JSON")
  register_body (some req) st =
      let m = req.token_endpoint_auth_method in
      if not (is_empty m) && not (text_eq m (codes "none"))
      then (
        st,
        write_error [] 400 "invalid_client_metadata" "token_endpoint_auth_method must be \"none\"",
      )
      else register_uris req st

  unfoldable pub handle_register : Request → RegisterState c → RegisterState c × Response
  handle_register r st =
      let (limiter, allowed) = allow c now (client_ip r) st.limiter in
      let st' : RegisterState c = record st { limiter = limiter } in
      if not allowed
      then (st', write_error [] 429 "temporarily_unavailable" "registration rate limit exceeded")
      else register_body r.register_body st'
