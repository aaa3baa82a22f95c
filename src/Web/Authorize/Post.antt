-- ===== src/Web/Authorize/Post.antt =====
-- internal/web/mcp.go, `handleAuthorizePOST`: the answer to the consent page.
pub mod Approved
pub mod Checks
use oidc_proxy.Base.{
  Option, ℕ, not, none, some, inl, inr, [], Text, codes, text_eq, if◌then◌else◌, ok, err,
}
use oidc_proxy.Http.{Values, get, Request}
use oidc_proxy.TtlCache.{TtlCache}
use oidc_proxy.Mcpauth.Jose.{Jose}
use oidc_proxy.Mcpauth.Claims.{AuthReqClaims}
use oidc_proxy.Mcpauth.Artifacts.{mint_code, verify_auth_req}
use oidc_proxy.Web.Access.{user_allowed}
use oidc_proxy.Web.Response.{Response, http_error}
use oidc_proxy.Web.Handlers.{same_origin}
use oidc_proxy.Web.Authorize.{
  Server, AuthorizeState, VerifiedId, authorize_redirect_error, deliver_code, error_page,
  reauthenticate,
}

module _ (c : TtlCache) (j : Jose) (rand : ℕ → Text) (S : Type 0) (s : Server S) (now : ℕ) where
  -- Step 5 of the POST, and step 6.
  unfoldable pub mint_and_deliver :
      AuthReqClaims → VerifiedId → AuthorizeState c S → AuthorizeState c S × Response
  mint_and_deliver req id_tok st =
      let (draws, minted) = mint_code j rand s.auth_server now st.draws req in
      if not (user_allowed s.policy id_tok.email)
      then (
        st,
        error_page S s now 403 "Access denied"
            "Your account is not permitted to access this resource.",
      )
      else (
        record st { draws = draws },
        elim minted [
          | err e ↦
              error_page S s now 500 "Server error"
                "Could not complete the authorization. Please try again."
          | ok code ↦ deliver_code s.auth_server req code
        ],
      )

  -- Steps 3 to 6 of the POST, for the claims of the blob.
  unfoldable pub answer_consent :
      Request → Values → AuthReqClaims → AuthorizeState c S → AuthorizeState c S × Response
  answer_consent r f req st =
      let (session, got) = reauthenticate S s now r req st.session in
      let st' : AuthorizeState c S = record st { session = session } in
      if not (text_eq (get f "csrf") req.csrf)
      then (
        st,
        error_page S s now 400 "Invalid request"
            "The request could not be verified. Please start again.",
      )
      else if not (text_eq (get f "action") (codes "approve"))
      then (
        st,
        authorize_redirect_error s.auth_server s.brand_color req.redirect_uri "access_denied"
            (codes "the user denied the request") req.state,
      )
      else (elim got [
        | inl response ↦ (st', response)
        | inr id_tok ↦ mint_and_deliver req id_tok st'
      ])

  -- Step 2 of the POST.
  unfoldable pub verify_consent :
      Request → Values → AuthorizeState c S → AuthorizeState c S × Response
  verify_consent r f st = elim (verify_auth_req j s.auth_server now (get f "authreq")) [
    | err e ↦ (
      st,
      error_page S s now 400 "Request expired"
          "This authorization request is invalid or has expired. Please start again.",
    )
    | ok req ↦ answer_consent r f req st
  ]

  -- The part of the POST after `ParseForm`.
  unfoldable pub authorize_form :
      Request → Option Values → AuthorizeState c S → AuthorizeState c S × Response
  authorize_form r none st = (st, http_error [] "invalid form" 400)
  authorize_form r (some f) st = verify_consent r f st

  unfoldable pub handle_authorize_post :
      Request → AuthorizeState c S → AuthorizeState c S × Response
  handle_authorize_post r st =
      if not (same_origin r)
      then (st, http_error [] "bad origin" 403)
      else authorize_form r r.post_form st
