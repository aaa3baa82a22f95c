-- ===== src/Web/Authorize/Flow.antt =====
-- From a consent page to a code.
use oidc_proxy.Base.{ℕ, ◌+◌, ◌≤◌, ◌≡◌, ap, sym, fields, ◌∙◌, Text, codes, some, Message, ok}
use oidc_proxy.Http.{Values, get, Request}
use oidc_proxy.TtlCache.{TtlCache}
use oidc_proxy.Mcpauth.Jose.{Jose, JoseLaws, second}
use oidc_proxy.Mcpauth.Claims.{AuthReqClaims, CodeClaims, object_of_auth_req}
use oidc_proxy.Mcpauth.Artifacts.{auth_req_claims, code_claims, mint_code}
use oidc_proxy.Mcpauth.Artifacts.Sealing.{keys}
use oidc_proxy.Mcpauth.Artifacts.Consent.{mint_auth_req-ok, verify_auth_req-mint_auth_req}
use oidc_proxy.Utils.{origin_of}
use oidc_proxy.Web.Access.{IsAdmitted}
use oidc_proxy.Web.Response.{ConsentData, consent_page}
use oidc_proxy.Web.Handlers.{expected_origin}
use oidc_proxy.Web.Authorize.{Server, AuthorizeState, VerifiedId, host_of, deliver_code}
use oidc_proxy.Web.Authorize.Browser.{IsSignedIn}
use oidc_proxy.Web.Authorize.Get.Consent.{AsksConsent, consent_page_iff}
use oidc_proxy.Web.Authorize.Get.{handle_authorize_get}
use oidc_proxy.Web.Authorize.Post.{handle_authorize_post}
use oidc_proxy.Web.Authorize.Post.Approved.{code_delivered}

-- A code that is bound to what a page has shown, to the client that asked for it and to the user.
pub record IsBoundTo (r : Request) (id_tok : VerifiedId) (d : ConsentData) (code : CodeClaims)
    : Type 0 where
  pub redirect_host : host_of code.redirect_uri ≡ d.redirect_host
  pub redirect_origin : origin_of code.redirect_uri ≡ d.redirect_origin
  pub resource : code.resource ≡ d.resource
  pub scopes : fields code.scope ≡ d.scopes
  pub redirect_uri : code.redirect_uri ≡ get r.query "redirect_uri"
  pub code_challenge : code.code_challenge ≡ get r.query "code_challenge"
  pub client_id : code.client_id ≡ get r.query "client_id"
  pub subject : code.claims.subject ≡ id_tok.subject
  pub email : code.email ≡ id_tok.email

-- The form that the consent page posts when the user approves.
pub record IsApproval (r : Request) (f : Values) (d : ConsentData) : Type 0 where
  pub own_origin : get r.header "Origin" ≡ expected_origin r
  pub posted : r.post_form ≡ some f
  pub blob : get f "authreq" ≡ d.auth_req
  pub nonce : get f "csrf" ≡ d.csrf
  pub approved : get f "action" ≡ codes "approve"

module _ (c : TtlCache) (j : Jose) (l : JoseLaws j) (rand : ℕ → Text) (error_text : Message → Text)
    (S : Type 0) (s : Server S) (priv kid enc_key : Text)
    (set_up : s.auth_server.keys ≡ keys j l priv kid enc_key) where
  -- What the blob of a consent page seals.
  abbrev pub sealed_claims :
      (now : ℕ) (r : Request) (st : AuthorizeState c S) (d : ConsentData)
      → AsksConsent c j rand error_text S s now r st d
      → AuthReqClaims
  sealed_claims now r st d p = auth_req_claims j rand s.auth_server now st.draws p.is_offered.input

  sealed_claims-IsBoundTo :
      (now later draws : ℕ) (r : Request) (st : AuthorizeState c S) (d : ConsentData)
      (p : AsksConsent c j rand error_text S s now r st d)
      → IsBoundTo r p.id_tok d
          (code_claims j rand s.auth_server later draws (sealed_claims now r st d p))
  unfolding code_claims auth_req_claims
  sealed_claims-IsBoundTo now later draws r st d p =
      let sealed = p.is_offered.sealed_for in
      let shown = p.is_offered.shown in
      record {
        redirect_host = ap host_of sealed.redirect_uri ∙ sym shown.redirect_host;
        redirect_origin = ap origin_of sealed.redirect_uri ∙ sym shown.redirect_origin;
        resource = sealed.resource ∙ sym shown.resource;
        scopes = ap fields sealed.scope ∙ sym shown.scopes;
        redirect_uri = sealed.redirect_uri ∙ sym p.is_checked.redirect;
        code_challenge = sealed.code_challenge ∙ sym p.is_checked.challenge;
        client_id = sealed.client;
        subject = sealed.sub;
        email = sealed.email;
      }

  -- With the keys as `loadKeys` sets them up and claims that JSON carries unchanged: GET
  -- /oauth2/authorize answers a request that passes all of its checks with the consent page, and
  -- when a user approves on that page from the proxy's own origin, before the lifetime of the blob
  -- is over, signed in as the same subject and admitted by the policy, then POST /oauth2/authorize
  -- answers with the redirect that delivers the code, provided that it can be sealed; and the
  -- claims that this code seals have the resource and the scopes that the page showed, a redirect
  -- URI with the host and the origin that it showed, the client_id, redirect URI and challenge of
  -- the request that led to the page, and the user for whom the page was made.
  pub consent_page-code :
      (now : ℕ) (r : Request) (st : AuthorizeState c S) (d : ConsentData)
      (p : AsksConsent c j rand error_text S s now r st d)
      → l.IsCarried (object_of_auth_req (sealed_claims now r st d p))
      → (later : ℕ) (r' : Request) (st' : AuthorizeState c S) (f : Values) (id_tok : VerifiedId)
        (code : Text)
      → now ≤ later
      → later + second ≤ now + s.auth_server.auth_req_ttl
      → IsApproval r' f d
      → IsSignedIn S s later r' st'.session id_tok
      → id_tok.subject ≡ p.id_tok.subject
      → IsAdmitted s.policy id_tok.email
      → (mint_code j rand s.auth_server later st'.draws (sealed_claims now r st d p)).1 ≡ ok code
      → ((handle_authorize_get c j rand error_text S s now r st).1.body ≡ consent_page d)
        × ((handle_authorize_post c j rand S s later r' st').1
            ≡ deliver_code s.auth_server (sealed_claims now r st d p) code)
        × IsBoundTo r p.id_tok d
            (code_claims j rand s.auth_server later st'.draws (sealed_claims now r st d p))
  unfolding auth_req_claims
  consent_page-code now r st d p carried later r' st' f id_tok code after before approval signed_in
        same_user admitted minted =
      let req = sealed_claims now r st d p in
      let blob = p.is_offered.blob in
      let input = p.is_offered.input in
      let opened =
        verify_auth_req-mint_auth_req j l rand s.auth_server priv kid enc_key set_up now st.draws
          later input blob.0 blob.1 carried p.is_offered.sealed after before in
      let drawn =
        (mint_auth_req-ok j l rand s.auth_server priv kid enc_key set_up now st.draws input blob.0
          blob.1 p.is_offered.sealed).1 in
      let delivered =
        code_delivered c j rand S s later r' st' f req code
          (record {
            own_origin = approval.own_origin;
            posted = approval.posted;
            opened = rw (approval.blob ∙ p.is_offered.shown.auth_req) opened;
            nonce = approval.nonce ∙ p.is_offered.shown.csrf ∙ drawn;
            approved = approval.approved;
            id_tok = id_tok;
            is_signed_in = signed_in;
            same_user = same_user ∙ sym p.is_offered.sealed_for.sub;
            admitted = admitted;
          })
          minted in
      (
        (consent_page_iff c j rand error_text S s now r st d).1 p,
        delivered,
        sealed_claims-IsBoundTo now later st'.draws r st d p,
      )
