-- ===== src/Web/Authorize/Get/Consent.antt =====
-- When the authorization endpoint asks the user for consent, and what the consent page holds.
use oidc_proxy.Base.{
  ℕ, ◌≡◌, ◌↔◌, ◌⊎◌, inl, inr, refl, ap, ◌∙◌, sym, true, false, not, ◌&&◌, Option, Text, arith, Bool,
  if◌then◌else◌, Bool-cases, Message, ok, Result-cases, ⊎-cases,
}
use mathlib.Core.Path.{subst}
use oidc_proxy.Http.{get, Request}
use oidc_proxy.TtlCache.{TtlCache}
use oidc_proxy.Mcpauth.Jose.{Jose}
use oidc_proxy.Mcpauth.Artifacts.{AuthReqInput, mint_auth_req}
use oidc_proxy.Mcpauth.RedirectUri.{is_url_client_id}
use oidc_proxy.Mcpauth.Cimd.{ClientMetadata}
use oidc_proxy.Mcpauth.Client.{resolve_client}
use oidc_proxy.Utils.{client_ip}
use oidc_proxy.Web.RateLimiter.{RateLimiter, allow}
use oidc_proxy.Web.Access.{IsAdmitted, user_allowed, user_allowed_iff}
use oidc_proxy.Web.Response.{
  Response, ConsentData, consent_page, render_consent, render_authz_error,
}
use oidc_proxy.Web.Authorize.{Server, AuthorizeState, VerifiedId, authenticate_browser}
use oidc_proxy.Web.Authorize.Get.{
  CheckedRequest, authorize_client, check_request, auth_req_input, ask_consent, authorize_browser,
  handle_authorize_get,
}
use oidc_proxy.Web.Authorize.Browser.{
  IsSignedIn, authenticate_browser_iff, authenticate_browser-IsFound,
}
use oidc_proxy.Web.Authorize.Get.Checked.{
  Declines, error_page-Declines, IsChecked, check_request_iff, check_request-Declines,
}
use oidc_proxy.Web.Authorize.Get.Page.{IsSealedFor, Shows, input-IsSealedFor, page-Shows}

module _ (c : TtlCache) (j : Jose) (rand : ℕ → Text) (error_text : Message → Text) (S : Type 0)
    (s : Server S) (now : ℕ) where
  -- What steps 8 and 9 need to ask for consent, and the page.
  pub record IsOffered (client_id : Text) (client : ClientMetadata) (k : CheckedRequest)
      (id_tok : VerifiedId) (draws : ℕ) (d : ConsentData) : Type 0 where
    pub admitted : IsAdmitted s.policy id_tok.email
    pub input : AuthReqInput
    pub sealed_for : IsSealedFor s.auth_server client_id k id_tok input
    pub blob : Text × Text
    pub sealed : (mint_auth_req j rand s.auth_server now draws input).1 ≡ ok blob
    pub shown : Shows s.auth_server s.brand_color client k blob d

  ok_eq : {a b : Text × Text} → ok a ≡ ok b → a ≡ b
  ok_eq h = ground arith

  page_eq : {d e : ConsentData} → consent_page d ≡ consent_page e → d ≡ e
  page_eq h = ground arith

  ask_consent_iff :
      (client_id : Text) (client : ClientMetadata) (k : CheckedRequest) (id_tok : VerifiedId)
      (st : AuthorizeState c S) (d : ConsentData)
      → ((ask_consent c j rand error_text S s now client_id client k id_tok st).1.body
          ≡ consent_page d)
        ↔ IsOffered client_id client k id_tok st.draws d
  unfolding ask_consent render_consent render_authz_error
  ask_consent_iff client_id client k id_tok st d =
      let input = auth_req_input c j rand error_text S s now client_id k id_tok in
      elim (Bool-cases (user_allowed s.policy id_tok.email)) [
        | inr refused ↦ (
          λ h. absurd (ground arith),
          λ p. absurd (ground (arith, (user_allowed_iff s.policy id_tok.email).1 p.admitted)),
        )
        | inl user ↦ elim (Result-cases (mint_auth_req j rand s.auth_server now st.draws input).1) [
          | inr (e, bad) ↦ (
            λ h. absurd (ground arith),
            λ p. absurd (
                ground (
                  arith,
                  p.sealed,
                  (input-IsSealedFor c j rand error_text S s now client_id k id_tok p.input).0
                      p.sealed_for,
                )),
          )
          | inl (blob, good) ↦
              rw (user, good, ask_consent)
                (
                  λ h. record {
                    admitted = (user_allowed_iff s.policy id_tok.email).0 user;
                    input = input;
                    sealed_for =
                        (input-IsSealedFor c j rand error_text S s now client_id k id_tok input).1
                          refl;
                    blob = blob;
                    sealed = good;
                    shown =
                        (page-Shows c j rand error_text S s now client k blob d).1
                          (page_eq (sym h));
                  },
                  λ p.
                      let own =
                        (input-IsSealedFor c j rand error_text S s now client_id k id_tok p.input).0
                          p.sealed_for in
                      let seal = λ (i : AuthReqInput).
                        (mint_auth_req j rand s.auth_server now st.draws i).1 in
                      let same : p.blob ≡ blob = ok_eq (sym p.sealed ∙ ap seal own ∙ good) in
                      ap consent_page (
                        sym (
                          (page-Shows c j rand error_text S s now client k blob d).0 (
                            subst (λ b. Shows s.auth_server s.brand_color client k b d) same
                              p.shown))),
                )
        ]
      ]

  authorize_browser_iff :
      (r : Request) (client : ClientMetadata) (k : CheckedRequest) (st : AuthorizeState c S)
      (d : ConsentData)
      → ((authorize_browser c j rand error_text S s now r client k st).1.body ≡ consent_page d) ↔ (
          (id_tok : VerifiedId) × IsSignedIn S s now r st.session id_tok
          × IsOffered (get r.query "client_id") client k id_tok st.draws d)
  unfolding authorize_browser authenticate_browser
  authorize_browser_iff r client k st d =
      let signed_in = authenticate_browser_iff S s now r st.session in
      elim (⊎-cases (authenticate_browser S s now r st.session).1) [
        | inl (response, out) ↦
            let (target, redirected) =
              authenticate_browser-IsFound S s now r st.session response out in
            (
              λ h. absurd (ground (arith, redirected)),
              λ (id_tok, p, _). absurd (ground (arith, (signed_in id_tok).1 p)),
            )
        | inr (id_tok, known) ↦
            let st' : AuthorizeState c S = record st {
              session = (authenticate_browser S s now r st.session).0;
            } in
            rw (known, authorize_browser)
              (
                λ h. (
                  id_tok,
                  (signed_in id_tok).0 known,
                  (ask_consent_iff (get r.query "client_id") client k id_tok st' d).0 h,
                ),
                λ (other, p, offered).
                    let same : other ≡ id_tok = ground (arith, (signed_in other).1 p) in
                    (ask_consent_iff (get r.query "client_id") client k id_tok st' d).1 (
                      subst (λ i. IsOffered (get r.query "client_id") client k i st.draws d) same
                        offered),
              )
      ]

  -- The same for a state of which the identifiers and the verifier's state are known.
  browser_part :
      (r : Request) (client : ClientMetadata) (k : CheckedRequest) (st : AuthorizeState c S)
      (draws : ℕ) (session : S) (d : ConsentData)
      → st.draws ≡ draws
      → st.session ≡ session
      → ((authorize_browser c j rand error_text S s now r client k st).1.body ≡ consent_page d) ↔ (
          (id_tok : VerifiedId) × IsSignedIn S s now r session id_tok
          × IsOffered (get r.query "client_id") client k id_tok draws d)
  browser_part r client k st draws session d same_draws same_session =
      rw (sym same_draws, sym same_session) (authorize_browser_iff r client k st d)

  -- The client of a request: the limiter lets the address through if the client_id names a document,
  -- and the client_id resolves.
  pub record IsKnown (r : Request) (st : AuthorizeState c S) (client : ClientMetadata)
      : Type 0 where
    pub let_through :
        is_url_client_id (get r.query "client_id") ≡ true
        → (allow c now (client_ip r) st.limiter).1 ≡ true
    pub resolved :
        (resolve_client c j s.auth_server s.resolver now (get r.query "client_id") st.cache).1
        ≡ ok client

  -- What step 1 answers.
  data ClientAnswer (r : Request) (st st' : AuthorizeState c S) (answer : Response ⊎ ClientMetadata)
      : Type 0 where
    unknown :
        (response : Response)
        → answer ≡ inl response
        → Declines response
        → ((client : ClientMetadata) → ¬ IsKnown r st client)
        → ClientAnswer r st st' answer
    known :
        (client : ClientMetadata)
        → answer ≡ inr client
        → IsKnown r st client
        → st'.draws ≡ st.draws
        → st'.session ≡ st.session
        → ClientAnswer r st st' answer

  other_parts :
      (fetched : Bool) (limiter : Option (RateLimiter c)) (st : AuthorizeState c S)
      → let st' : AuthorizeState c S = if fetched then record st { limiter = limiter } else st in
        (st'.draws ≡ st.draws) × (st'.session ≡ st.session)
  other_parts true limiter st = (refl, refl)
  other_parts false limiter st = (refl, refl)

  client_answer :
      (r : Request) (st : AuthorizeState c S)
      → let (st', answer) = authorize_client c j rand error_text S s now r st in
        ClientAnswer r st st' answer
  unfolding authorize_client
  client_answer r st =
      let fetched = is_url_client_id (get r.query "client_id") in
      let allowed = (allow c now (client_ip r) st.limiter).1 in
      elim (Bool-cases (fetched && not allowed)) [
        | inl limited ↦
            rw (limited, authorize_client)
              (unknown _ refl (error_page-Declines c j rand error_text S s now _ _ _)
                (λ client p. absurd (ground (arith, p.let_through))))
        | inr free ↦
            elim (Result-cases
              (resolve_client c j s.auth_server s.resolver now (get r.query "client_id")
                st.cache).1) [
                  | inr (e, bad) ↦
                      rw (free, bad, authorize_client)
                        (unknown _ refl (error_page-Declines c j rand error_text S s now _ _ _)
                          (λ client p. absurd (ground (arith, p.resolved))))
                  | inl (client, good) ↦
                      rw (free, good, authorize_client)
                        (known client refl
                          (record { let_through = λ e. ground arith; resolved = good })
                          (other_parts fetched _ st).0 (other_parts fetched _ st).1)
                ]
      ]

  -- An authorization request that is answered with the consent page that holds `d`.
  pub record AsksConsent (r : Request) (st : AuthorizeState c S) (d : ConsentData) : Type 0 where
    pub client : ClientMetadata
    pub is_known : IsKnown r st client
    pub asked : CheckedRequest
    pub is_checked : IsChecked c j rand error_text S s now r.query client asked
    pub id_tok : VerifiedId
    pub is_signed_in : IsSignedIn S s now r st.session id_tok
    pub is_offered : IsOffered (get r.query "client_id") client asked id_tok st.draws d

  resolved_eq :
      {r : Request} {st : AuthorizeState c S} {a b : ClientMetadata}
      → IsKnown r st a
      → IsKnown r st b
      → a ≡ b
  resolved_eq p q = ground (arith, p.resolved, q.resolved)

  -- The answer to GET /oauth2/authorize is the consent page that holds `d` exactly for a request whose
  -- client_id the limiter lets through and resolves to a client, that names one of the client's redirect
  -- URIs, asks for a code with an S256 challenge, for the server's resource and for supported scopes,
  -- from a browser whose ID token the verifier accepts, of a user whom the policy admits; and `d` shows
  -- that client, redirect URI, resource and scope, and holds the blob that seals them with the user.
  pub consent_page_iff :
      (r : Request) (st : AuthorizeState c S) (d : ConsentData)
      → ((handle_authorize_get c j rand error_text S s now r st).1.body ≡ consent_page d)
        ↔ AsksConsent r st d
  unfolding handle_authorize_get
  consent_page_iff r st d = elim (client_answer r st) [
    | unknown response out declines none_known ↦
        rw (out, handle_authorize_get)
          (λ h. absurd (declines d h), λ p. absurd (none_known p.client p.is_known))
    | known client found is_known same_draws same_session ↦
        elim (⊎-cases (check_request c j rand error_text S s now r.query client)) [
          | inl (response, out) ↦
              rw (found, out, handle_authorize_get)
                (
                  λ h. absurd (
                      check_request-Declines c j rand error_text S s now r.query client response out
                        d h),
                  λ p.
                      let same = resolved_eq p.is_known is_known in
                      let passed =
                        (check_request_iff c j rand error_text S s now r.query p.client p.asked).1
                          p.is_checked in
                      absurd (ground (arith, passed, same)),
                )
          | inr (k, passed) ↦
              let part =
                browser_part r client k (authorize_client c j rand error_text S s now r st).0
                  st.draws st.session d same_draws same_session in
              rw (found, passed, handle_authorize_get)
                (
                  λ h.
                      let (id_tok, signed_in, offered) = part.0 h in
                      record {
                        client = client;
                        is_known = is_known;
                        asked = k;
                        is_checked =
                            (check_request_iff c j rand error_text S s now r.query client k).0
                              passed;
                        id_tok = id_tok;
                        is_signed_in = signed_in;
                        is_offered = offered;
                      },
                  λ p.
                      let same = resolved_eq p.is_known is_known in
                      let p_passed =
                        (check_request_iff c j rand error_text S s now r.query p.client p.asked).1
                          p.is_checked in
                      let same_request : p.asked ≡ k = ground (arith, p_passed, same) in
                      part.1 (
                        p.id_tok,
                        p.is_signed_in,
                        subst
                            (λ a. IsOffered (get r.query "client_id") client a p.id_tok st.draws d)
                            same_request
                            (subst
                              (λ m.
                                IsOffered (get r.query "client_id") m p.asked p.id_tok st.draws d)
                              same p.is_offered),
                      ),
                )
        ]
  ]
