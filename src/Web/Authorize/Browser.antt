-- ===== src/Web/Authorize/Browser.antt =====
-- Whom the authorization endpoint takes the browser to be.
use oidc_proxy.Base.{
  ℕ, ◌≡◌, ◌≢◌, ◌↔◌, inl, inr, refl, ap, sym, ◌∙◌, [], Text, arith, is_empty, is_empty_complete,
  Bool-cases, ok, Result-cases,
}
use oidc_proxy.Http.{Request}
use oidc_proxy.Token.{Verified}
use oidc_proxy.Web.Response.{Response, found}
use oidc_proxy.Web.Session.{read_tokens}
use oidc_proxy.Web.Handlers.{redirect_to_sign_in_with}
use oidc_proxy.Web.Authorize.{
  Server, VerifiedId, browser_flow, identity_or_flow, verify_entra_cookie, authenticate_browser,
}

module _ (S : Type 0) (s : Server S) (now : ℕ) (r : Request) where
  -- The identity of the request's ID token cookie, as the verifier gives it.
  pub record IsSignedIn (session : S) (id_tok : VerifiedId) : Type 0 where
    pub given : (read_tokens s.cookies r.cookies).id_token ≢ []
    pub user : Verified
    pub verified : (s.verify_fn now (read_tokens s.cookies r.cookies).id_token session).1 ≡ ok user
    pub subject : id_tok.subject ≡ user.subject
    pub email : id_tok.email ≡ user.email

  -- A redirect within the browser flow.
  abbrev pub IsFound : Response → Type 0
  IsFound response = (target : Text) × (response ≡ found target)

  browser_flow-IsFound :
      (rd : Text) → IsFound (browser_flow S s now r rd (read_tokens s.cookies r.cookies))
  unfolding browser_flow redirect_to_sign_in_with
  browser_flow-IsFound rd =
      elim (Bool-cases (is_empty (read_tokens s.cookies r.cookies).refresh_token)) [
        | inl e ↦ rw (e, browser_flow) (_, refl)
        | inr e ↦ rw (e, browser_flow) (_, refl)
      ]

  identity_eq :
      (v : Verified) (id_tok : VerifiedId)
      → id_tok.subject ≡ v.subject
      → id_tok.email ≡ v.email
      → record { subject = v.subject; email = v.email } ≡ id_tok
  identity_eq v id_tok p q = cc

  -- The check passes with an identity exactly for a browser that is signed in with it, and otherwise
  -- answers with a redirect.
  pub verify_entra_cookie_iff :
      (rd : Text) (session : S) (id_tok : VerifiedId)
      → ((verify_entra_cookie S s now r rd session).1 ≡ inr id_tok) ↔ IsSignedIn session id_tok
  unfolding verify_entra_cookie identity_or_flow
  verify_entra_cookie_iff rd session id_tok =
      let tokens = read_tokens s.cookies r.cookies in
      elim (Bool-cases (is_empty tokens.id_token)) [
        | inl empty ↦ (
          λ h. absurd (ground arith),
          λ signed. absurd (ground (arith, is_empty_complete tokens.id_token signed.given)),
        )
        | inr given ↦ elim (Result-cases (s.verify_fn now tokens.id_token session).1) [
          | inr (e, bad) ↦
              (λ h. absurd (ground arith), λ signed. absurd (ground (arith, signed.verified)))
          | inl (v, good) ↦ (
            λ h. record {
              given = λ e. absurd (ground (arith, ap is_empty e));
              user = v;
              verified = good;
              subject = ground arith;
              email = ground arith;
            },
            λ signed.
                let same : signed.user ≡ v = ground (arith, signed.verified) in
                rw (given, good, verify_entra_cookie)
                  (ap inr (
                    identity_eq v id_tok (ground (arith, same, signed.subject))
                      (ground (arith, same, signed.email)))),
          )
        ]
      ]

  pub verify_entra_cookie-IsFound :
      (rd : Text) (session : S) (response : Response)
      → (verify_entra_cookie S s now r rd session).1 ≡ inl response
      → IsFound response
  unfolding verify_entra_cookie identity_or_flow
  verify_entra_cookie-IsFound rd session response h =
      let tokens = read_tokens s.cookies r.cookies in
      let (target, flow) = browser_flow-IsFound rd in
      elim (Bool-cases (is_empty tokens.id_token)) [
        | inl empty ↦ (target, ground arith)
        | inr given ↦ elim (Result-cases (s.verify_fn now tokens.id_token session).1) [
          | inr (e, bad) ↦ (target, ground arith)
          | inl (v, good) ↦ absurd (ground arith)
        ]
      ]

  -- The check of the GET passes with an identity exactly for a browser that is signed in with it.
  pub authenticate_browser_iff :
      (session : S) (id_tok : VerifiedId)
      → ((authenticate_browser S s now r session).1 ≡ inr id_tok) ↔ IsSignedIn session id_tok
  unfolding authenticate_browser
  authenticate_browser_iff session id_tok = verify_entra_cookie_iff _ session id_tok

  pub authenticate_browser-IsFound :
      (session : S) (response : Response)
      → (authenticate_browser S s now r session).1 ≡ inl response
      → IsFound response
  unfolding authenticate_browser
  authenticate_browser-IsFound session response h = verify_entra_cookie-IsFound _ session response h

  -- A browser is signed in with one address.
  pub signed_in_email :
      {session : S} {a b : VerifiedId}
      → IsSignedIn session a
      → IsSignedIn session b
      → a.email ≡ b.email
  signed_in_email p q =
      let same : p.user ≡ q.user = ground (arith, p.verified, q.verified) in
      p.email ∙ ap (λ (v : Verified). v.email) same ∙ sym q.email
