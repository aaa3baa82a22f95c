-- ===== src/Web/Handlers/Session.antt =====
-- Which requests pass with the session's cookies, and which requests set them.
use oidc_proxy.Base.{
  ℕ, ◌≡◌, ◌≢◌, ◌↔◌, ◌⊎◌, inl, inr, refl, ap, true, false, not, ◌&&◌, Option, none, some, [], ◌∷◌,
  Text, arith, codes, text_eq, text_eq_iff, is_empty, is_empty_sound, if◌then◌else◌, Bool-cases,
  Result, ok, err,
}
use mathlib.Core.Path.{subst}
use oidc_proxy.Http.{get, Values, Request, SessionBody}
use oidc_proxy.Token.{Verified}
use oidc_proxy.Utils.{sanitize_redirect}
use oidc_proxy.Utils.Redirect.{IsSlashPath, sanitize_redirect_iff}
use oidc_proxy.Web.Access.{AccessPolicy, IsAdmitted, user_allowed, user_allowed_iff}
use oidc_proxy.Web.Response.{Response, redirect, http_error}
use oidc_proxy.Web.Session.{
  Tokens, CookieConfig, suffix_refresh_token, cookie_value, cookie_name, read_tokens, write_tokens,
}
use oidc_proxy.Web.Session.Jar.{store_cookies, read_tokens-clear_tokens}
use oidc_proxy.Web.Handlers.{
  expected_origin, same_origin, redirect_to_sign_in, redirect_to_sign_in_with, redirect_to_refresh,
  verified_response, handle_verify, session_response, session_body_response, session_decoded,
  handle_session, handle_sign_out,
}

module _ (S : Type 0) (verify_fn : ℕ → Text → S → S × Result Verified) (cfg : CookieConfig)
    (policy : AccessPolicy) (now : ℕ) (r : Request) (s : S) where
  verified_response_iff :
      (tokens : Tokens) (result : Result Verified)
      → ((verified_response S verify_fn cfg policy now r tokens result).status ≡ 200)
        ↔ ((v : Verified) × (result ≡ ok v) × IsAdmitted policy v.email)
  unfolding verified_response http_error redirect_to_refresh redirect_to_sign_in
      redirect_to_sign_in_with
  verified_response_iff tokens (err e) = (
    λ h. elim (Bool-cases (is_empty tokens.refresh_token)) [
      | inl empty ↦ absurd (ground arith)
      | inr filled ↦ absurd (ground arith)
    ],
    λ (v, e, u). absurd (ground arith),
  )
  verified_response_iff tokens (ok v) = elim (Bool-cases (user_allowed policy v.email)) [
    | inl user ↦ (
      λ h. (v, refl, (user_allowed_iff policy v.email).0 user),
      λ h. rw (user, verified_response) refl,
    )
    | inr refused ↦ (
      λ h. absurd (ground arith),
      λ (w, e, u).
          let same : w ≡ v = ground arith in
          absurd (
            ground (
              arith,
              (user_allowed_iff policy v.email).1 (subst (λ q. IsAdmitted policy q.email) same u),
            )),
    )
  ]

  -- The forward-auth check of a browser passes with status 200 exactly when the request has an ID
  -- token cookie that the verifier accepts, for a user whom the policy admits.
  pub verify_passes_iff :
      let token = (read_tokens cfg r.cookies).id_token in
      ((handle_verify S verify_fn cfg policy now r s).1.status ≡ 200) ↔ (
        (token ≢ [])
        × ((v : Verified) × ((verify_fn now token s).1 ≡ ok v) × IsAdmitted policy v.email))
  unfolding handle_verify redirect_to_sign_in redirect_to_sign_in_with
  verify_passes_iff =
      let tokens = read_tokens cfg r.cookies in
      let judged = verified_response_iff tokens (verify_fn now tokens.id_token s).1 in
      elim (Bool-cases (is_empty tokens.id_token)) [
        | inl empty ↦ (
          λ h. absurd (ground arith),
          λ (given, _). absurd (given (is_empty_sound tokens.id_token empty)),
        )
        | inr given ↦
            rw (given, handle_verify)
              (λ h. (λ e. absurd (ground (arith, ap is_empty e)), judged.0 h), λ (_, h). judged.1 h)
      ]

  -- The tokens that an accepted body stands for: an absent refresh token is the cookie's.
  abbrev session_tokens : SessionBody → Tokens
  session_tokens body = record {
    id_token = body.id_token;
    access_token = body.access_token;
    refresh_token =
        if is_empty body.refresh_token
        then cookie_value r.cookies (cookie_name cfg suffix_refresh_token)
        else body.refresh_token;
  }

  -- A request that opens a session.
  pub record OpensSession (body : SessionBody) : Type 0 where
    pub posted : r.method ≡ codes "POST"
    pub origin : get r.header "Origin" ≡ expected_origin r
    pub decoded : r.session_body ≡ some body
    pub given : body.id_token ≢ []
    pub user : Verified
    pub verified : (verify_fn now body.id_token s).1 ≡ ok user
    pub fresh : (body.nonce ≡ []) ⊎ (user.nonce ≡ body.nonce)
    pub admitted : IsAdmitted policy user.email

  -- The test that a nonce, if one is given, is the token's.
  nonce_fresh :
      (nonce got : Text)
      → (not (is_empty nonce) && not (text_eq got nonce)) ≡ false
      → (nonce ≡ []) ⊎ (got ≡ nonce)
  nonce_fresh nonce got h = elim (Bool-cases (is_empty nonce)) [
    | inl e ↦ inl (is_empty_sound nonce e)
    | inr filled ↦ inr ((text_eq_iff got nonce).0 (ground arith))
  ]

  -- What the part after the verifier answers: it refuses without a cookie, or writes the tokens.
  data SessionAnswer (body : SessionBody) (result : Result Verified) (response : Response)
      : Type 0 where
    declined : response.status ≢ 204 → response.cookies ≡ [] → SessionAnswer body result response
    opened :
        (v : Verified)
        → result ≡ ok v
        → (body.nonce ≡ []) ⊎ (v.nonce ≡ body.nonce)
        → IsAdmitted policy v.email
        → response.cookies ≡ write_tokens cfg now (session_tokens body)
        → SessionAnswer body result response

  session_answer :
      (body : SessionBody) (result : Result Verified)
      → SessionAnswer body result (session_response S verify_fn cfg policy now r body result)
  unfolding session_response http_error
  session_answer body (err e) = declined (λ h. absurd (ground arith)) refl
  session_answer body (ok v) =
      elim (Bool-cases (not (is_empty body.nonce) && not (text_eq v.nonce body.nonce))) [
        | inl mismatch ↦
            rw (mismatch, session_response) (declined (λ h. absurd (ground arith)) refl)
        | inr fresh ↦ elim (Bool-cases (user_allowed policy v.email)) [
          | inr refused ↦
              rw (fresh, refused, session_response) (declined (λ h. absurd (ground arith)) refl)
          | inl user ↦
              rw (fresh, user, session_response)
                (opened v refl (nonce_fresh body.nonce v.nonce fresh)
                  ((user_allowed_iff policy v.email).0 user) refl)
        ]
      ]

  -- Either no session, or one that was opened as it should.
  abbrev pub IsGuarded : Response → Type 0
  IsGuarded response =
      ((response.status ≢ 204) × (response.cookies ≡ []))
      ⊎ ((body : SessionBody) × OpensSession body
          × (response.cookies ≡ write_tokens cfg now (session_tokens body)))

  session_decoded-IsGuarded :
      (b : Option SessionBody)
      → r.method ≡ codes "POST"
      → get r.header "Origin" ≡ expected_origin r
      → r.session_body ≡ b
      → IsGuarded (session_decoded S verify_fn cfg policy now r b s).1
  unfolding session_decoded session_body_response http_error
  session_decoded-IsGuarded none posted own decoded = inl (λ h. absurd (ground arith), refl)
  session_decoded-IsGuarded (some body) posted own decoded =
      elim (Bool-cases (is_empty body.id_token)) [
        | inl missing ↦
            rw (missing, session_decoded, session_body_response)
              (inl (λ h. absurd (ground arith), refl))
        | inr given ↦ elim (session_answer body (verify_fn now body.id_token s).1) [
          | declined status cookies ↦
              rw (given, session_decoded, session_body_response) (inl (status, cookies))
          | opened v verified fresh admitted cookies ↦
              rw (given, session_decoded, session_body_response)
                (inr (
                  body,
                  record {
                    posted = posted;
                    origin = own;
                    decoded = decoded;
                    given = λ e. absurd (ground (arith, ap is_empty e));
                    user = v;
                    verified = verified;
                    fresh = fresh;
                    admitted = admitted;
                  },
                  cookies,
                ))
        ]
      ]

  -- A request sets session cookies only if it is a POST from the proxy's own origin with a body whose
  -- ID token the verifier accepts, with the nonce of the body if that has one, for a user whom the
  -- policy admits; the cookies are then those of the tokens of the body, with the refresh token of
  -- the request's cookie where the body has none. Every other request sets no cookie and is not
  -- answered with 204.
  pub handle_session-IsGuarded : IsGuarded (handle_session S verify_fn cfg policy now r s).1
  unfolding handle_session same_origin http_error
  handle_session-IsGuarded = elim (Bool-cases (text_eq r.method (codes "POST"))) [
    | inr other ↦ rw (other, handle_session) (inl (λ h. absurd (ground arith), refl))
    | inl posted ↦ elim (Bool-cases (same_origin r)) [
      | inr foreign ↦ rw (posted, foreign, handle_session) (inl (λ h. absurd (ground arith), refl))
      | inl own ↦
          rw (posted, own, handle_session)
            (session_decoded-IsGuarded r.session_body
              ((text_eq_iff r.method (codes "POST")).0 posted)
              ((text_eq_iff (get r.header "Origin") (expected_origin r)).0 (origin_given own)) refl)
    ]
  ]
    where
      origin_given :
          same_origin r ≡ true → text_eq (get r.header "Origin") (expected_origin r) ≡ true
      origin_given own = ground arith

slash_or_root : (t : Text) → IsSlashPath t → IsSlashPath (if is_empty t then codes "/" else t)
slash_or_root [] h = absurd h
slash_or_root (c ∷ t) h = h

-- The outcome of `handleSignOut`: it refuses a cross-site request that is not a POST, and otherwise
-- redirects to a text that begins with exactly one slash, which a backslash may follow, after which a
-- browser that follows the response's cookies presents no token any more.
pub sign_out_clears :
    (cfg : CookieConfig) (r : Request) (jar : Values)
    → let response = handle_sign_out cfg r in
      ((response.status ≡ 403)
        × (response.cookies ≡ [])
        × (r.method ≢ codes "POST")
        × (get r.header "Sec-Fetch-Site" ≡ codes "cross-site"))
      ⊎ ((target : Text) × (response.body ≡ redirect target)
          × IsSlashPath target
          × (read_tokens cfg (store_cookies response.cookies jar)
              ≡ record { id_token = []; access_token = []; refresh_token = [] }))
unfolding handle_sign_out http_error codes
sign_out_clears cfg r jar =
    let crossed =
      not (text_eq r.method (codes "POST"))
      && text_eq (get r.header "Sec-Fetch-Site") (codes "cross-site") in
    let rd = sanitize_redirect (get r.query "rd") in
    elim (Bool-cases crossed) [
      | inl bad ↦
          rw (bad, handle_sign_out)
            (inl (
              refl,
              refl,
              (λ e. absurd (ground (arith, (text_eq_iff r.method (codes "POST")).1 e))),
              (text_eq_iff (get r.header "Sec-Fetch-Site") (codes "cross-site")).0 (ground arith),
            ))
      | inr fine ↦
          rw (fine, handle_sign_out)
            (inr (
              (if is_empty rd then codes "/" else rd),
              refl,
              local,
              read_tokens-clear_tokens cfg 0 jar,
            ))
    ]
  where
    local :
        let rd = sanitize_redirect (get r.query "rd") in
        IsSlashPath (if is_empty rd then codes "/" else rd)
    local = elim (sanitize_redirect_iff (get r.query "rd")) [
      | inr (e, _) ↦ rw e refl
      | inl (e, path) ↦ rw e (slash_or_root (get r.query "rd") path)
    ]
