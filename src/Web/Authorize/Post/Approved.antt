-- ===== src/Web/Authorize/Post/Approved.antt =====
-- When the answer to a consent page mints a code, and for whom.
use oidc_proxy.Base.{
  ℕ, ◌+◌, ◌≡◌, ◌≢◌, ◌↔◌, inl, inr, refl, ap, ◌∙◌, sym, Option, none, some, Text, arith, codes,
  text_eq, text_eq_iff, Bool-cases, ok, Result-cases, ⊎-cases,
}
use mathlib.Core.Path.{subst}
use oidc_proxy.Http.{Values, get, Request}
use oidc_proxy.TtlCache.{TtlCache}
use oidc_proxy.Mcpauth.Jose.{Jose}
use oidc_proxy.Mcpauth.Claims.{AuthReqClaims}
use oidc_proxy.Mcpauth.Artifacts.{mint_code, verify_auth_req}
use oidc_proxy.Web.Access.{IsAdmitted, user_allowed, user_allowed_iff}
use oidc_proxy.Web.Response.{Response}
use oidc_proxy.Web.Handlers.{expected_origin, same_origin}
use oidc_proxy.Web.Authorize.{Server, AuthorizeState, VerifiedId, deliver_code, reauthenticate}
use oidc_proxy.Web.Authorize.Browser.{IsSignedIn, signed_in_email}
use oidc_proxy.Web.Authorize.Post.{
  mint_and_deliver, authorize_form, answer_consent, verify_consent, handle_authorize_post,
}
use oidc_proxy.Web.Authorize.Post.Checks.{same_origin_iff, reauthenticate_iff}

module _ (c : TtlCache) (j : Jose) (rand : ℕ → Text) (S : Type 0) (s : Server S) (now : ℕ)
    (r : Request) where
  -- The answer to a consent page for which a code is minted: by whom, and for which claims.
  pub record Approves (st : AuthorizeState c S) (f : Values) (req : AuthReqClaims) : Type 0 where
    pub own_origin : get r.header "Origin" ≡ expected_origin r
    pub posted : r.post_form ≡ some f
    pub opened : verify_auth_req j s.auth_server now (get f "authreq") ≡ ok req
    pub nonce : get f "csrf" ≡ req.csrf
    pub approved : get f "action" ≡ codes "approve"
    pub id_tok : VerifiedId
    pub is_signed_in : IsSignedIn S s now r st.session id_tok
    pub same_user : id_tok.subject ≡ req.claims.subject
    pub admitted : IsAdmitted s.policy id_tok.email

  -- What a step of the handler answers, given when it mints a code, and for which claims.
  data Outcome (st st' : AuthorizeState c S) (response : Response) (P : AuthReqClaims → Type 0)
      : Type 0 where
    minted :
        (req : AuthReqClaims)
        → P req
        → st'.draws ≡ st.draws + 1
        → ((code : Text)
            → (mint_code j rand s.auth_server now st.draws req).1 ≡ ok code
            → response ≡ deliver_code s.auth_server req code)
        → Outcome st st' response P
    refused : ((req : AuthReqClaims) → ¬ P req) → st'.draws ≡ st.draws → Outcome st st' response P

  -- An outcome for other claims: as many states and more or less demanded.
  retell :
      {st st' : AuthorizeState c S} {response : Response} {P Q : AuthReqClaims → Type 0}
      → ((req : AuthReqClaims) → P req ↔ Q req)
      → Outcome st st' response P
      → Outcome st st' response Q
  retell same (minted req p drawn given) = minted req ((same req).0 p) drawn given
  retell same (refused none_such kept) = refused (λ req q. none_such req ((same req).1 q)) kept

  mint_outcome :
      (req : AuthReqClaims) (id_tok : VerifiedId) (st : AuthorizeState c S)
      → let (st', response) = mint_and_deliver c j rand S s now req id_tok st in
        Outcome st st' response (λ q. (q ≡ req) × IsAdmitted s.policy id_tok.email)
  unfolding mint_and_deliver mint_code
  mint_outcome req id_tok st = elim (Bool-cases (user_allowed s.policy id_tok.email)) [
    | inr out ↦
        rw (out, mint_and_deliver)
          (refused
            (λ q (_, p). absurd (ground (arith, (user_allowed_iff s.policy id_tok.email).1 p)))
            refl)
    | inl user ↦
        rw (user, mint_and_deliver)
          (minted req (refl, (user_allowed_iff s.policy id_tok.email).0 user) refl
            (λ code e. rw e refl))
  ]

  -- What the claims of a blob still need.
  record IsAnswered (f : Values) (session : S) (req : AuthReqClaims) : Type 0 where
    nonce : get f "csrf" ≡ req.csrf
    approved : get f "action" ≡ codes "approve"
    id_tok : VerifiedId
    is_signed_in : IsSignedIn S s now r session id_tok
    same_user : id_tok.subject ≡ req.claims.subject
    admitted : IsAdmitted s.policy id_tok.email

  -- The outcome of minting, for a state that differs in the verifier's state.
  from_session :
      (f : Values) (req : AuthReqClaims) (id_tok : VerifiedId) (st st' : AuthorizeState c S)
      {after : AuthorizeState c S} {response : Response}
      → st'.draws ≡ st.draws
      → get f "csrf" ≡ req.csrf
      → get f "action" ≡ codes "approve"
      → IsSignedIn S s now r st.session id_tok
      → id_tok.subject ≡ req.claims.subject
      → Outcome st' after response (λ q. (q ≡ req) × IsAdmitted s.policy id_tok.email)
      → Outcome st after response (λ q. (q ≡ req) × IsAnswered f st.session req)
  from_session f req id_tok st st' same nonce approved signed_in same_user
        (minted q (p, admitted) drawn given) =
      minted q
        (
          p,
          record {
            nonce = nonce;
            approved = approved;
            id_tok = id_tok;
            is_signed_in = signed_in;
            same_user = same_user;
            admitted = admitted;
          },
        )
        (rw same at drawn) (λ code e. given code (rw same e))
  from_session f req id_tok st st' same nonce approved signed_in same_user
        (refused none_such kept) =
      refused
        (λ q (p, answered). none_such q (
          p,
          subst (IsAdmitted s.policy) (signed_in_email S s now r answered.is_signed_in signed_in)
              answered.admitted,
        ))
        (kept ∙ same)

  answer_outcome :
      (f : Values) (req : AuthReqClaims) (st : AuthorizeState c S)
      → let (st', response) = answer_consent c j rand S s now r f req st in
        Outcome st st' response (λ q. (q ≡ req) × IsAnswered f st.session req)
  unfolding answer_consent
  answer_outcome f req st = elim (Bool-cases (text_eq (get f "csrf") req.csrf)) [
    | inr forged ↦
        rw (forged, answer_consent)
          (refused (λ q (_, p). absurd (ground (arith, (text_eq_iff _ _).1 p.nonce))) refl)
    | inl nonce ↦ elim (Bool-cases (text_eq (get f "action") (codes "approve"))) [
      | inr denied ↦
          rw (nonce, denied, answer_consent)
            (refused (λ q (_, p). absurd (ground (arith, (text_eq_iff _ _).1 p.approved))) refl)
      | inl approved ↦ elim (⊎-cases (reauthenticate S s now r req st.session).1) [
        | inl (response, out) ↦
            rw (nonce, approved, out, answer_consent)
              (refused
                (λ q (_, p). absurd (
                  ground (
                    arith,
                    (reauthenticate_iff S s now r req st.session p.id_tok).1
                        (p.is_signed_in, p.same_user),
                  )))
                refl)
        | inr (id_tok, known) ↦
            let (signed_in, same) = (reauthenticate_iff S s now r req st.session id_tok).0 known in
            let st' : AuthorizeState c S = record st {
              session = (reauthenticate S s now r req st.session).0;
            } in
            rw (nonce, approved, known, answer_consent)
              (from_session f req id_tok st st' refl ((text_eq_iff _ _).0 nonce)
                ((text_eq_iff _ _).0 approved) signed_in same (mint_outcome req id_tok st'))
      ]
    ]
  ]

  same_claims :
      {f g : Values} {a b : AuthReqClaims}
      → g ≡ f
      → verify_auth_req j s.auth_server now (get f "authreq") ≡ ok a
      → verify_auth_req j s.auth_server now (get g "authreq") ≡ ok b
      → b ≡ a
  same_claims same p q = ground (arith, same, p, q)

  -- What is demanded of the blob's claims is what is demanded of the request.
  Approves-iff :
      (st : AuthorizeState c S) (f : Values) (req : AuthReqClaims)
      → get r.header "Origin" ≡ expected_origin r
      → r.post_form ≡ some f
      → verify_auth_req j s.auth_server now (get f "authreq") ≡ ok req
      → (q : AuthReqClaims)
      → ((q ≡ req) × IsAnswered f st.session req) ↔ ((g : Values) × Approves st g q)
  Approves-iff st f req own posted opened q = (
    λ (same, p).
        subst (λ q. (g : Values) × Approves st g q) (sym same)
          (
            f,
            record {
              own_origin = own;
              posted = posted;
              opened = opened;
              nonce = p.nonce;
              approved = p.approved;
              id_tok = p.id_tok;
              is_signed_in = p.is_signed_in;
              same_user = p.same_user;
              admitted = p.admitted;
            },
          ),
    λ (g, p).
        let same_form : g ≡ f = ground (arith, p.posted, posted) in
        let same : q ≡ req = same_claims same_form opened p.opened in
        (
          same,
          subst (λ k. IsAnswered f st.session k) same
              (subst (λ h. IsAnswered h st.session q) same_form
                (record {
                  nonce = p.nonce;
                  approved = p.approved;
                  id_tok = p.id_tok;
                  is_signed_in = p.is_signed_in;
                  same_user = p.same_user;
                  admitted = p.admitted;
                })),
        ),
  )

  form_outcome :
      (st : AuthorizeState c S) (form : Option Values)
      → get r.header "Origin" ≡ expected_origin r
      → r.post_form ≡ form
      → let (st', response) = authorize_form c j rand S s now r form st in
        Outcome st st' response (λ req. (f : Values) × Approves st f req)
  unfolding authorize_form verify_consent
  form_outcome st none own bad = refused (λ req (f, p). absurd (ground (arith, p.posted))) refl
  form_outcome st (some f) own posted =
      elim (Result-cases (verify_auth_req j s.auth_server now (get f "authreq"))) [
        | inr (e, bad) ↦
            rw (bad, authorize_form, verify_consent)
              (refused
                (λ req (g, p).
                  let same : g ≡ f = ground (arith, p.posted, posted) in
                  absurd (ground (arith, p.opened, same)))
                refl)
        | inl (req, opened) ↦
            rw (opened, authorize_form, verify_consent)
              (retell (Approves-iff st f req own posted opened) (answer_outcome f req st))
      ]

  handle_outcome :
      (st : AuthorizeState c S)
      → let (st', response) = handle_authorize_post c j rand S s now r st in
        Outcome st st' response (λ req. (f : Values) × Approves st f req)
  unfolding handle_authorize_post
  handle_outcome st = elim (Bool-cases (same_origin r)) [
    | inr foreign ↦
        rw (foreign, handle_authorize_post)
          (refused (λ req (f, p). absurd (ground (arith, (same_origin_iff r).1 p.own_origin))) refl)
    | inl own ↦
        rw (own, handle_authorize_post)
          (form_outcome st r.post_form ((same_origin_iff r).0 own) refl)
  ]

  Approves-same :
      {st : AuthorizeState c S} {f g : Values} {a b : AuthReqClaims}
      → Approves st f a
      → Approves st g b
      → b ≡ a
  Approves-same p q = same_claims (ground (arith, p.posted, q.posted)) p.opened q.opened

  -- POST /oauth2/authorize draws the identifier of a code exactly for a request from the proxy's own
  -- origin whose blob is an authorization request that is in time, with the nonce of the blob, the
  -- approval of the user, and an ID token cookie that the verifier accepts, for the user for whom the
  -- blob was sealed and whom the policy admits.
  pub code_minted_iff :
      (st : AuthorizeState c S)
      → ((handle_authorize_post c j rand S s now r st).0.draws ≢ st.draws)
        ↔ ((req : AuthReqClaims) × (f : Values) × Approves st f req)
  code_minted_iff st = elim (handle_outcome st) [
    | minted req p drawn given ↦ (λ h. (req, p.0, p.1), λ q e. omega (arith, drawn, e))
    | refused none_such kept ↦ (λ h. absurd (h kept), λ (req, f, p). absurd (none_such req (f, p)))
  ]

  -- A request that mints a code for the claims of its blob is answered with the redirect that delivers
  -- the code, provided that the code can be sealed.
  pub code_delivered :
      (st : AuthorizeState c S) (f : Values) (req : AuthReqClaims) (code : Text)
      → Approves st f req
      → (mint_code j rand s.auth_server now st.draws req).1 ≡ ok code
      → (handle_authorize_post c j rand S s now r st).1 ≡ deliver_code s.auth_server req code
  code_delivered st f req code p sealed = elim (handle_outcome st) [
    | minted q (g, r) drawn given ↦
        let same : q ≡ req = Approves-same p r in
        given code (rw same sealed) ∙ ap (λ k. deliver_code s.auth_server k code) same
    | refused none_such kept ↦ absurd (none_such req (f, p))
  ]
