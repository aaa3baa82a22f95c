-- ===== src/Web/Token/Redeem.antt =====
-- When the token endpoint grants tokens for a code, and when for a refresh token.
use oidc_proxy.Base.{
  ℕ, ◌≡◌, ◌≢◌, ◌↔◌, ◌⊎◌, inl, inr, refl, ap, true, false, not, ◌&&◌, [], Text, arith, text_eq,
  text_eq_iff, text_eq_refl, is_empty, is_empty_sound, Bool-cases, ok, Result-cases,
}
use mathlib.Core.Path.{subst}
use oidc_proxy.Http.{Values, get}
use oidc_proxy.TtlCache.{TtlCache}
use oidc_proxy.Mcpauth.Jose.{Jose}
use oidc_proxy.Mcpauth.AuthServer.{AuthServer}
use oidc_proxy.Mcpauth.Claims.{CodeClaims, RefreshClaims}
use oidc_proxy.Mcpauth.Artifacts.{
  GrantInput, TokenGrant, issue_grant, verify_code, verify_refresh_token,
}
use oidc_proxy.Mcpauth.Pkce.{verify_pkce}
use oidc_proxy.Mcpauth.ReplayGuard.{seen_before}
use oidc_proxy.Web.Response.{token_grant, write_error, write_token_grant}
use oidc_proxy.Web.Token.{
  TokenState, input_of_code, input_of_refresh, grant_for, redeem_code, token_authorization_code,
  token_refresh,
}

-- The Boolean checks hold exactly when the texts agree.
verify_pkce_iff :
    (s256 : Text → Text) (verifier challenge : Text)
    → (verify_pkce s256 verifier challenge ≡ true)
      ↔ ((verifier ≢ []) × (challenge ≢ []) × (s256 verifier ≡ challenge))
unfolding verify_pkce
verify_pkce_iff s256 verifier challenge = elim (Bool-cases (is_empty verifier)) [
  | inl e ↦ (λ h. absurd (ground arith), λ (p, _, _). absurd (p (is_empty_sound verifier e)))
  | inr v ↦ elim (Bool-cases (is_empty challenge)) [
    | inl e ↦ (λ h. absurd (ground arith), λ (_, p, _). absurd (p (is_empty_sound challenge e)))
    | inr w ↦ (
      λ h. (
        λ e. absurd (ground (arith, ap is_empty e)),
        λ e. absurd (ground (arith, ap is_empty e)),
        (text_eq_iff (s256 verifier) challenge).0 (ground arith),
      ),
      λ (_, _, e). rw (v, w, e, text_eq_refl challenge) refl,
    )
  ]
]

module _ (c : TtlCache) (j : Jose) (rand : ℕ → Text) (s256 : Text → Text) (srv : AuthServer)
    (now : ℕ) (f : Values) (st : TokenState c) where
  grant_for_iff :
      (input : GrantInput) (s : TokenState c) (g : TokenGrant)
      → ((grant_for c j rand s256 srv now input s).1.body ≡ token_grant g)
        ↔ ((issue_grant j rand srv now s.draws input).1 ≡ ok g)
  unfolding grant_for write_error write_token_grant
  grant_for_iff input s g = elim (Result-cases (issue_grant j rand srv now s.draws input).1) [
    | inl (g', p) ↦ (λ h. ground arith, λ h. ground arith)
    | inr (e, p) ↦ (λ h. absurd (ground arith), λ h. absurd (ground arith))
  ]

  -- A code that the request redeems.
  pub record Redeemed (code : CodeClaims) (g : TokenGrant) : Type 0 where
    pub verified : verify_code j srv now (get f "code") ≡ ok code
    pub unseen : (seen_before c now code.claims.id srv.code_ttl st.guard).1 ≡ false
    pub same_client : get f "client_id" ≡ code.client_id
    pub same_redirect : get f "redirect_uri" ≡ code.redirect_uri
    pub proved : verify_pkce s256 (get f "code_verifier") code.code_challenge ≡ true
    pub granted : (issue_grant j rand srv now st.draws (input_of_code code)).1 ≡ ok g

  redeem_code_iff :
      (code : CodeClaims) (s : TokenState c) (g : TokenGrant)
      → ((redeem_code c j rand s256 srv now f code s).1.body ≡ token_grant g) ↔ (
          (get f "client_id" ≡ code.client_id)
          × (get f "redirect_uri" ≡ code.redirect_uri)
          × (verify_pkce s256 (get f "code_verifier") code.code_challenge ≡ true)
          × ((issue_grant j rand srv now s.draws (input_of_code code)).1 ≡ ok g))
  unfolding redeem_code write_error
  redeem_code_iff code s g = elim (Bool-cases (text_eq (get f "client_id") code.client_id)) [
    | inr differ ↦ (
      λ h. absurd (ground arith),
      λ (p, _, _, _). absurd (ground (arith, (text_eq_iff (get f "client_id") code.client_id).1 p)),
    )
    | inl client ↦ elim (Bool-cases (text_eq (get f "redirect_uri") code.redirect_uri)) [
      | inr differ ↦ (
        λ h. absurd (ground arith),
        λ (_, p, _, _).
            absurd (ground (arith, (text_eq_iff (get f "redirect_uri") code.redirect_uri).1 p)),
      )
      | inl redirect ↦
          elim (Bool-cases (verify_pkce s256 (get f "code_verifier") code.code_challenge)) [
            | inr differ ↦ (λ h. absurd (ground arith), λ (_, _, p, _). absurd (ground arith))
            | inl proved ↦
                rw (client, redirect, proved)
                  (
                    λ h. (
                      (text_eq_iff (get f "client_id") code.client_id).0 client,
                      (text_eq_iff (get f "redirect_uri") code.redirect_uri).0 redirect,
                      refl,
                      (grant_for_iff (input_of_code code) s g).0 h,
                    ),
                    λ (_, _, _, p). (grant_for_iff (input_of_code code) s g).1 p,
                  )
          ]
    ]
  ]

  -- The authorization-code branch answers with tokens exactly when the presented code decrypts to
  -- the claims of a code that is in time, the guard has not seen its id, the client_id and the
  -- redirect_uri of the request are those of the code, the verifier's digest is its challenge, and
  -- the tokens are what `IssueGrant` makes for the user, client, resource and scope of the code.
  pub code_grant_iff :
      (g : TokenGrant)
      → ((token_authorization_code c j rand s256 srv now f st).1.body ≡ token_grant g)
        ↔ ((code : CodeClaims) × Redeemed code g)
  unfolding token_authorization_code write_error
  code_grant_iff g = elim (Result-cases (verify_code j srv now (get f "code"))) [
    | inr (e, bad) ↦ (λ h. absurd (ground arith), λ (code, r). absurd (ground (arith, r.verified)))
    | inl (code, good) ↦
        elim (Bool-cases (seen_before c now code.claims.id srv.code_ttl st.guard).1) [
          | inl seen ↦ (
            λ h. absurd (ground arith),
            λ (other, r). absurd (ground (arith, r.verified, r.unseen)),
          )
          | inr unseen ↦
              let st' : TokenState c = record st {
                guard = (seen_before c now code.claims.id srv.code_ttl st.guard).0;
              } in
              rw (good, unseen, token_authorization_code)
                (
                  λ h.
                      let (p, q, v, i) = (redeem_code_iff code st' g).0 h in
                      (
                        code,
                        record {
                          verified = good;
                          unseen = unseen;
                          same_client = p;
                          same_redirect = q;
                          proved = v;
                          granted = i;
                        },
                      ),
                  λ (other, r).
                      let same : other ≡ code = ground (arith, r.verified) in
                      (redeem_code_iff code st' g).1 (
                        subst
                          (λ k.
                            (get f "client_id" ≡ k.client_id)
                            × (get f "redirect_uri" ≡ k.redirect_uri)
                            × (verify_pkce s256 (get f "code_verifier") k.code_challenge ≡ true)
                            × ((issue_grant j rand srv now st.draws (input_of_code k)).1 ≡ ok g))
                          same (r.same_client, r.same_redirect, r.proved, r.granted)),
                )
        ]
  ]

  -- A grant for the user, client, resource, scope and family of a refresh token.
  pub record IsRotationOf (refresh : RefreshClaims) (input : GrantInput) : Type 0 where
    pub sub : input.sub ≡ refresh.claims.subject
    pub email : input.email ≡ refresh.email
    pub client_id : input.client_id ≡ refresh.client_id
    pub resource : input.resource ≡ refresh.resource
    pub scope : input.scope ≡ refresh.scope
    pub family : input.family ≡ refresh.family

  input-IsRotationOf :
      (refresh : RefreshClaims) (input : GrantInput)
      → IsRotationOf refresh input
      → input ≡ input_of_refresh refresh
  unfolding input_of_refresh
  input-IsRotationOf refresh input p = λ i. record {
    sub = p.sub i;
    email = p.email i;
    client_id = p.client_id i;
    resource = p.resource i;
    scope = p.scope i;
    family = p.family i;
  }

  input_of_refresh-IsRotationOf :
      (refresh : RefreshClaims) → IsRotationOf refresh (input_of_refresh refresh)
  unfolding input_of_refresh
  input_of_refresh-IsRotationOf refresh = record {
    sub = refl;
    email = refl;
    client_id = refl;
    resource = refl;
    scope = refl;
    family = refl;
  }

  -- A refresh token that the request rotates.
  pub record Rotated (refresh : RefreshClaims) (g : TokenGrant) : Type 0 where
    pub verified : verify_refresh_token j srv now (get f "refresh_token") ≡ ok refresh
    pub unseen : (seen_before c now refresh.claims.id srv.refresh_ttl st.guard).1 ≡ false
    pub client : (get f "client_id" ≡ []) ⊎ (get f "client_id" ≡ refresh.client_id)
    pub input : GrantInput
    pub as_held : IsRotationOf refresh input
    pub granted : (issue_grant j rand srv now st.draws input).1 ≡ ok g

  -- The test that a client_id, if one is given, is the token's.
  client_given_iff :
      (given want : Text)
      → ((not (is_empty given) && not (text_eq given want)) ≡ false)
        ↔ ((given ≡ []) ⊎ (given ≡ want))
  client_given_iff given want = elim (Bool-cases (is_empty given)) [
    | inl e ↦ (λ h. inl (is_empty_sound given e), λ h. rw e refl)
    | inr filled ↦ elim (Bool-cases (text_eq given want)) [
      | inl same ↦ (λ h. inr ((text_eq_iff given want).0 same), λ h. rw (filled, same) refl)
      | inr other ↦ (
        λ h. absurd (ground arith),
        λ h. elim h [
          | inl e ↦ absurd (ground (arith, ap is_empty e))
          | inr e ↦ absurd (ground (arith, (text_eq_iff given want).1 e))
        ],
      )
    ]
  ]

  -- The refresh branch answers with tokens exactly when the presented refresh token verifies, a
  -- client_id of the request is absent or the token's, the guard has not seen the token's id, and
  -- the tokens are what `IssueGrant` makes for the user, client, resource, scope and family of the
  -- token.
  pub refresh_grant_iff :
      (g : TokenGrant)
      → ((token_refresh c j rand s256 srv now f st).1.body ≡ token_grant g)
        ↔ ((refresh : RefreshClaims) × Rotated refresh g)
  unfolding token_refresh write_error
  refresh_grant_iff g =
      elim (Result-cases (verify_refresh_token j srv now (get f "refresh_token"))) [
        | inr (e, bad) ↦ (λ h. absurd (ground arith), λ (t, r). absurd (ground (arith, r.verified)))
        | inl (refresh, good) ↦
            let cid = get f "client_id" in
            elim (Bool-cases (not (is_empty cid) && not (text_eq cid refresh.client_id))) [
              | inl foreign ↦ (
                λ h. absurd (ground arith),
                λ (t, r).
                    let same : t ≡ refresh = ground (arith, r.verified) in
                    absurd (
                      ground (
                        arith,
                        (client_given_iff cid refresh.client_id).1
                            (subst (λ k. (cid ≡ []) ⊎ (cid ≡ k.client_id)) same r.client),
                      )),
              )
              | inr own ↦
                  elim (Bool-cases
                    (seen_before c now refresh.claims.id srv.refresh_ttl st.guard).1) [
                      | inl seen ↦ (
                        λ h. absurd (ground arith),
                        λ (t, r). absurd (ground (arith, r.verified, r.unseen)),
                      )
                      | inr unseen ↦
                          let st' : TokenState c = record st {
                            guard =
                                (seen_before c now refresh.claims.id srv.refresh_ttl st.guard).0;
                          } in
                          rw (good, own, unseen, token_refresh)
                            (
                              λ h. (
                                refresh,
                                record {
                                  verified = good;
                                  unseen = unseen;
                                  client = (client_given_iff cid refresh.client_id).0 own;
                                  input = input_of_refresh refresh;
                                  as_held = input_of_refresh-IsRotationOf refresh;
                                  granted = (grant_for_iff (input_of_refresh refresh) st' g).0 h;
                                },
                              ),
                              λ (t, r).
                                  let same : t ≡ refresh = ground (arith, r.verified) in
                                  (grant_for_iff (input_of_refresh refresh) st' g).1 (
                                    subst
                                      (λ k.
                                        (issue_grant j rand srv now st.draws (input_of_refresh k)).1
                                        ≡ ok g)
                                      same
                                      (subst (λ i. (issue_grant j rand srv now st.draws i).1 ≡ ok g)
                                        (input-IsRotationOf t r.input r.as_held) r.granted)),
                            )
                    ]
            ]
      ]
