-- ===== src/Web/Authorize/Post/Checks.antt =====
-- When the checks of the answer to a consent page hold: the origin and the user.
use oidc_proxy.Base.{
  ℕ, ◌≡◌, ◌↔◌, inl, inr, refl, ap, ◌∙◌, sym, true, false, [], ◌∷◌, ◌++◌, Text, arith, codes,
  text_eq, text_eq_iff, is_empty, Bool-cases, ⊎-cases,
}
use mathlib.Core.Path.{subst}
use oidc_proxy.Http.{get, Request}
use oidc_proxy.Utils.{forwarded_proto, forwarded_host}
use oidc_proxy.Mcpauth.Claims.{AuthReqClaims}
use oidc_proxy.Web.Handlers.{expected_origin, same_origin}
use oidc_proxy.Web.Authorize.{
  Server, VerifiedId, same_subject, verify_entra_cookie, reauthenticate, reconstruct_authorize_url,
}
use oidc_proxy.Web.Authorize.Browser.{IsSignedIn, verify_entra_cookie_iff}

starts_filled : (p q : Text) → is_empty (p ++ codes "://" ++ q) ≡ false
unfolding codes
starts_filled [] q = refl
starts_filled (b ∷ p) q = refl

-- The origin check holds exactly for requests from the proxy's own origin.
pub same_origin_iff :
    (r : Request) → (same_origin r ≡ true) ↔ (get r.header "Origin" ≡ expected_origin r)
unfolding same_origin expected_origin
same_origin_iff r = (
  λ h. elim (Bool-cases (is_empty (get r.header "Origin"))) [
    | inl empty ↦ absurd (ground arith)
    | inr filled ↦ (text_eq_iff _ _).0 (ground arith)
  ],
  λ e.
      let filled : is_empty (get r.header "Origin") ≡ false =
        rw e (starts_filled (forwarded_proto r) (forwarded_host r)) in
      rw (filled, same_origin) ((text_eq_iff _ _).1 e),
)

module _ (S : Type 0) (s : Server S) (now : ℕ) (r : Request) where
  -- The user is found exactly when the request is signed in as the user of the consent blob.
  pub reauthenticate_iff :
      (req : AuthReqClaims) (session : S) (id_tok : VerifiedId)
      → ((reauthenticate S s now r req session).1 ≡ inr id_tok)
        ↔ (IsSignedIn S s now r session id_tok × (id_tok.subject ≡ req.claims.subject))
  unfolding reauthenticate same_subject
  reauthenticate_iff req session id_tok =
      let signed_in = verify_entra_cookie_iff S s now r (reconstruct_authorize_url req) session in
      elim (⊎-cases (verify_entra_cookie S s now r (reconstruct_authorize_url req) session).1) [
        | inl (response, out) ↦
            (λ h. absurd (ground arith), λ (p, _). absurd (ground (arith, (signed_in id_tok).1 p)))
        | inr (got, known) ↦ elim (Bool-cases (text_eq got.subject req.claims.subject)) [
          | inr other ↦ (
            λ h. absurd (ground arith),
            λ (p, same).
                let is_got : id_tok ≡ got = ground (arith, (signed_in id_tok).1 p) in
                absurd (
                  ground (
                    arith,
                    (text_eq_iff got.subject req.claims.subject).1
                        (sym (ap (λ (i : VerifiedId). i.subject) is_got) ∙ same),
                  )),
          )
          | inl same ↦
              rw (known, same, reauthenticate)
                (
                  λ h.
                      let is_got : got ≡ id_tok = ground arith in
                      (
                        (signed_in id_tok).0 (known ∙ ap inr is_got),
                        subst (λ (i : VerifiedId). i.subject ≡ req.claims.subject) is_got
                            ((text_eq_iff got.subject req.claims.subject).0 same),
                      ),
                  λ (p, _).
                      let is_got : got ≡ id_tok = ground (arith, (signed_in id_tok).1 p) in
                      ap inr is_got,
                )
        ]
      ]
