-- ===== src/Web/Register/Registered.antt =====
-- Which clients are registered.
use oidc_proxy.Base.{
  ℕ, ◌≡◌, ◌≢◌, ◌↔◌, ◌⊎◌, inl, inr, refl, ap, ◌∙◌, sym, true, false, not, ◌&&◌, none, some, List, [],
  ◌∷◌, Text, Option, arith, codes, text_eq, text_eq_iff, is_empty, is_empty_sound, Bool-cases,
  Option-cases, All, Message, ok, Result-cases,
}
use mathlib.Core.Path.{subst}
use oidc_proxy.Http.{Request, DcrRequest}
use oidc_proxy.Utils.{client_ip}
use oidc_proxy.TtlCache.{TtlCache}
use oidc_proxy.Mcpauth.Jose.{Jose}
use oidc_proxy.Mcpauth.AuthServer.{AuthServer}
use oidc_proxy.Mcpauth.Artifacts.{mint_client_id}
use oidc_proxy.Mcpauth.RedirectUri.{validate_redirect_uri}
use oidc_proxy.Web.RateLimiter.{allow}
use oidc_proxy.Web.Response.{
  DcrResponse, registration, write_error, write_error_text, write_registration,
}
use oidc_proxy.Web.Register.{
  RegisterState, first_invalid, registration_of, register_client, register_uris, register_body,
  handle_register,
}

abbrev pub IsValidUri : Text → Type 0
IsValidUri uri = validate_redirect_uri uri ≡ none

first_invalid_iff : (uris : List Text) → (first_invalid uris ≡ none) ↔ All IsValidUri uris
unfolding first_invalid
first_invalid_iff [] = (λ h. tt, λ h. refl)
first_invalid_iff (uri ∷ uris) = elim (Option-cases (validate_redirect_uri uri)) [
  | inl valid ↦
      let rest = first_invalid_iff uris in
      rw (valid, first_invalid) (λ h. (refl, rest.0 h), λ (_, h). rest.1 h)
  | inr (e, bad) ↦ (λ h. absurd (ground arith), λ (h, _). absurd (ground arith))
]

-- An absent authentication method, or "none".
method_iff :
    (m : Text)
    → ((not (is_empty m) && not (text_eq m (codes "none"))) ≡ false)
      ↔ ((m ≡ []) ⊎ (m ≡ codes "none"))
method_iff m = elim (Bool-cases (is_empty m)) [
  | inl e ↦ (λ h. inl (is_empty_sound m e), λ h. rw e refl)
  | inr filled ↦ elim (Bool-cases (text_eq m (codes "none"))) [
    | inl same ↦ (λ h. inr ((text_eq_iff m (codes "none")).0 same), λ h. rw (filled, same) refl)
    | inr other ↦ (
      λ h. absurd (ground arith),
      λ h. elim h [
        | inl e ↦ absurd (ground (arith, ap is_empty e))
        | inr e ↦ absurd (ground (arith, (text_eq_iff m (codes "none")).1 e))
      ],
    )
  ]
]

module _ (c : TtlCache) (j : Jose) (rand : ℕ → Text) (error_text : Message → Text)
    (srv : AuthServer) (now : ℕ) where
  -- A request body that is registered with an answer.
  pub record IsRegistered (req : DcrRequest) (draws : ℕ) (d : DcrResponse) : Type 0 where
    pub public_client :
        (req.token_endpoint_auth_method ≡ []) ⊎ (req.token_endpoint_auth_method ≡ codes "none")
    pub given : req.redirect_uris ≢ []
    pub valid : All IsValidUri req.redirect_uris
    pub client_id : Text
    pub minted :
        (mint_client_id j rand srv now draws
          (record { redirect_uris = req.redirect_uris; client_name = req.client_name })).1
        ≡ ok client_id
    pub answered : d ≡ registration_of req now client_id

  registration_eq : {d e : DcrResponse} → registration d ≡ registration e → d ≡ e
  registration_eq h = ground arith

  register_client_iff :
      (req : DcrRequest) (st : RegisterState c) (d : DcrResponse)
      → ((register_client c j rand error_text srv now req st).1.body ≡ registration d) ↔ (
          (client_id : Text) × ((mint_client_id j rand srv now st.draws
              (record { redirect_uris = req.redirect_uris; client_name = req.client_name })).1
            ≡ ok client_id)
          × (d ≡ registration_of req now client_id))
  unfolding register_client write_error write_registration
  register_client_iff req st d =
      elim (Result-cases
        (mint_client_id j rand srv now st.draws
          (record { redirect_uris = req.redirect_uris; client_name = req.client_name })).1) [
            | inr (e, bad) ↦ (λ h. absurd (ground arith), λ (i, m, a). absurd (ground arith))
            | inl (client_id, good) ↦
                rw (good, register_client)
                  (
                    λ h. (client_id, refl, registration_eq (sym h)),
                    λ (i, m, a).
                        let same : client_id ≡ i = ground arith in
                        ap registration (ap (registration_of req now) same ∙ sym a),
                  )
          ]

  register_uris_iff :
      (req : DcrRequest) (st : RegisterState c) (d : DcrResponse)
      → ((register_uris c j rand error_text srv now req st).1.body ≡ registration d) ↔ (
          (req.redirect_uris ≢ [])
          × All IsValidUri req.redirect_uris
          × ((register_client c j rand error_text srv now req st).1.body ≡ registration d))
  unfolding register_uris write_error write_error_text
  register_uris_iff req st d = elim (Bool-cases (is_empty req.redirect_uris)) [
    | inl empty ↦ (
      λ h. absurd (ground arith),
      λ (given, _, _). absurd (given (is_empty_sound req.redirect_uris empty)),
    )
    | inr given ↦ elim (Option-cases (first_invalid req.redirect_uris)) [
      | inr (e, bad) ↦ (
        λ h. absurd (ground arith),
        λ (_, valid, _). absurd (ground (arith, (first_invalid_iff req.redirect_uris).1 valid)),
      )
      | inl fine ↦
          rw (given, fine, register_uris)
            (
              λ h. (
                λ e. absurd (ground (arith, ap is_empty e)),
                (first_invalid_iff req.redirect_uris).0 fine,
                h,
              ),
              λ (_, _, h). h,
            )
    ]
  ]

  register_body_iff :
      (body : Option DcrRequest) (st : RegisterState c) (d : DcrResponse)
      → ((register_body c j rand error_text srv now body st).1.body ≡ registration d)
        ↔ ((req : DcrRequest) × (body ≡ some req) × IsRegistered req st.draws d)
  unfolding register_body write_error
  register_body_iff none st d = (λ h. absurd (ground arith), λ (req, h, _). absurd (ground arith))
  register_body_iff (some req) st d =
      let m = req.token_endpoint_auth_method in
      elim (Bool-cases (not (is_empty m) && not (text_eq m (codes "none")))) [
        | inl secret ↦ (
          λ h. absurd (ground arith),
          λ (q, same, p).
              let equal : req ≡ q = ground arith in
              absurd (ground (arith, (method_iff m).1 (public_of equal p))),
        )
        | inr fits ↦
            rw (fits, register_body)
              (
                λ h.
                    let (given, valid, made) = (register_uris_iff req st d).0 h in
                    let (client_id, minted, answered) = (register_client_iff req st d).0 made in
                    (
                      req,
                      refl,
                      record {
                        public_client = (method_iff m).0 fits;
                        given = given;
                        valid = valid;
                        client_id = client_id;
                        minted = minted;
                        answered = answered;
                      },
                    ),
                λ (q, same, p).
                    let equal : q ≡ req = ground arith in
                    let p = subst (λ k. IsRegistered k st.draws d) equal p in
                    (register_uris_iff req st d).1 (
                      p.given,
                      p.valid,
                      (register_client_iff req st d).1 (p.client_id, p.minted, p.answered),
                    ),
              )
      ]
    where
      public_of :
          {q : DcrRequest}
          → req ≡ q
          → IsRegistered q st.draws d
          → (req.token_endpoint_auth_method ≡ []) ⊎ (req.token_endpoint_auth_method ≡ codes "none")
      public_of equal p = (subst (λ k. IsRegistered k st.draws d) (sym equal) p).public_client

  -- The answer to POST /oauth2/register is the registration `d` exactly for a request that the limiter
  -- lets through and whose body asks for no client secret and names redirect URIs, all of which are
  -- valid; `d` holds the client_id that is minted for these redirect URIs and the name, and repeats the
  -- body with the defaults where it leaves out the grant types, response types or application type.
  pub registration_iff :
      (r : Request) (st : RegisterState c) (d : DcrResponse)
      → ((handle_register c j rand error_text srv now r st).1.body ≡ registration d) ↔ (
          ((allow c now (client_ip r) st.limiter).1 ≡ true)
          × ((req : DcrRequest) × (r.register_body ≡ some req) × IsRegistered req st.draws d))
  unfolding handle_register write_error
  registration_iff r st d = elim (Bool-cases (allow c now (client_ip r) st.limiter).1) [
    | inr limited ↦ (λ h. absurd (ground arith), λ (h, _). absurd (ground arith))
    | inl free ↦
        let st' : RegisterState c = record st {
          limiter = (allow c now (client_ip r) st.limiter).0;
        } in
        let judged = register_body_iff r.register_body st' d in
        rw (free, handle_register) (λ h. (refl, judged.0 h), λ (_, h). judged.1 h)
  ]
