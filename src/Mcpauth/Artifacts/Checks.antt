-- ===== src/Mcpauth/Artifacts/Checks.antt =====
-- What a verified artifact has passed.
use oidc_proxy.Base.{
  Result-cases, ℕ, ◌+◌, ◌*◌, ◌≤◌, ◌≡◌, ◌≢◌, inl, inr, refl, Option, none, some, [], Text, arith, In,
  text_eq, text_eq_iff, is_empty, Bool-cases, if◌then◌else◌, Result, ok, err, not,
}
use oidc_proxy.Mcpauth.Jose.{
  Registered, Object, Expected, IsCurrent, ClaimsError, expired, invalid, second, Jose, JoseLaws,
}
use oidc_proxy.Mcpauth.Claims.{
  use_client, use_auth_req, use_code, use_access, use_refresh, ClientClaims, AuthReqClaims,
  CodeClaims, AccessClaims, RefreshClaims, client_of_object, auth_req_of_object, code_of_object,
  access_of_object, refresh_of_object,
}
use oidc_proxy.Mcpauth.AuthServer.{AuthServer}
use oidc_proxy.Mcpauth.Artifacts.{
  parse_signed, parse_encrypted, ◌>>=◌, validated, validated_expiry, at_now, for_resource,
  clock_skew_leeway, verify_client_id, verify_auth_req, verify_code, verify_access_token,
  verify_refresh_token, wrong_use,
}

-- Both steps of a bind that succeeds have succeeded.
>>=-ok {κ ℓ} :
    {B : Type κ} {A : Type ℓ} {f : A → Result B} (m : Result A) (b : B)
    → (m >>= f) ≡ ok b
    → (a : A) × (f a ≡ ok b) × (m ≡ ok a)
>>=-ok m b h = elim (Result-cases m) [
  | inl (a, done) ↦ (a, ground arith, done)
  | inr (e, failed) ↦ absurd (ground arith)
]

validated-ok {ℓ} :
    (j : Jose) {A : Type ℓ} {a b : A} (o : Option ClaimsError)
    → validated j a o ≡ ok b
    → (o ≡ none) × (a ≡ b)
validated-ok j none h = (refl, ground arith)
validated-ok j (some expired) h = absurd (ground arith)
validated-ok j (some invalid) h = absurd (ground arith)

-- The times of an artifact without a leeway, or with one.
pub record IsInTime (c : Registered) (now leeway : ℕ) : Type 0 where
  pub started : (t : ℕ) → c.not_before ≡ some t → t * second ≤ now + leeway
  pub running : (t : ℕ) → c.expiry ≡ some t → now ≤ t * second + leeway

-- A check of the token use that has passed.
use_checked {ℓ} :
    {A : Type ℓ} {b : A} (got want : Text) (r : Result A)
    → (if not (text_eq got want) then err (wrong_use got want) else r) ≡ ok b
    → (got ≡ want) × (r ≡ ok b)
use_checked got want r h = elim (Bool-cases (text_eq got want)) [
  | inl same ↦ ((text_eq_iff got want).0 same, rw same at h)
  | inr other ↦ absurd (ground arith)
]

IsCurrent-IsInTime :
    {c : Registered} {e : Expected} {leeway : ℕ} → IsCurrent c e leeway → IsInTime c e.time leeway
IsCurrent-IsInTime k = record { started = k.started; running = k.running }

validated_expiry-ok {ℓ} :
    (j : Jose) {A : Type ℓ} {a b : A} (o : Option ClaimsError)
    → validated_expiry j a o ≡ ok b
    → (o ≡ none) × (a ≡ b)
validated_expiry-ok j none h = (refl, ground arith)
validated_expiry-ok j (some expired) h = absurd (ground arith)
validated_expiry-ok j (some invalid) h = absurd (ground arith)

module _ (j : Jose) (l : JoseLaws j) (srv : AuthServer) (now : ℕ) (token : Text) where
  -- A verified access token was signed with an accepted key, is of its kind, was issued by this
  -- server for its resource, and is in time up to the leeway.
  pub record AccessChecks (c : AccessClaims) : Type 0 where
    pub object : Object
    pub signed : parse_signed j srv.keys token ≡ ok object
    pub decoded : access_of_object object ≡ c
    pub of_kind : object.token_use ≡ use_access
    pub issued : object.claims.issuer ≡ srv.issuer
    pub meant_for : In srv.resource object.claims.audience
    pub in_time : IsInTime object.claims now clock_skew_leeway

  -- With a configured issuer, every access token that `VerifyAccessToken` accepts is signed with an
  -- accepted key, has the token use "access", this server's issuer and its resource among the
  -- audience, and is in time up to a leeway of 60 seconds.
  pub verify_access_token_sound :
      (c : AccessClaims)
      → srv.issuer ≢ []
      → verify_access_token j srv now token ≡ ok c
      → AccessChecks c
  unfolding verify_access_token
  verify_access_token_sound c configured h =
      let (o, checked, parsed) = >>=-ok (parse_signed j srv.keys token) c h in
      let (same, passed) = use_checked o.token_use use_access _ checked in
      let (valid, decoded) = validated-ok j _ passed in
      let current = (l.validate_iff o.claims (for_resource j srv now) clock_skew_leeway).0 valid in
      record {
        object = o;
        signed = parsed;
        decoded = decoded;
        of_kind = same;
        issued = current.issued_by configured;
        meant_for = elim (current.meant_for (λ e. absurd (ground arith))) [
          | inl m ↦ m
          | inr m ↦ absurd m
        ];
        in_time = IsCurrent-IsInTime current;
      }

  -- The object behind a verified artifact, as `parse` read it.
  pub record ObjectChecks (parse : Text → Result Object) (kind : Text) (leeway : ℕ) : Type 0 where
    pub object : Object
    pub parsed : parse token ≡ ok object
    pub of_kind : object.token_use ≡ kind
    pub in_time : IsInTime object.claims now leeway

  pub verify_refresh_token_sound :
      (c : RefreshClaims)
      → verify_refresh_token j srv now token ≡ ok c
      → (k : ObjectChecks (parse_signed j srv.keys) use_refresh clock_skew_leeway)
        × (refresh_of_object k.object ≡ c)
  unfolding verify_refresh_token
  verify_refresh_token_sound c h =
      let (o, checked, parsed) = >>=-ok (parse_signed j srv.keys token) c h in
      let (same, passed) = use_checked o.token_use use_refresh _ checked in
      let (valid, decoded) = validated_expiry-ok j _ passed in
      (
        record {
          object = o;
          parsed = parsed;
          of_kind = same;
          in_time = IsCurrent-IsInTime ((l.validate_iff o.claims (at_now j srv now) _).0 valid);
        },
        decoded,
      )

  pub verify_code_sound :
      (c : CodeClaims)
      → verify_code j srv now token ≡ ok c
      → (k : ObjectChecks (parse_encrypted j srv.keys) use_code 0) × (code_of_object k.object ≡ c)
  unfolding verify_code
  verify_code_sound c h =
      let (o, checked, parsed) = >>=-ok (parse_encrypted j srv.keys token) c h in
      let (same, passed) = use_checked o.token_use use_code _ checked in
      let (valid, decoded) = validated-ok j _ passed in
      (
        record {
          object = o;
          parsed = parsed;
          of_kind = same;
          in_time = IsCurrent-IsInTime ((l.validate_iff o.claims (at_now j srv now) 0).0 valid);
        },
        decoded,
      )

  pub verify_auth_req_sound :
      (c : AuthReqClaims)
      → verify_auth_req j srv now token ≡ ok c
      → (k : ObjectChecks (parse_encrypted j srv.keys) use_auth_req 0) × (auth_req_of_object
            k.object
          ≡ c)
  unfolding verify_auth_req
  verify_auth_req_sound c h =
      let (o, checked, parsed) = >>=-ok (parse_encrypted j srv.keys token) c h in
      let (same, passed) = use_checked o.token_use use_auth_req _ checked in
      let (valid, decoded) = validated-ok j _ passed in
      (
        record {
          object = o;
          parsed = parsed;
          of_kind = same;
          in_time = IsCurrent-IsInTime ((l.validate_iff o.claims (at_now j srv now) 0).0 valid);
        },
        decoded,
      )

  pub verify_client_id_sound :
      (c : ClientClaims)
      → verify_client_id j srv token ≡ ok c
      → (o : Object) × (parse_signed j srv.keys token ≡ ok o)
        × (o.token_use ≡ use_client)
        × (client_of_object o ≡ c)
        × (c.redirect_uris ≢ [])
  unfolding verify_client_id
  verify_client_id_sound c h =
      let (o, checked, parsed) = >>=-ok (parse_signed j srv.keys token) c h in
      let (same, passed) = use_checked o.token_use use_client _ checked in
      elim (Bool-cases (is_empty o.redirect_uris)) [
        | inl empty ↦ absurd (ground arith)
        | inr filled ↦ (o, parsed, same, ground arith, λ e. absurd (ground arith))
      ]
