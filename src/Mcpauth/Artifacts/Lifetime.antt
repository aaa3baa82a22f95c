-- ===== src/Mcpauth/Artifacts/Lifetime.antt =====
-- How long a sealed authorization code and an access token are accepted.
use oidc_proxy.Base.{
  ℕ, ◌+◌, ◌≤◌, ◌<◌, ◌≡◌, refl, ap, sym, inl, none, some, Text, arith, text_eq_refl, ok,
}
use oidc_proxy.Mcpauth.Jose.{Object, second, Jose, JoseLaws}
use oidc_proxy.Mcpauth.Claims.{
  use_code, use_access, AuthReqClaims, CodeClaims, object_of_code, object_of_access,
  object_of_refresh,
}
use oidc_proxy.Mcpauth.AuthServer.{AuthServer}
use oidc_proxy.Mcpauth.Artifacts.{
  at_now, for_resource, clock_skew_leeway, sign_claims, mint_code, code_claims, verify_code,
  GrantInput, TokenGrant, access_claims, issue_grant, verify_access_token,
}
use oidc_proxy.Mcpauth.Artifacts.Sealing.{keys}
use oidc_proxy.Mcpauth.Artifacts.Kinds.{ok-injective, signed_object, sealed_object}
use oidc_proxy.Mcpauth.Artifacts.Granted.{
  IsForGrant, granted_access, granted_refresh, issue_grant-ok, issue_grant-IsForGrant,
}
use oidc_proxy.Mcpauth.Artifacts.Checks.{verify_code_sound}

some_eq : {m n : ℕ} → some m ≡ some n → m ≡ n
some_eq e = ground arith

module _ (j : Jose) (l : JoseLaws j) (rand : ℕ → Text) (srv : AuthServer) (priv kid enc_key : Text)
    (set_up : srv.keys ≡ keys j l priv kid enc_key) where
  -- With the keys as `loadKeys` sets them up and claims that JSON carries unchanged:
  -- a code that was minted from a consent blob is accepted, and gives the claims that were sealed,
  -- from the time of minting until one second before its lifetime is over.
  pub verify_code-mint_code :
      (now draws later : ℕ) (req : AuthReqClaims) (code : Text)
      → l.IsCarried (object_of_code (code_claims j rand srv now draws req))
      → (mint_code j rand srv now draws req).1 ≡ ok code
      → now ≤ later
      → later + second ≤ now + srv.code_ttl
      → verify_code j srv later code ≡ ok (code_claims j rand srv now draws req)
  unfolding mint_code verify_code code_claims
  verify_code-mint_code now draws later req code carried minted after before =
      let c = code_claims j rand srv now draws req in
      let read =
        sealed_object j l srv priv kid enc_key set_up (object_of_code c) code carried minted in
      let valid : j.validate c.claims (at_now j srv later) 0 ≡ none =
        (l.validate_iff c.claims (at_now j srv later) 0).1 (record {
          issued_by = λ e. absurd (e refl);
          meant_for = λ e. absurd (e refl);
          started = λ t e. absurd (ground arith);
          running = λ t e. omega (arith, l.numeric_date_lt (now + srv.code_ttl), some_eq e);
          issued = λ t e. omega (arith, l.numeric_date_le now, some_eq e);
        }) in
      rw (read, text_eq_refl use_code, valid) refl

  -- With the keys as `loadKeys` sets them up and claims that JSON carries unchanged:
  -- a code is refused after its lifetime.
  pub verify_code_late :
      (now draws later : ℕ) (req : AuthReqClaims) (code : Text)
      → l.IsCarried (object_of_code (code_claims j rand srv now draws req))
      → (mint_code j rand srv now draws req).1 ≡ ok code
      → now + srv.code_ttl < later
      → ¬ ((c : CodeClaims) × (verify_code j srv later code ≡ ok c))
  unfolding mint_code code_claims
  verify_code_late now draws later req code carried minted late (c, accepted) =
      let read =
        sealed_object j l srv priv kid enc_key set_up
          (object_of_code (code_claims j rand srv now draws req)) code carried minted in
      let (k, _) = verify_code_sound j l srv later code c accepted in
      let same = ok-injective read k.parsed in
      omega (
        arith,
        k.in_time.running (j.numeric_date (now + srv.code_ttl))
            (ap (λ (o : Object). o.claims.expiry) (sym same)),
        l.numeric_date_le (now + srv.code_ttl),
      )

  -- With the keys as `loadKeys` sets them up and claims that JSON carries unchanged: a granted
  -- access token for the server's resource is accepted from the time of the grant until its
  -- lifetime is over, with the user, the client and the scope of the grant, only; the refresh token
  -- of the grant is signed for the same user, client, resource and scope; and the answer names that
  -- scope.
  pub verify_access_token-issue_grant :
      (now draws later : ℕ) (input : GrantInput) (g : TokenGrant)
      → l.IsCarried (object_of_access (granted_access j rand srv now draws input))
      → (issue_grant j rand srv now draws input).1 ≡ ok g
      → input.resource ≡ srv.resource
      → now ≤ later
      → later ≤ now + srv.access_ttl
      → (verify_access_token j srv later g.access_token
          ≡ ok (granted_access j rand srv now draws input))
        × (sign_claims j srv.keys (object_of_refresh (granted_refresh j rand srv now draws input))
            ≡ ok g.refresh_token)
        × IsForGrant input g
            (granted_access j rand srv now draws input)
            (granted_refresh j rand srv now draws input)
  unfolding verify_access_token access_claims
  verify_access_token-issue_grant now draws later input g carried issued same after before =
      let c = granted_access j rand srv now draws input in
      let granted = issue_grant-ok j rand srv now draws input g issued in
      let read =
        signed_object j l srv priv kid enc_key set_up (object_of_access c) g.access_token carried
          granted.access_signed in
      let valid : j.validate c.claims (for_resource j srv later) clock_skew_leeway ≡ none =
        (l.validate_iff c.claims (for_resource j srv later) clock_skew_leeway).1 (record {
          issued_by = λ e. refl;
          meant_for = λ e. inl (inl same);
          started = λ t e. omega (arith, l.numeric_date_le now, some_eq e);
          running = λ t e. omega (arith, l.numeric_date_lt (now + srv.access_ttl), some_eq e);
          issued = λ t e. omega (arith, l.numeric_date_le now, some_eq e);
        }) in
      (
        rw (read, text_eq_refl use_access, valid) refl,
        granted.refresh_signed,
        issue_grant-IsForGrant j rand srv now draws input g issued,
      )
