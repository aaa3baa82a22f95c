-- ===== src/Mcpauth/Artifacts/Consent.antt =====
-- How long a sealed consent blob is accepted.
use oidc_proxy.Base.{
  ℕ, ◌+◌, ◌≤◌, ◌≡◌, refl, ap, ◌∙◌, inl, inr, none, some, Text, arith, text_eq_refl, ok,
  Result-cases, sym,
}
use oidc_proxy.Mcpauth.Jose.{second, Jose, JoseLaws}
use oidc_proxy.Mcpauth.Claims.{use_auth_req, object_of_auth_req}
use oidc_proxy.Mcpauth.AuthServer.{AuthServer}
use oidc_proxy.Mcpauth.Artifacts.{
  at_now, encrypt_claims, AuthReqInput, mint_auth_req, auth_req_claims, verify_auth_req,
}
use oidc_proxy.Mcpauth.Artifacts.Sealing.{keys}
use oidc_proxy.Mcpauth.Artifacts.Kinds.{sealed_object}

module _ (j : Jose) (l : JoseLaws j) (rand : ℕ → Text) (srv : AuthServer) (priv kid enc_key : Text)
    (set_up : srv.keys ≡ keys j l priv kid enc_key) where
  some_eq : {m n : ℕ} → some m ≡ some n → m ≡ n
  some_eq e = ground arith

  ok_eq : {p q : Text × Text} → ok p ≡ ok q → p ≡ q
  ok_eq e = ground arith

  -- The blob and the nonce that are minted: the blob is the encrypted claims, the nonce is drawn.
  pub mint_auth_req-ok :
      (now draws : ℕ) (input : AuthReqInput) (blob csrf : Text)
      → (mint_auth_req j rand srv now draws input).1 ≡ ok (blob, csrf)
      → (encrypt_claims j srv.keys (object_of_auth_req (auth_req_claims j rand srv now draws input))
          ≡ ok blob)
        × (csrf ≡ rand draws)
  unfolding mint_auth_req
  mint_auth_req-ok now draws input blob csrf minted =
      let o = object_of_auth_req (auth_req_claims j rand srv now draws input) in
      elim (Result-cases (encrypt_claims j srv.keys o)) [
        | inl (t, e) ↦
            let same : (t, rand draws) ≡ (blob, csrf) = ok_eq (rw e at minted) in
            (e ∙ ap (λ (p : Text × Text). ok p.0) same, sym (ap (λ (p : Text × Text). p.1) same))
        | inr (m, e) ↦ absurd (ground arith)
      ]

  -- With the keys as `loadKeys` sets them up and claims that JSON carries unchanged:
  -- a blob that was minted for an authorization request is accepted, and gives the claims that were
  -- sealed, from the time of minting until one second before its lifetime is over.
  pub verify_auth_req-mint_auth_req :
      (now draws later : ℕ) (input : AuthReqInput) (blob csrf : Text)
      → l.IsCarried (object_of_auth_req (auth_req_claims j rand srv now draws input))
      → (mint_auth_req j rand srv now draws input).1 ≡ ok (blob, csrf)
      → now ≤ later
      → later + second ≤ now + srv.auth_req_ttl
      → verify_auth_req j srv later blob ≡ ok (auth_req_claims j rand srv now draws input)
  unfolding verify_auth_req auth_req_claims
  verify_auth_req-mint_auth_req now draws later input blob csrf carried minted after before =
      let c = auth_req_claims j rand srv now draws input in
      let read =
        sealed_object j l srv priv kid enc_key set_up (object_of_auth_req c) blob carried
          (mint_auth_req-ok now draws input blob csrf minted).0 in
      let valid : j.validate c.claims (at_now j srv later) 0 ≡ none =
        (l.validate_iff c.claims (at_now j srv later) 0).1 (record {
          issued_by = λ e. absurd (e refl);
          meant_for = λ e. absurd (e refl);
          started = λ t e. absurd (ground arith);
          running = λ t e. omega (arith, l.numeric_date_lt (now + srv.auth_req_ttl), some_eq e);
          issued = λ t e. omega (arith, l.numeric_date_le now, some_eq e);
        }) in
      rw (read, text_eq_refl use_auth_req, valid) refl
