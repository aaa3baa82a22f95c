-- ===== src/Web/Token/Guarded.antt =====
-- What a token request does to the replay guard.
use oidc_proxy.Base.{
  ℕ, ◌≡◌, refl, inl, inr, true, not, ◌&&◌, some, Text, arith, codes, text_eq, is_empty, Bool-cases,
  Option-cases, Result-cases,
}
use oidc_proxy.Http.{Values, get, Request}
use oidc_proxy.Utils.{client_ip}
use oidc_proxy.TtlCache.{TtlCache}
use oidc_proxy.Mcpauth.Jose.{Jose}
use oidc_proxy.Mcpauth.AuthServer.{AuthServer}
use oidc_proxy.Mcpauth.Claims.{CodeClaims}
use oidc_proxy.Mcpauth.Artifacts.{GrantInput, TokenGrant, verify_code, verify_refresh_token}
use oidc_proxy.Mcpauth.Pkce.{verify_pkce}
use oidc_proxy.Mcpauth.ReplayGuard.{MemoryReplayGuard, seen_before}
use oidc_proxy.Web.RateLimiter.{allow}
use oidc_proxy.Web.Response.{token_grant, write_error}
use oidc_proxy.Web.Token.{
  TokenState, grant_for, redeem_code, token_authorization_code, token_refresh, token_grant_type,
  handle_token,
}

-- A request leaves the guard as it is, or burns one id for a lifetime of the server's.
pub data GuardStep (c : TtlCache) (srv : AuthServer) (now : ℕ) (g g' : MemoryReplayGuard c)
    : Type 0 where
  kept : g' ≡ g → GuardStep c srv now g g'
  burned_code :
      (id : Text) → g' ≡ (seen_before c now id srv.code_ttl g).0 → GuardStep c srv now g g'
  burned_refresh :
      (id : Text) → g' ≡ (seen_before c now id srv.refresh_ttl g).0 → GuardStep c srv now g g'

module _ (c : TtlCache) (j : Jose) (rand : ℕ → Text) (s256 : Text → Text) (srv : AuthServer)
    (now : ℕ) where
  guard-grant_for :
      (input : GrantInput) (s : TokenState c)
      → (grant_for c j rand s256 srv now input s).0.guard ≡ s.guard
  unfolding grant_for
  guard-grant_for input s = refl

  pub guard-redeem_code :
      (f : Values) (code : CodeClaims) (s : TokenState c)
      → (redeem_code c j rand s256 srv now f code s).0.guard ≡ s.guard
  unfolding redeem_code grant_for
  guard-redeem_code f code s = elim (Bool-cases (text_eq (get f "client_id") code.client_id)) [
    | inr differ ↦ rw (differ, redeem_code) refl
    | inl client ↦ elim (Bool-cases (text_eq (get f "redirect_uri") code.redirect_uri)) [
      | inr differ ↦ rw (client, differ, redeem_code) refl
      | inl redirect ↦
          elim (Bool-cases (verify_pkce s256 (get f "code_verifier") code.code_challenge)) [
            | inr differ ↦ rw (client, redirect, differ, redeem_code) refl
            | inl proved ↦ rw (client, redirect, proved, redeem_code) refl
          ]
    ]
  ]

  code_step :
      (f : Values) (s : TokenState c)
      → GuardStep c srv now s.guard (token_authorization_code c j rand s256 srv now f s).0.guard
  unfolding token_authorization_code
  code_step f s = elim (Result-cases (verify_code j srv now (get f "code"))) [
    | inr (e, bad) ↦ kept (rw (bad, token_authorization_code) refl)
    | inl (code, good) ↦
        elim (Bool-cases (seen_before c now code.claims.id srv.code_ttl s.guard).1) [
          | inl seen ↦ burned_code code.claims.id (rw (good, seen, token_authorization_code) refl)
          | inr unseen ↦ burned_code code.claims.id (
              rw (good, unseen, token_authorization_code)
                (guard-redeem_code f code
                  (record s { guard = (seen_before c now code.claims.id srv.code_ttl s.guard).0 })))
        ]
  ]

  refresh_step :
      (f : Values) (s : TokenState c)
      → GuardStep c srv now s.guard (token_refresh c j rand s256 srv now f s).0.guard
  unfolding token_refresh grant_for
  refresh_step f s = elim (Result-cases (verify_refresh_token j srv now (get f "refresh_token"))) [
    | inr (e, bad) ↦ kept (rw (bad, token_refresh) refl)
    | inl (t, good) ↦
        let cid = get f "client_id" in
        elim (Bool-cases (not (is_empty cid) && not (text_eq cid t.client_id))) [
          | inl foreign ↦ kept (rw (good, foreign, token_refresh) refl)
          | inr own ↦ elim (Bool-cases (seen_before c now t.claims.id srv.refresh_ttl s.guard).1) [
            | inl seen ↦ burned_refresh t.claims.id (rw (good, own, seen, token_refresh) refl)
            | inr unseen ↦ burned_refresh t.claims.id (rw (good, own, unseen, token_refresh) refl)
          ]
        ]
  ]

  -- The state that the branch of a grant type starts in.
  unfoldable pub limited : Request → TokenState c → TokenState c
  limited r s = record s { limiter = (allow c now (client_ip r) s.limiter).0 }

  pub handle_token_step :
      (r : Request) (s : TokenState c)
      → GuardStep c srv now s.guard (handle_token c j rand s256 srv now r s).0.guard
  unfolding handle_token token_grant_type limited
  handle_token_step r s = elim (Bool-cases (allow c now (client_ip r) s.limiter).1) [
    | inr refused ↦ kept (rw (refused, handle_token) refl)
    | inl allowed ↦ elim (Option-cases r.post_form) [
      | inl unread ↦ kept (rw (allowed, unread, handle_token) refl)
      | inr (f, form) ↦
          elim (Bool-cases (text_eq (get f "grant_type") (codes "authorization_code"))) [
            | inl code ↦ rw (allowed, form, handle_token, code) (code_step f (limited r s))
            | inr other ↦ elim (Bool-cases (text_eq (get f "grant_type") (codes "refresh_token"))) [
              | inl refresh ↦
                  rw (allowed, form, handle_token, other, refresh) (refresh_step f (limited r s))
              | inr neither ↦ kept (rw (allowed, form, handle_token, other, neither) refl)
            ]
          ]
    ]
  ]

  -- A granted request with the grant type "authorization_code" is answered by that branch.
  pub handle_token_code :
      (r : Request) (s : TokenState c) (f : Values) (g : TokenGrant)
      → r.post_form ≡ some f
      → text_eq (get f "grant_type") (codes "authorization_code") ≡ true
      → (handle_token c j rand s256 srv now r s).1.body ≡ token_grant g
      → handle_token c j rand s256 srv now r s
        ≡ token_authorization_code c j rand s256 srv now f (limited r s)
  unfolding handle_token token_grant_type limited write_error client_ip
  handle_token_code r s f g form kind h =
      elim (Bool-cases (allow c now (client_ip r) s.limiter).1) [
        | inr refused ↦ absurd (ground arith)
        | inl allowed ↦ rw (allowed, form, handle_token, kind) refl
      ]
