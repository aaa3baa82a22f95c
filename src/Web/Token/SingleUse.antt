-- ===== src/Web/Token/SingleUse.antt =====
-- A code is redeemed once: sequences of requests to the token endpoint.
use oidc_proxy.Base.{
  ℕ, suc, ◌+◌, ◌≤◌, ◌<◌, ◌≡◌, ◌≢◌, refl, sym, ap, ◌∙◌, true, false, some, List, [], ◌∷◌, Text,
  arith, codes, text_eq, length, All, ok,
}
use oidc_proxy.Http.{Values, get, Request}
use oidc_proxy.TtlCache.{TtlCache, TtlCacheLaws}
use oidc_proxy.Mcpauth.Jose.{Jose, JoseLaws}
use oidc_proxy.Mcpauth.AuthServer.{AuthServer}
use oidc_proxy.Mcpauth.Claims.{CodeClaims, code_of_object}
use oidc_proxy.Mcpauth.Artifacts.{TokenGrant, verify_code}
use oidc_proxy.Mcpauth.Artifacts.Checks.{verify_code_sound}
use oidc_proxy.Mcpauth.Artifacts.Kinds.{ok-injective}
use oidc_proxy.Mcpauth.ReplayGuard.{MemoryReplayGuard, new_memory_replay_guard, seen_before}
use oidc_proxy.Mcpauth.ReplayGuard.Held.{
  HeldUntil, seen_before-HeldUntil, HeldUntil-seen_before_self, HeldUntil-seen_before,
  size-seen_before, capacity-seen_before,
}
use oidc_proxy.Web.Response.{Response, token_grant}
use oidc_proxy.Web.Token.{TokenState, token_authorization_code, handle_token}
use oidc_proxy.Web.Token.Redeem.{code_grant_iff}
use oidc_proxy.Web.Token.Guarded.{
  GuardStep, kept, burned_code, burned_refresh, limited, guard-redeem_code, handle_token_step,
  handle_token_code,
}

-- A request and the time at which it is served.
pub record Arrival : Type 0 where
  pub at : ℕ
  pub request : Request

-- The request asks to redeem the code `code`.
pub record Presents (code : Text) (r : Request) : Type 0 where
  pub form : Values
  pub sent : r.post_form ≡ some form
  pub kind : text_eq (get form "grant_type") (codes "authorization_code") ≡ true
  pub presented : get form "code" ≡ code

module _ (c : TtlCache) (j : Jose) (rand : ℕ → Text) (s256 : Text → Text) (srv : AuthServer) where
  -- The responses to requests served one after the other, each beside its request.
  unfoldable pub serve : List Arrival → TokenState c → List (Arrival × Response)
  serve [] s = []
  serve (a ∷ as') s =
      let (s', response) = handle_token c j rand s256 srv a.at a.request s in
      (a, response) ∷ serve as' s'

  -- The state after them.
  unfoldable pub serve_state : List Arrival → TokenState c → TokenState c
  serve_state [] s = s
  serve_state (a ∷ as') s = serve_state as' (handle_token c j rand s256 srv a.at a.request s).0

module _ (c : TtlCache) (l : TtlCacheLaws c Unit) (j : Jose) (jl : JoseLaws j) (rand : ℕ → Text)
    (s256 : Text → Text) (srv : AuthServer) (code_pos : 0 < srv.code_ttl)
    (refresh_pos : 0 < srv.refresh_ttl) where
  open l use {held, size, capacity}

  -- One request adds at most one entry to the guard, and keeps its capacity and what it holds.
  pub step_sizes :
      (now : ℕ) {g g' : MemoryReplayGuard c}
      → GuardStep c srv now g g'
      → (size g' ≤ suc (size g)) × (capacity g' ≡ capacity g)
  step_sizes now {g} {g'} (kept e) = rw e (omega arith, refl)
  step_sizes now {g} {g'} (burned_code id e) =
      rw e
        (size-seen_before c l now id srv.code_ttl g, capacity-seen_before c l now id srv.code_ttl g)
  step_sizes now {g} {g'} (burned_refresh id e) = rw e (
    size-seen_before c l now id srv.refresh_ttl g,
    capacity-seen_before c l now id srv.refresh_ttl g,
  )

  pub step_held :
      (now : ℕ) {g g' : MemoryReplayGuard c} (expiry : ℕ) (id : Text)
      → GuardStep c srv now g g'
      → HeldUntil c l expiry id g
      → size g < capacity g
      → HeldUntil c l expiry id g'
  step_held now {g} {g'} expiry id (kept e) h room = rw e h
  step_held now {g} {g'} expiry id (burned_code other e) h room =
      rw e (HeldUntil-seen_before c l now other srv.code_ttl g id h room code_pos)
  step_held now {g} {g'} expiry id (burned_refresh other e) h room =
      rw e (HeldUntil-seen_before c l now other srv.refresh_ttl g id h room refresh_pos)

  serve_sizes :
      (requests : List Arrival) (s : TokenState c)
      → let g = (serve_state c j rand s256 srv requests s).guard in
        (size g ≤ size s.guard + length requests) × (capacity g ≡ capacity s.guard)
  unfolding serve_state
  serve_sizes [] s = (omega arith, refl)
  serve_sizes (a ∷ requests) s =
      let s' = (handle_token c j rand s256 srv a.at a.request s).0 in
      let (m, k) = step_sizes a.at (handle_token_step c j rand s256 srv a.at a.request s) in
      let (m', k') = serve_sizes requests s' in (omega arith, k' ∙ k)

  -- The claims of a code do not depend on when it is presented.
  pub same_code :
      (now later : ℕ) (token : Text) (code code' : CodeClaims)
      → verify_code j srv now token ≡ ok code
      → verify_code j srv later token ≡ ok code'
      → code ≡ code'
  same_code now later token code code' h h' =
      let (k, p) = verify_code_sound j jl srv now token code h in
      let (k', p') = verify_code_sound j jl srv later token code' h' in
      sym p ∙ ap code_of_object (ok-injective k.parsed k'.parsed) ∙ p'

  -- What a granted request with a code has found and left.
  pub granted_code :
      (a : Arrival) (s : TokenState c) (g : TokenGrant) (token : Text)
      → Presents token a.request
      → (handle_token c j rand s256 srv a.at a.request s).1.body ≡ token_grant g
      → (code : CodeClaims) × (verify_code j srv a.at token ≡ ok code)
        × ((seen_before c a.at code.claims.id srv.code_ttl s.guard).1 ≡ false)
        × ((handle_token c j rand s256 srv a.at a.request s).0.guard
            ≡ (seen_before c a.at code.claims.id srv.code_ttl s.guard).0)
  unfolding limited token_authorization_code
  granted_code a s g token p h =
      let e = handle_token_code c j rand s256 srv a.at a.request s p.form g p.sent p.kind h in
      let s' : TokenState c = limited c j rand s256 srv a.at a.request s in
      let (code, r) = (code_grant_iff c j rand s256 srv a.at p.form s' g).0 (rw e at h) in
      (
        code,
        rw⁻¹ p.presented r.verified,
        r.unseen,
        ap (λ (x : TokenState c × Response). x.0.guard) e
            ∙ (rw (r.verified, r.unseen, token_authorization_code)
                (guard-redeem_code c j rand s256 srv a.at p.form code (record s' {
                  guard = (seen_before c a.at code.claims.id srv.code_ttl s'.guard).0;
                }))),
      )

  -- While the id of a code is held, no request that presents the code is granted.
  serve-HeldUntil :
      (expiry issued : ℕ) (token : Text) (code : CodeClaims) (requests : List Arrival)
      (s : TokenState c)
      → verify_code j srv issued token ≡ ok code
      → HeldUntil c l expiry code.claims.id s.guard
      → size s.guard + length requests ≤ capacity s.guard
      → All
          (λ (x : Arrival × Response).
            Presents token x.0.request
            → x.0.at < expiry
            → (g : TokenGrant) → x.1.body ≢ token_grant g)
          (serve c j rand s256 srv requests s)
  unfolding serve
  serve-HeldUntil expiry issued token code [] s good h room = tt
  serve-HeldUntil expiry issued token code (a ∷ requests) s good h room =
      let step = handle_token_step c j rand s256 srv a.at a.request s in
      let (m, k) = step_sizes a.at step in
      (
        λ p early g granted.
            let (code', good', unseen, _) = granted_code a s g token p granted in
            let same = same_code issued a.at token code code' good good' in
            absurd (
              ground (
                arith,
                unseen,
                ap (λ (q : CodeClaims). (seen_before c a.at q.claims.id srv.code_ttl s.guard).1)
                    same,
                seen_before-HeldUntil c l a.at code.claims.id srv.code_ttl s.guard h early,
              )),
        serve-HeldUntil expiry issued token code requests
            (handle_token c j rand s256 srv a.at a.request s).0 good
            (step_held a.at expiry code.claims.id step h (omega arith)) (omega arith),
      )

  -- With positive lifetimes of codes and refresh tokens, a server that starts with a new replay
  -- guard of size `max_size` and serves at most `max_size` token requests, of any kind: once a
  -- request with an authorization code is granted tokens, no later request that presents the same
  -- code before the lifetime of a code has passed since then is granted any, whatever the requests
  -- before and in between.
  pub code_redeemed_once :
      (max_size : ℕ) (start : TokenState c) (before : List Arrival) (redeeming : Arrival)
      (after : List Arrival) (token : Text) (g : TokenGrant)
      → start.guard ≡ new_memory_replay_guard c max_size
      → length before + suc (length after) ≤ max_size
      → Presents token redeeming.request
      → let s = serve_state c j rand s256 srv before start in
        let answer = handle_token c j rand s256 srv redeeming.at redeeming.request s in
        answer.1.body ≡ token_grant g
        → All
            (λ (x : Arrival × Response).
              Presents token x.0.request
              → x.0.at < redeeming.at + srv.code_ttl
              → (g' : TokenGrant) → x.1.body ≢ token_grant g')
            (serve c j rand s256 srv after answer.0)
  unfolding new_memory_replay_guard
  code_redeemed_once max_size start before redeeming after token g fresh room p granted =
      let s = serve_state c j rand s256 srv before start in
      let (code, good, unseen, e) = granted_code redeeming s g token p granted in
      let (m, k) = serve_sizes before start in
      let (m', k') =
        step_sizes redeeming.at
          (handle_token_step c j rand s256 srv redeeming.at redeeming.request s) in
      serve-HeldUntil (redeeming.at + srv.code_ttl) redeeming.at token code after
        (handle_token c j rand s256 srv redeeming.at redeeming.request s).0 good
        (rw e (
          HeldUntil-seen_before_self c l redeeming.at code.claims.id srv.code_ttl s.guard code_pos
            unseen))
        (omega (
          arith,
          ap size fresh,
          ap capacity fresh,
          l.size-create max_size,
          l.capacity-create max_size,
        ))
