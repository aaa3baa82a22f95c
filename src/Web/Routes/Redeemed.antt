-- ===== src/Web/Routes/Redeemed.antt =====
-- A code is redeemed once: sequences of requests to any endpoint of the server.
use oidc_proxy.Base.{
  ℕ, suc, ◌+◌, ◌≤◌, ◌<◌, ◌≡◌, ◌≢◌, ◌⊎◌, inl, inr, refl, sym, ap, ◌∙◌, true, List, [], ◌∷◌, Text,
  arith, All, Message, ok,
}
use oidc_proxy.Http.{Request}
use oidc_proxy.TtlCache.{TtlCache, TtlCacheLaws}
use oidc_proxy.Mcpauth.Jose.{Jose, JoseLaws}
use oidc_proxy.Mcpauth.Claims.{CodeClaims}
use oidc_proxy.Mcpauth.Artifacts.{TokenGrant, verify_code}
use oidc_proxy.Mcpauth.ReplayGuard.{new_memory_replay_guard, seen_before}
use oidc_proxy.Mcpauth.ReplayGuard.Held.{
  HeldUntil, seen_before-HeldUntil, HeldUntil-seen_before_self,
}
use oidc_proxy.Web.Response.{Response, token_grant}
use oidc_proxy.Web.Pages.{PageConfig}
use oidc_proxy.Web.Authorize.{Server}
use oidc_proxy.Web.Token.{handle_token}
use oidc_proxy.Web.Token.Guarded.{GuardStep, handle_token_step}
use oidc_proxy.Web.Token.SingleUse.{Presents, step_sizes, step_held, same_code, granted_code}
use oidc_proxy.Web.Routes.{
  at_verify, at_sign_in, at_start, at_callback, at_refresh, at_session, at_sign_out, at_healthz,
  at_as_metadata, at_oidc_config, at_prm, at_jwks, at_register, at_authorize_get, at_authorize_post,
  at_token, at_mcp_verify, Routed, to, method_not_allowed, no_route, route, ServerState, token_part,
  serve_endpoint, serve_routed, serve_request,
}

-- A request for a path, and the time at which it is served.
pub record Visit : Type 0 where
  pub at : ℕ
  pub path : Text
  pub request : Request

-- Where the mux sends a visit.
abbrev pub routed : Visit → Routed
routed v = route true v.request.method v.path

abbrev pub token_count_of : Routed → ℕ
token_count_of (to at_token) = 1
token_count_of _ = 0

-- How many of the visits go to the token endpoint.
abbrev pub token_count : List Visit → ℕ
token_count [] = 0
token_count (v ∷ vs) = token_count_of (routed v) + token_count vs

-- A request to the token endpoint that asks to redeem a code.
pub record Redeems (token : Text) (v : Visit) : Type 0 where
  pub at_endpoint : routed v ≡ to at_token
  pub presents : Presents token v.request

module _ (c : TtlCache) (j : Jose) (rand : ℕ → Text) (s256 : Text → Text)
    (error_text : Message → Text) (S : Type 0) (s : Server S) (pages : PageConfig) where
  -- The answer to a visit, and the responses to visits one after the other.
  abbrev pub answer : Visit → ServerState c S → ServerState c S × Response
  answer v st = serve_request c j rand s256 error_text S s pages v.at v.path v.request st

  unfoldable pub run : List Visit → ServerState c S → List (Visit × Response)
  run [] st = []
  run (v ∷ vs) st = let (st', response) = answer v st in (v, response) ∷ run vs st'

  unfoldable pub run_state : List Visit → ServerState c S → ServerState c S
  run_state [] st = st
  run_state (v ∷ vs) st = run_state vs (answer v st).0

  -- Only the token endpoint touches the replay guard.
  routed_step :
      (now : ℕ) (x : Routed) (r : Request) (st : ServerState c S)
      → let g' = (serve_routed c j rand s256 error_text S s pages now x r st).0.guard in
        ((token_count_of x ≡ 0) × (g' ≡ st.guard))
        ⊎ ((x ≡ to at_token) × GuardStep c s.auth_server now st.guard g')
  unfolding serve_routed serve_endpoint
  routed_step now method_not_allowed r st = inl (refl, refl)
  routed_step now no_route r st = inl (refl, refl)
  routed_step now (to at_verify) r st = inl (refl, refl)
  routed_step now (to at_sign_in) r st = inl (refl, refl)
  routed_step now (to at_start) r st = inl (refl, refl)
  routed_step now (to at_callback) r st = inl (refl, refl)
  routed_step now (to at_refresh) r st = inl (refl, refl)
  routed_step now (to at_session) r st = inl (refl, refl)
  routed_step now (to at_sign_out) r st = inl (refl, refl)
  routed_step now (to at_healthz) r st = inl (refl, refl)
  routed_step now (to (at_as_metadata suffix)) r st = inl (refl, refl)
  routed_step now (to (at_oidc_config suffix)) r st = inl (refl, refl)
  routed_step now (to (at_prm suffix)) r st = inl (refl, refl)
  routed_step now (to at_jwks) r st = inl (refl, refl)
  routed_step now (to at_register) r st = inl (refl, refl)
  routed_step now (to at_authorize_get) r st = inl (refl, refl)
  routed_step now (to at_authorize_post) r st = inl (refl, refl)
  routed_step now (to at_mcp_verify) r st = inl (refl, refl)
  routed_step now (to at_token) r st = inr (
    refl,
    handle_token_step c j rand s256 s.auth_server now r
        (token_part c j rand s256 error_text S s pages now st),
  )

  -- A visit to the token endpoint is answered by its handler.
  pub token_answer :
      (v : Visit) (st : ServerState c S)
      → routed v ≡ to at_token
      → let (t, response) =
          handle_token c j rand s256 s.auth_server v.at v.request
            (token_part c j rand s256 error_text S s pages v.at st) in
        ((answer v st).1 ≡ response) × ((answer v st).0.guard ≡ t.guard)
  unfolding serve_request serve_routed serve_endpoint
  token_answer v st e = rw (e, serve_request) (refl, refl)

module _ (c : TtlCache) (l : TtlCacheLaws c Unit) (j : Jose) (jl : JoseLaws j) (rand : ℕ → Text)
    (s256 : Text → Text) (error_text : Message → Text) (S : Type 0) (s : Server S)
    (pages : PageConfig) (code_pos : 0 < s.auth_server.code_ttl)
    (refresh_pos : 0 < s.auth_server.refresh_ttl) where
  open l use {size, capacity}

  -- One visit adds to the guard at most the entry of a token request, and keeps its capacity.
  visit_sizes :
      (v : Visit) (st : ServerState c S)
      → let g' = (answer c j rand s256 error_text S s pages v st).0.guard in
        (size g' ≤ token_count_of (routed v) + size st.guard) × (capacity g' ≡ capacity st.guard)
  unfolding serve_request
  visit_sizes v st =
      elim (routed_step c j rand s256 error_text S s pages v.at (routed v) v.request st) [
        | inl (quiet, e) ↦ rw e (omega arith, refl)
        | inr (token, step) ↦
            let (m, k) =
              step_sizes c l j jl rand s256 s.auth_server code_pos refresh_pos v.at step in
            (omega (arith, m, ap token_count_of token), k)
      ]

  visit_held :
      (v : Visit) (st : ServerState c S) (expiry : ℕ) (id : Text)
      → HeldUntil c l expiry id st.guard
      → token_count_of (routed v) + size st.guard ≤ capacity st.guard
      → HeldUntil c l expiry id (answer c j rand s256 error_text S s pages v st).0.guard
  unfolding serve_request
  visit_held v st expiry id h room =
      elim (routed_step c j rand s256 error_text S s pages v.at (routed v) v.request st) [
        | inl (quiet, e) ↦ rw e h
        | inr (token, step) ↦
            step_held c l j jl rand s256 s.auth_server code_pos refresh_pos v.at expiry id step h
              (omega (arith, ap token_count_of token))
      ]

  run_sizes :
      (visits : List Visit) (st : ServerState c S)
      → let g = (run_state c j rand s256 error_text S s pages visits st).guard in
        (size g ≤ size st.guard + token_count visits) × (capacity g ≡ capacity st.guard)
  unfolding run_state
  run_sizes [] st = (omega arith, refl)
  run_sizes (v ∷ visits) st =
      let st' = (answer c j rand s256 error_text S s pages v st).0 in
      let (m, k) = visit_sizes v st in
      let (m', k') = run_sizes visits st' in (omega (arith, m, m', k), k' ∙ k)

  -- While the id of a code is held, no visit that presents the code is granted.
  run-HeldUntil :
      (expiry issued : ℕ) (token : Text) (code : CodeClaims) (visits : List Visit)
      (st : ServerState c S)
      → verify_code j s.auth_server issued token ≡ ok code
      → HeldUntil c l expiry code.claims.id st.guard
      → size st.guard + token_count visits ≤ capacity st.guard
      → All
          (λ (x : Visit × Response).
            Redeems token x.0 → x.0.at < expiry → (g : TokenGrant) → x.1.body ≢ token_grant g)
          (run c j rand s256 error_text S s pages visits st)
  unfolding run
  run-HeldUntil expiry issued token code [] st good h room = tt
  run-HeldUntil expiry issued token code (v ∷ visits) st good h room =
      let (m, k) = visit_sizes v st in
      (
        λ p early g granted.
            let part = token_part c j rand s256 error_text S s pages v.at st in
            let (same_answer, _) =
              token_answer c j rand s256 error_text S s pages v st p.at_endpoint in
            let (code', good', unseen, _) =
              granted_code c l j jl rand s256 s.auth_server code_pos refresh_pos
                (record { at = v.at; request = v.request }) part g token p.presents
                (ap (λ (x : Response). x.body) (sym same_answer) ∙ granted) in
            let same =
              same_code c l j jl rand s256 s.auth_server code_pos refresh_pos issued v.at token code
                code' good good' in
            absurd (
              ground (
                arith,
                unseen,
                ap
                    (λ (q : CodeClaims).
                      (seen_before c v.at q.claims.id s.auth_server.code_ttl st.guard).1)
                    same,
                seen_before-HeldUntil c l v.at code.claims.id s.auth_server.code_ttl st.guard h
                    early,
              )),
        run-HeldUntil expiry issued token code visits
            (answer c j rand s256 error_text S s pages v st).0 good
            (visit_held v st expiry code.claims.id h (omega arith)) (omega (arith, m, k)),
      )

  -- With positive lifetimes of codes and refresh tokens, a server that starts with a new replay guard of
  -- size `max_size` and serves requests to any of its paths, of which at most `max_size` go to the token
  -- endpoint: once that endpoint has granted tokens for an authorization code, it grants none to a later
  -- request that presents the same code before the lifetime of a code has passed since then.
  pub redeemed_once :
      (max_size : ℕ) (start : ServerState c S) (before : List Visit) (redeeming : Visit)
      (after : List Visit) (token : Text) (g : TokenGrant)
      → start.guard ≡ new_memory_replay_guard c max_size
      → token_count before + suc (token_count after) ≤ max_size
      → Redeems token redeeming
      → let st = run_state c j rand s256 error_text S s pages before start in
        let answered = answer c j rand s256 error_text S s pages redeeming st in
        answered.1.body ≡ token_grant g
        → All
            (λ (x : Visit × Response).
              Redeems token x.0
              → x.0.at < redeeming.at + s.auth_server.code_ttl
              → (g' : TokenGrant) → x.1.body ≢ token_grant g')
            (run c j rand s256 error_text S s pages after answered.0)
  unfolding new_memory_replay_guard
  redeemed_once max_size start before redeeming after token g fresh room p granted =
      let st = run_state c j rand s256 error_text S s pages before start in
      let (same_answer, same_guard) =
        token_answer c j rand s256 error_text S s pages redeeming st p.at_endpoint in
      let (code, good, unseen, e) =
        granted_code c l j jl rand s256 s.auth_server code_pos refresh_pos
          (record { at = redeeming.at; request = redeeming.request })
          (token_part c j rand s256 error_text S s pages redeeming.at st) g token p.presents
          (ap (λ (x : Response). x.body) (sym same_answer) ∙ granted) in
      let (m, k) = run_sizes before start in
      let (m', k') = visit_sizes redeeming st in
      run-HeldUntil (redeeming.at + s.auth_server.code_ttl) redeeming.at token code after
        (answer c j rand s256 error_text S s pages redeeming st).0 good
        (rw (same_guard ∙ e) (
          HeldUntil-seen_before_self c l redeeming.at code.claims.id s.auth_server.code_ttl st.guard
            code_pos unseen))
        (omega (
          arith,
          m,
          k,
          m',
          k',
          ap token_count_of p.at_endpoint,
          ap size fresh,
          ap capacity fresh,
          l.size-create max_size,
          l.capacity-create max_size,
        ))
