-- ===== src/Web/RateLimiter/Window.antt =====
-- What one window lets through.
use oidc_proxy.Base.{
  ℕ, ◌+◌, ◌-◌, ◌^◌, ◌≤◌, ◌<◌, ◌≡◌, refl, sym, inl, inr, true, List, [], ◌∷◌, Text, arith,
  if◌then◌else◌, length, All, Bool-cases, text_eq, text_eq_iff, text_eq_refl, ◌&&◌,
}
use Prim.Native.Nat.{min}
use mathlib.Core.Path.{subst}
use oidc_proxy.TtlCache.{TtlCache, TtlCacheLaws}
use oidc_proxy.Web.RateLimiter.{
  RateLimiter, rate_limiter_max_keys, new_rate_limiter, open_window, allow_at,
}
use oidc_proxy.Web.RateLimiter.Steps.{
  IsOpen, counts, opens, branch, sizes, held-opened, inside, outside,
}

-- A request: its time and its key.
pub record Hit : Type 0 where
  pub at : ℕ
  pub key : Text

module _ (c : TtlCache) where
  -- How many of the requests with the key are let through, in a run.
  unfoldable pub allowed : Text → List Hit → RateLimiter c → ℕ
  allowed key [] rl = 0
  allowed key (h ∷ hits) rl =
      let (rl', ok) = allow_at c h.at h.key rl in
      let rest = allowed key hits rl' in if ok && text_eq h.key key then rest + 1 else rest

-- How many requests have the key.
unfoldable pub requests : Text → List Hit → ℕ
requests key [] = 0
requests key (h ∷ hits) =
    let rest = requests key hits in if text_eq h.key key then rest + 1 else rest

module _ (c : TtlCache) (l : TtlCacheLaws c ℕ) where
  open l use {held, size, capacity}

  -- The first request opens a window.
  first_hit :
      (now : ℕ) (key : Text) (limit window : ℕ)
      → 0 < window
      → let after = allow_at c now key (new_rate_limiter c limit window) in
        IsOpen c l key (now + window) 1 after.0 × (after.1 ≡ true)
  unfolding new_rate_limiter open_window
  first_hit now key limit window pos =
      let new = new_rate_limiter c limit window in
      let absent = l.held-create rate_limiter_max_keys in
      elim (branch c l now key new) [
        | counts i held_i live e ↦ absurd (ground (arith, absent key))
        | opens over e ↦ rw e (
          record {
            entry = record { value = 0; expires_at = now + window };
            entry_held = l.held-set_self now key 0 window (c.get ℕ now key new.store).0 pos;
            entry_expiry = refl;
            counted = refl;
            allocated = λ j i h. elim (held-opened c l now key new pos j i h) [
              | inl (q, v) ↦ omega arith
              | inr before ↦ absurd (ground (arith, absent j))
            ];
            apart = λ j i h p. elim (held-opened c l now key new pos j i h) [
              | inl (q, v) ↦ absurd (p q)
              | inr before ↦ absurd (ground (arith, absent j))
            ];
          },
          refl,
        )
      ]

  -- In an open window whose counter stands at `n`, what is left of the limit is let through.
  allowed-IsOpen :
      (key : Text) (expiry n : ℕ) (hits : List Hit) (rl : RateLimiter c)
      → IsOpen c l key expiry n rl
      → All (λ h. h.key ≡ key → h.at < expiry) hits
      → size rl.store + length hits ≤ capacity rl.store
      → 0 < rl.window
      → n + length hits < 2 ^ 63
      → allowed c key hits rl ≡ min (rl.limit - n) (requests key hits)
  unfolding allowed requests
  allowed-IsOpen key expiry n [] rl o early room pos small = omega arith
  allowed-IsOpen key expiry n (h ∷ hits) rl o (now, early) room pos small =
      let (s, k, m, w) = sizes c l h.at h.key rl in
      let rest : (e' : ℕ)
          → IsOpen c l key expiry e' (allow_at c h.at h.key rl).0
          → e' ≤ n + 1
          → allowed c key hits (allow_at c h.at h.key rl).0
            ≡ min ((allow_at c h.at h.key rl).0.limit - e') (requests key hits) =
        λ e' o' le.
          allowed-IsOpen key expiry e' hits (allow_at c h.at h.key rl).0 o' early (omega arith)
            (omega arith) (omega arith) in
      elim (Bool-cases (text_eq h.key key)) [
        | inl same ↦
            let p = (text_eq_iff h.key key).0 same in
            let (o', ok) =
              inside c l h.at h.key rl (subst (λ q. IsOpen c l q expiry n rl) (sym p) o) (now p)
                (omega arith) in
            ground (
              arith,
              rest (n + 1)
                  (subst (λ q. IsOpen c l q expiry (n + 1) (allow_at c h.at h.key rl).0) p o')
                  (omega arith),
              m,
              ok,
              same,
            )
        | inr differ ↦ ground (
          arith,
          rest n
              (outside c l h.at h.key rl key o (λ p. absurd (ground (arith, text_eq_iff h.key key)))
                (omega arith) pos)
              (omega arith),
          m,
          differ,
        )
      ]

  -- A new limiter, in a run of at most `rate_limiter_max_keys` requests whose requests with the
  -- first one's key all come before the first one's window is over: of the requests with that key
  -- exactly the limit is let through, or all of them if there are fewer.
  pub allowed-window :
      (limit window : ℕ) (first : Hit) (hits : List Hit)
      → 0 < limit
      → 0 < window
      → length hits < rate_limiter_max_keys
      → All (λ h. h.key ≡ first.key → h.at < first.at + window) hits
      → allowed c first.key (first ∷ hits) (new_rate_limiter c limit window)
        ≡ min limit (requests first.key (first ∷ hits))
  unfolding allowed requests new_rate_limiter
  allowed-window limit window first hits some_limit pos room early =
      let new = new_rate_limiter c limit window in
      let (o, ok) = first_hit first.at first.key limit window pos in
      let (s, k, m, w) = sizes c l first.at first.key new in
      ground (
        arith,
        ok,
        m,
        text_eq_refl first.key,
        allowed-IsOpen first.key (first.at + window) 1 hits (allow_at c first.at first.key new).0 o
            early
            (omega
              (arith, l.size-create rate_limiter_max_keys, l.capacity-create rate_limiter_max_keys))
            (omega arith) (omega arith),
      )
