-- ===== src/Web/RateLimiter.antt =====
-- internal/web/ratelimit.go: the fixed-window limiter of the unauthenticated endpoints.
pub mod Steps
pub mod Window
use oidc_proxy.Base.{
  ℕ, ◌+◌, ◌%◌, ◌^◌, Bool, true, Option, none, some, ◌||◌, Text, leb, ◌==◌, if◌then◌else◌,
}
use oidc_proxy.TtlCache.{Item, TtlCache}
use oidc_proxy.Mcpauth.ReplayGuard.{is_live}

abbrev pub rate_limiter_max_keys : ℕ
rate_limiter_max_keys = 16384

-- The counters (`*atomic.Int64`) live on a heap: `counters` maps an address to the bits of the
-- counter, and the addresses from `next` on are not yet allocated.
pub record RateLimiter (c : TtlCache) : Type 0 where
  pub store : c.Store ℕ
  pub counters : ℕ → ℕ
  pub next : ℕ
  pub limit : ℕ
  pub window : ℕ

-- `n <= limit` on an `int64` that is given by its bits
abbrev pub le_int64 : ℕ → ℕ → Bool
le_int64 n limit = leb (2 ^ 63) n || leb n limit

abbrev pub update : (ℕ → ℕ) → ℕ → ℕ → ℕ → ℕ
update h p v q = if q == p then v else h q

module _ (c : TtlCache) where
  unfoldable pub new_rate_limiter : ℕ → ℕ → RateLimiter c
  new_rate_limiter limit window = record {
    store = c.create ℕ rate_limiter_max_keys;
    counters = λ p. 0;
    next = 0;
    limit = limit;
    window = window;
  }

  -- `item.Value().Add(1) <= rl.limit`, on the counter at `p`
  unfoldable pub hit : c.Store ℕ → ℕ → RateLimiter c → RateLimiter c × Bool
  hit store p rl =
      let n = (rl.counters p + 1) % 2 ^ 64 in
      (record rl { store = store; counters = update rl.counters p n }, le_int64 n rl.limit)

  -- A counter of its own with the value 1, kept for one window.
  unfoldable pub open_window : ℕ → Text → c.Store ℕ → RateLimiter c → RateLimiter c × Bool
  open_window now key store rl = (
    record rl {
      store = c.set ℕ now key rl.next rl.window store;
      counters = update rl.counters rl.next 1;
      next = rl.next + 1;
    },
    true,
  )

  unfoldable pub allow_at : ℕ → Text → RateLimiter c → RateLimiter c × Bool
  allow_at now key rl =
      let (store, item) = c.get ℕ now key rl.store in
      elim item [
        | none ↦ open_window now key store rl
        | some i ↦
            if is_live c now (some i) then hit store i.value rl else open_window now key store rl
      ]

  -- `allow(key)` at the time `now`; a nil limiter allows everything.
  unfoldable pub allow : ℕ → Text → Option (RateLimiter c) → Option (RateLimiter c) × Bool
  allow now key none = (none, true)
  allow now key (some rl) = let (rl', ok) = allow_at now key rl in (some rl', ok)
