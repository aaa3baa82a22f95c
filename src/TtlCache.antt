-- ===== src/TtlCache.antt =====
-- The interface of the third-party package `jellydator/ttlcache` as the program uses it: a cache
-- with a capacity and `WithDisableTouchOnHit`, so that a hit does not extend an expiry. The package
-- is not part of the repository: it is a parameter, with what its documentation promises as laws.
pub mod Table
use oidc_proxy.Base.{
  ℕ, suc, ◌+◌, ◌≤◌, ◌<◌, ◌≡◌, ◌≢◌, ◌⊎◌, Bool, true, false, Option, none, some, List, [], ◌∷◌, Text,
}

pub record Item (V : Type 0) : Type 0 where
  pub value : V
  pub expires_at : ℕ

-- Times are in nanoseconds. An operation is given the time at which it runs.
pub record TtlCache : Type 1 where
  pub Store : Type 0 → Type 0
  -- `ttlcache.New(WithCapacity(n), WithDisableTouchOnHit())`
  pub create : (V : Type 0) → ℕ → Store V
  -- `c.Get(key)`; the order of use may change.
  pub get : (V : Type 0) → ℕ → Text → Store V → Store V × Option (Item V)
  -- `c.Set(key, value, ttl)`
  pub set : (V : Type 0) → ℕ → Text → V → ℕ → Store V → Store V
  -- `item.IsExpired()`, of the time and the item's expiry
  pub is_expired : ℕ → ℕ → Bool

-- `held` is the entry that the cache holds for a key, expired or not, and `size` counts the entries.
pub record TtlCacheLaws (c : TtlCache) (V : Type 0) : Type 0 where
  pub held : c.Store V → Text → Option (Item V)
  pub size : c.Store V → ℕ
  pub capacity : c.Store V → ℕ
  pub fresh : (now expiry : ℕ) → now < expiry → c.is_expired now expiry ≡ false
  pub stale : (now expiry : ℕ) → expiry < now → c.is_expired now expiry ≡ true
  pub held-create : (n : ℕ) (k : Text) → held (c.create V n) k ≡ none
  pub size-create : (n : ℕ) → size (c.create V n) ≡ 0
  pub capacity-create : (n : ℕ) → capacity (c.create V n) ≡ n
  -- A hit returns the entry that is held, and no entry that has not expired is missed.
  pub get_sound :
      (now : ℕ) (k : Text) (s : c.Store V) (i : Item V)
      → (c.get V now k s).1 ≡ some i
      → held s k ≡ some i
  pub get-hit :
      (now : ℕ) (k : Text) (s : c.Store V) (i : Item V)
      → held s k ≡ some i
      → c.is_expired now i.expires_at ≡ false
      → (c.get V now k s).1 ≡ some i
  -- A read changes no entry.
  pub held-get : (now : ℕ) (k j : Text) (s : c.Store V) → held (c.get V now k s).0 j ≡ held s j
  pub size-get : (now : ℕ) (k : Text) (s : c.Store V) → size (c.get V now k s).0 ≡ size s
  pub capacity-get :
      (now : ℕ) (k : Text) (s : c.Store V) → capacity (c.get V now k s).0 ≡ capacity s
  -- A write stores its entry. It drops another one only to make room.
  pub held-set_self :
      (now : ℕ) (k : Text) (v : V) (ttl : ℕ) (s : c.Store V)
      → 0 < ttl
      → held (c.set V now k v ttl s) k ≡ some (record { value = v; expires_at = now + ttl })
  pub held-set_ne :
      (now : ℕ) (k j : Text) (v : V) (ttl : ℕ) (s : c.Store V)
      → k ≢ j
      → (held (c.set V now k v ttl s) j ≡ held s j) ⊎ (held (c.set V now k v ttl s) j ≡ none)
  pub held-set_room :
      (now : ℕ) (k j : Text) (v : V) (ttl : ℕ) (s : c.Store V)
      → k ≢ j
      → size s < capacity s
      → held (c.set V now k v ttl s) j ≡ held s j
  pub size-set :
      (now : ℕ) (k : Text) (v : V) (ttl : ℕ) (s : c.Store V)
      → size (c.set V now k v ttl s) ≤ suc (size s)
  pub capacity-set :
      (now : ℕ) (k : Text) (v : V) (ttl : ℕ) (s : c.Store V)
      → capacity (c.set V now k v ttl s) ≡ capacity s

-- One of the calls of a function with a cache is for this key at this time.
abbrev pub IsCall : ℕ → Text → List (ℕ × Text) → Type 0
IsCall at key [] = ⊥
IsCall at key ((now, k) ∷ calls) = ((now ≡ at) × (k ≡ key)) ⊎ IsCall at key calls
