-- ===== src/Mcpauth/ReplayGuard.antt =====
-- internal/mcpauth/store.go: the guard that remembers which artifact ids have been consumed.
pub mod Held
pub mod Ledger
pub mod SingleUse
use oidc_proxy.Base.{
  ℕ, Bool, true, false, not, Option, none, some, List, [], ◌∷◌, Text, if◌then◌else◌,
}
use oidc_proxy.TtlCache.{Item, TtlCache}

-- `item != nil && !item.IsExpired()`
abbrev pub is_live : (c : TtlCache) {V : Type 0} → ℕ → Option (Item V) → Bool
is_live c now none = false
is_live c now (some i) = not (c.is_expired now i.expires_at)

module _ (c : TtlCache) where
  -- A guard is its cache; an entry holds no value.
  abbrev pub MemoryReplayGuard : Type 0
  MemoryReplayGuard = c.Store (Unit {0})

  unfoldable pub new_memory_replay_guard : ℕ → MemoryReplayGuard
  new_memory_replay_guard max_size = c.create Unit max_size

  -- `SeenBefore(jti, ttl)` at the time `now`: the guard afterwards, and whether the id was there
  unfoldable pub seen_before : ℕ → Text → ℕ → MemoryReplayGuard → MemoryReplayGuard × Bool
  seen_before now jti ttl g =
      let (g', item) = c.get Unit now jti g in
      if is_live c now item then (g', true) else (c.set Unit now jti tt ttl g', false)
