-- ===== src/Cache.antt =====
-- internal/cache/cache.go: the cache in front of the verifier, keyed by a digest of the token.
pub mod Sound
use oidc_proxy.Base.{ℕ, ◌-◌, Option, none, some, Text, Result, ok, err, ltb, if◌then◌else◌}
use oidc_proxy.TtlCache.{Item, TtlCache}
use oidc_proxy.Token.{Verified, VerifyFunc}

module _ (c : TtlCache) where
  abbrev pub Cache : Type 0
  Cache = c.Store Verified

  -- `New(maxSize)`
  unfoldable pub new_cache : ℕ → Cache
  new_cache max_size = c.create Verified max_size

  module _ (key : Text → Text) (inner : VerifyFunc) where
    -- A call of the wrapped verifier that the cache does not answer.
    unfoldable pub verify_and_store : ℕ → Text → Cache → Cache × Result Verified
    verify_and_store now tok s = elim (inner now tok) [
      | ok v ↦ (
        (if ltb now v.expiry then c.set Verified now (key tok) v (v.expiry - now) s else s),
        ok v,
      )
      | err e ↦ (s, err e)
    ]

    -- The verifier that `Wrap(inner, c)` returns, at the time `now`. `key` is the base64url form of
    -- the token's SHA-256 digest.
    unfoldable pub wrap : ℕ → Text → Cache → Cache × Result Verified
    wrap now tok s =
        let (s', item) = c.get Verified now (key tok) s in
        elim item [
          | none ↦ verify_and_store now tok s'
          | some i ↦
              if c.is_expired now i.expires_at
              then verify_and_store now tok s'
              else (s', ok i.value)
        ]
