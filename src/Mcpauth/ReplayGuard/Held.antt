-- ===== src/Mcpauth/ReplayGuard/Held.antt =====
-- How long the guard holds an id.
use oidc_proxy.Base.{
  ℕ, suc, ◌+◌, ◌≤◌, ◌<◌, ◌≡◌, ◌≢◌, refl, ◌∙◌, inl, inr, ◌⊎◌, true, false, none, some, Text, arith,
  Bool-cases, Option-cases, text_eq, text_eq_iff,
}
use native.Mathlib.Decide.{dec_lt}
use oidc_proxy.TtlCache.{Item, TtlCache, TtlCacheLaws}
use oidc_proxy.Mcpauth.ReplayGuard.{is_live, MemoryReplayGuard, seen_before}

module _ (c : TtlCache) (l : TtlCacheLaws c Unit) where
  open l use {held, size, capacity}

  -- The id is held until `expiry` at least.
  abbrev pub HeldUntil : ℕ → Text → MemoryReplayGuard c → Type 0
  HeldUntil expiry jti g = (i : Item (Unit {0})) × (held g jti ≡ some i) × (expiry ≤ i.expires_at)

  module _ (now : ℕ) (jti : Text) (ttl : ℕ) (g : MemoryReplayGuard c) where
    unfoldable pub after_get : MemoryReplayGuard c
    after_get = (c.get Unit now jti g).0

    unfoldable pub after_set : MemoryReplayGuard c
    after_set = c.set Unit now jti tt ttl after_get

    -- The two branches of the code.
    pub seen_before-cases :
        ((seen_before c now jti ttl g ≡ (after_get, true))
          × (is_live c now (c.get Unit now jti g).1 ≡ true))
        ⊎ ((seen_before c now jti ttl g ≡ (after_set, false))
            × (is_live c now (c.get Unit now jti g).1 ≡ false))
    unfolding seen_before after_get after_set
    seen_before-cases = elim (Bool-cases (is_live c now (c.get Unit now jti g).1)) [
      | inl live ↦ inl (rw live refl, live)
      | inr dead ↦ inr (rw dead refl, dead)
    ]

    -- While the id is held, it is refused.
    pub seen_before-HeldUntil :
        {expiry : ℕ}
        → HeldUntil expiry jti g
        → now < expiry
        → (seen_before c now jti ttl g).1 ≡ true
    unfolding seen_before
    seen_before-HeldUntil (i, held_i, later) h =
        let e = l.fresh now i.expires_at (omega arith) in
        rw (l.get-hit now jti g i held_i e, e) refl

    -- An id that is let through is held for its time.
    pub HeldUntil-seen_before_self :
        0 < ttl
        → (seen_before c now jti ttl g).1 ≡ false
        → HeldUntil (now + ttl) jti (seen_before c now jti ttl g).0
    unfolding after_set
    HeldUntil-seen_before_self pos h = elim seen_before-cases [
      | inl (e, live) ↦ absurd (ground arith)
      | inr (e, dead) ↦ rw e (
        (record { value = tt; expires_at = now + ttl }),
        l.held-set_self now jti tt ttl after_get pos,
        omega arith,
      )
    ]

    -- An id that is not held is let through.
    pub seen_before-none : held g jti ≡ none → (seen_before c now jti ttl g).1 ≡ false
    unfolding seen_before
    seen_before-none absent = elim (Option-cases (c.get Unit now jti g).1) [
      | inl missed ↦ rw missed refl
      | inr (i, got) ↦ absurd (ground (arith, l.get_sound now jti g i got))
    ]

    -- A call for another id does not bring an id in.
    pub held-seen_before_ne :
        (other : Text)
        → jti ≢ other
        → held g other ≡ none
        → held (seen_before c now jti ttl g).0 other ≡ none
    unfolding after_get after_set
    held-seen_before_ne other differ absent = elim seen_before-cases [
      | inl (e, live) ↦ rw e (l.held-get now jti other g ∙ absent)
      | inr (e, dead) ↦ rw e (elim (l.held-set_ne now jti other tt ttl after_get differ) [
        | inl kept ↦ kept ∙ l.held-get now jti other g ∙ absent
        | inr dropped ↦ dropped
      ])
    ]

    -- An id that the guard lets through was not held beyond the present.
    expiry-le :
        (i : Item (Unit {0}))
        → held g jti ≡ some i
        → is_live c now (c.get Unit now jti g).1 ≡ false
        → i.expires_at ≤ now
    expiry-le i held_i dead = elim (dec_lt now i.expires_at) [
      | yes h ↦
          let e = l.fresh now i.expires_at h in
          absurd (ground (arith, l.get-hit now jti g i held_i e, e))
      | no h ↦ omega arith
    ]

    -- A call for any id, made while there is room, leaves an id that is held as it is, or later.
    pub HeldUntil-seen_before :
        {expiry : ℕ} (other : Text)
        → HeldUntil expiry other g
        → size g < capacity g
        → 0 < ttl
        → HeldUntil expiry other (seen_before c now jti ttl g).0
    unfolding after_get after_set
    HeldUntil-seen_before other (i, held_i, later) room pos = elim seen_before-cases [
      | inl (e, live) ↦ rw e (i, l.held-get now jti other g ∙ held_i, later)
      | inr (e, dead) ↦ elim (Bool-cases (text_eq jti other)) [
        | inl same ↦
            let p = (text_eq_iff jti other).0 same in
            rw (e, ← p)
              (
                record { value = tt; expires_at = now + ttl },
                l.held-set_self now jti tt ttl after_get pos,
                omega (arith, expiry-le i (rw p held_i) dead),
              )
        | inr differ ↦ rw e (
          i,
          l.held-set_room now jti other tt ttl after_get
                (λ p. absurd (ground (arith, text_eq_iff jti other)))
                (omega (arith, l.size-get now jti g, l.capacity-get now jti g))
              ∙ l.held-get now jti other g
              ∙ held_i,
          later,
        )
      ]
    ]

    pub size-seen_before : size (seen_before c now jti ttl g).0 ≤ suc (size g)
    unfolding after_get after_set
    size-seen_before = elim seen_before-cases [
      | inl (e, live) ↦ rw e (omega (arith, l.size-get now jti g))
      | inr (e, dead) ↦
          rw e (omega (arith, l.size-get now jti g, l.size-set now jti tt ttl after_get))
    ]

    pub capacity-seen_before : capacity (seen_before c now jti ttl g).0 ≡ capacity g
    unfolding after_get after_set
    capacity-seen_before = elim seen_before-cases [
      | inl (e, live) ↦ rw e (l.capacity-get now jti g)
      | inr (e, dead) ↦ rw e (l.capacity-set now jti tt ttl after_get ∙ l.capacity-get now jti g)
    ]
