-- ===== src/Web/RateLimiter/Steps.antt =====
-- What one request does to an open window, and to the counters.
use oidc_proxy.Base.{
  ℕ, suc, ◌+◌, ◌^◌, ◌≤◌, ◌<◌, ◌≡◌, ◌≢◌, refl, sym, ap, ◌%◌, ◌∙◌, inl, inr, ◌⊎◌, false, Option, some,
  Text, arith, Bool-cases, Option-cases, text_eq, text_eq_iff, leb,
}
use mathlib.Core.Path.{subst}
use native.Mathlib.Decide.{dec_lt}
use oidc_proxy.TtlCache.{Item, TtlCache, TtlCacheLaws}
use oidc_proxy.Web.RateLimiter.{RateLimiter, hit, open_window, allow_at}

some_inj : {o : Option (Item ℕ)} {i j : Item ℕ} → o ≡ some i → o ≡ some j → i ≡ j
some_inj p q = cc

-- `Add(1)` on a counter that is far from its limit.
counter_step : (m n : ℕ) → m ≡ n → n + 1 < 2 ^ 63 → (m + 1) % 2 ^ 64 ≡ n + 1
counter_step m n e h = omega arith

module _ (c : TtlCache) (l : TtlCacheLaws c ℕ) where
  open l use {held, size, capacity}

  -- The window of `key` is open until `expiry`, its counter stands at `n`, and no other key shares
  -- the counter.
  pub record IsOpen (key : Text) (expiry n : ℕ) (rl : RateLimiter c) : Type 0 where
    pub entry : Item ℕ
    pub entry_held : held rl.store key ≡ some entry
    pub entry_expiry : entry.expires_at ≡ expiry
    pub counted : rl.counters entry.value ≡ n
    pub allocated : (j : Text) (i : Item ℕ) → held rl.store j ≡ some i → i.value < rl.next
    pub apart : (j : Text) (i : Item ℕ) → held rl.store j ≡ some i → j ≢ key → i.value ≢ entry.value

  -- The branches of the code.
  pub data Branch (now : ℕ) (key : Text) (rl : RateLimiter c) : Type 0 where
    counts :
        (i : Item ℕ)
        → held rl.store key ≡ some i
        → c.is_expired now i.expires_at ≡ false
        → allow_at c now key rl ≡ hit c (c.get ℕ now key rl.store).0 i.value rl
        → Branch now key rl
    opens :
        ((i : Item ℕ) → held rl.store key ≡ some i → i.expires_at ≤ now)
        → allow_at c now key rl ≡ open_window c now key (c.get ℕ now key rl.store).0 rl
        → Branch now key rl

  -- An entry that has not expired is found.
  found :
      (now : ℕ) (key : Text) (rl : RateLimiter c) (i : Item ℕ)
      → held rl.store key ≡ some i
      → now < i.expires_at
      → (c.get ℕ now key rl.store).1 ≡ some i
  found now key rl i held_i h = l.get-hit now key rl.store i held_i (l.fresh now i.expires_at h)

  pub branch : (now : ℕ) (key : Text) (rl : RateLimiter c) → Branch now key rl
  unfolding allow_at
  branch now key rl = elim (Option-cases (c.get ℕ now key rl.store).1) [
    | inl missed ↦
        opens
          (λ i held_i. elim (dec_lt now i.expires_at) [
            | yes h ↦ absurd (ground (arith, found now key rl i held_i h))
            | no h ↦ omega arith
          ])
          (rw (missed, allow_at) refl)
    | inr (i, got) ↦
        let held_i = l.get_sound now key rl.store i got in
        elim (Bool-cases (c.is_expired now i.expires_at)) [
          | inl expired ↦
              opens
                (λ j held_j. elim (dec_lt now j.expires_at) [
                  | yes h ↦
                      absurd (ground (arith, l.fresh now i.expires_at, some_inj held_i held_j))
                  | no h ↦ omega arith
                ])
                (rw (got, expired, allow_at) refl)
          | inr live ↦ counts i held_i live (rw (got, live, allow_at) refl)
        ]
  ]

  module _ (now : ℕ) (k : Text) (rl : RateLimiter c) where
    pub sizes :
        (size (allow_at c now k rl).0.store ≤ suc (size rl.store))
        × (capacity (allow_at c now k rl).0.store ≡ capacity rl.store)
        × ((allow_at c now k rl).0.limit ≡ rl.limit)
        × ((allow_at c now k rl).0.window ≡ rl.window)
    unfolding hit open_window
    sizes = elim (branch now k rl) [
      | counts i held_i live e ↦
          rw e (omega (arith, l.size-get now k rl.store), l.capacity-get now k rl.store, refl, refl)
      | opens over e ↦
          let store = (c.get ℕ now k rl.store).0 in
          rw e (
            omega (arith, l.size-get now k rl.store, l.size-set now k rl.next rl.window store),
            l.capacity-set now k rl.next rl.window store ∙ l.capacity-get now k rl.store,
            refl,
            refl,
          )
    ]

    -- The entries after a window has been opened for `k`.
    pub held-opened :
        0 < rl.window
        → (j : Text) (i : Item ℕ)
        → held (c.set ℕ now k rl.next rl.window (c.get ℕ now k rl.store).0) j ≡ some i
        → ((j ≡ k) × (i.value ≡ rl.next)) ⊎ (held rl.store j ≡ some i)
    held-opened pos j i h =
        let store = (c.get ℕ now k rl.store).0 in
        elim (Bool-cases (text_eq k j)) [
          | inl same ↦
              let p = (text_eq_iff k j).0 same in
              inl (
                sym p,
                ground (
                  arith,
                  some_inj (l.held-set_self now k rl.next rl.window store pos) (
                      subst (λ t. held (c.set ℕ now k rl.next rl.window store) t ≡ some i) (sym p)
                        h),
                ),
              )
          | inr differ ↦
              elim (l.held-set_ne now k j rl.next rl.window store
                (λ p. absurd (ground (arith, text_eq_iff k j)))) [
                  | inl kept ↦ inr (sym (l.held-get now k j rl.store) ∙ sym kept ∙ h)
                  | inr dropped ↦ absurd (ground arith)
                ]
        ]

    -- A request inside the window counts, and is let through up to the limit.
    pub inside :
        {expiry n : ℕ}
        → IsOpen k expiry n rl
        → now < expiry
        → n + 1 < 2 ^ 63
        → IsOpen k expiry (n + 1) (allow_at c now k rl).0
          × ((allow_at c now k rl).1 ≡ leb (n + 1) rl.limit)
    unfolding hit
    inside {n} o early small = elim (branch now k rl) [
      | counts i held_i live e ↦
          let same = some_inj held_i o.entry_held in
          let m =
            counter_step (rl.counters i.value) n
              (ap (λ (j : Item ℕ). rl.counters j.value) same ∙ o.counted) small in
          rw e (
            record {
              entry = o.entry;
              entry_held = l.held-get now k k rl.store ∙ o.entry_held;
              entry_expiry = o.entry_expiry;
              counted = ground (arith, m, same);
              allocated = λ j i' h. o.allocated j i' (sym (l.held-get now k j rl.store) ∙ h);
              apart = λ j i' h. o.apart j i' (sym (l.held-get now k j rl.store) ∙ h);
            },
            rw m (ground arith),
          )
      | opens over e ↦ absurd (omega (arith, over o.entry o.entry_held, o.entry_expiry))
    ]

    -- A request for another key leaves the window as it is, while there is room.
    pub outside :
        {expiry n : ℕ} (key : Text)
        → IsOpen key expiry n rl
        → k ≢ key
        → size rl.store < capacity rl.store
        → 0 < rl.window
        → IsOpen key expiry n (allow_at c now k rl).0
    unfolding hit open_window
    outside key o differ room pos = elim (branch now k rl) [
      | counts i held_i live e ↦
          let other = o.apart k i held_i differ in
          rw e (record {
            entry = o.entry;
            entry_held = l.held-get now k key rl.store ∙ o.entry_held;
            entry_expiry = o.entry_expiry;
            counted = ground (arith, o.counted);
            allocated = λ j i' h. o.allocated j i' (sym (l.held-get now k j rl.store) ∙ h);
            apart = λ j i' h. o.apart j i' (sym (l.held-get now k j rl.store) ∙ h);
          })
      | opens over e ↦
          let old = o.allocated key o.entry o.entry_held in
          rw e (record {
            entry = o.entry;
            entry_held =
                l.held-set_room now k key rl.next rl.window (c.get ℕ now k rl.store).0 differ
                  (omega (arith, l.size-get now k rl.store, l.capacity-get now k rl.store))
                ∙ l.held-get now k key rl.store
                ∙ o.entry_held;
            entry_expiry = o.entry_expiry;
            counted = ground (arith, o.counted, old);
            allocated = λ j i' h. elim (held-opened pos j i' h) [
              | inl (q, v) ↦ omega arith
              | inr before ↦ omega (arith, o.allocated j i' before)
            ];
            apart = λ j i' h p. elim (held-opened pos j i' h) [
              | inl (q, v) ↦ omega arith
              | inr before ↦ o.apart j i' before p
            ];
          })
    ]
