-- ===== src/Mcpauth/ReplayGuard/SingleUse.antt =====
-- Single use: an id that the guard has let through once is refused until its time is over.
use oidc_proxy.Base.{
  ℕ, suc, ◌+◌, ◌≤◌, ◌<◌, ◌≡◌, ◌≢◌, refl, ◌∙◌, Bool, true, false, none, List, [], ◌∷◌, Text, arith,
  length, All,
}
use oidc_proxy.TtlCache.{TtlCache, TtlCacheLaws}
use oidc_proxy.Mcpauth.ReplayGuard.{MemoryReplayGuard, new_memory_replay_guard, seen_before}
use oidc_proxy.Mcpauth.ReplayGuard.Held.{
  HeldUntil, seen_before-HeldUntil, HeldUntil-seen_before_self, seen_before-none,
  held-seen_before_ne, HeldUntil-seen_before, size-seen_before, capacity-seen_before,
}

-- One call of the guard.
pub record Call : Type 0 where
  pub at : ℕ
  pub jti : Text
  pub ttl : ℕ

module _ (c : TtlCache) where
  -- The answers to calls made one after the other, each beside its call.
  unfoldable pub answers : List Call → MemoryReplayGuard c → List (Call × Bool)
  answers [] g = []
  answers (call ∷ calls) g =
      let (g', seen) = seen_before c call.at call.jti call.ttl g in (call, seen) ∷ answers calls g'

module _ (c : TtlCache) (l : TtlCacheLaws c Unit) where
  open l use {held, size, capacity}

  -- Later calls for an id that is held, while there is room.
  answers-HeldUntil :
      (expiry : ℕ) (jti : Text) (calls : List Call) (g : MemoryReplayGuard c)
      → HeldUntil c l expiry jti g
      → size g + length calls ≤ capacity g
      → All (λ call. 0 < call.ttl) calls
      → All (λ (a : Call × Bool). a.0.jti ≡ jti → a.0.at < expiry → a.1 ≡ true) (answers c calls g)
  unfolding answers
  answers-HeldUntil expiry jti [] g h room pos = tt
  answers-HeldUntil expiry jti (call ∷ calls) g h room (p, pos) = (
    λ same early. seen_before-HeldUntil c l call.at call.jti call.ttl g (rw same h) early,
    answers-HeldUntil expiry jti calls (seen_before c call.at call.jti call.ttl g).0
        (HeldUntil-seen_before c l call.at call.jti call.ttl g jti h (omega arith) p)
        (omega (
          arith,
          size-seen_before c l call.at call.jti call.ttl g,
          capacity-seen_before c l call.at call.jti call.ttl g,
        ))
        pos,
  )

module _ (c : TtlCache) where
  -- The guard after some calls.
  unfoldable pub after_calls : List Call → MemoryReplayGuard c → MemoryReplayGuard c
  after_calls [] g = g
  after_calls (call ∷ calls) g = after_calls calls (seen_before c call.at call.jti call.ttl g).0

module _ (c : TtlCache) (l : TtlCacheLaws c Unit) where
  open l use {held, size, capacity}

  size-after_calls :
      (calls : List Call) (g : MemoryReplayGuard c)
      → size (after_calls c calls g) ≤ size g + length calls
  unfolding after_calls
  size-after_calls [] g = omega arith
  size-after_calls (call ∷ calls) g = omega (
    arith,
    size-after_calls calls (seen_before c call.at call.jti call.ttl g).0,
    size-seen_before c l call.at call.jti call.ttl g,
  )

  capacity-after_calls :
      (calls : List Call) (g : MemoryReplayGuard c) → capacity (after_calls c calls g) ≡ capacity g
  unfolding after_calls
  capacity-after_calls [] g = refl
  capacity-after_calls (call ∷ calls) g =
      capacity-after_calls calls (seen_before c call.at call.jti call.ttl g).0
      ∙ capacity-seen_before c l call.at call.jti call.ttl g

  -- An id that no call names is not held.
  held-after_calls :
      (jti : Text) (calls : List Call) (g : MemoryReplayGuard c)
      → held g jti ≡ none
      → All (λ call. call.jti ≢ jti) calls
      → held (after_calls c calls g) jti ≡ none
  unfolding after_calls
  held-after_calls jti [] g absent others = absent
  held-after_calls jti (call ∷ calls) g absent (other, others) =
      held-after_calls jti calls (seen_before c call.at call.jti call.ttl g).0
        (held-seen_before_ne c l call.at call.jti call.ttl g jti other absent) others

  -- A new guard of size `max_size`, after calls that do not name the id `jti`, lets it through.
  pub first_use :
      (max_size : ℕ) (calls : List Call) (now : ℕ) (jti : Text) (ttl : ℕ)
      → All (λ call. call.jti ≢ jti) calls
      → (seen_before c now jti ttl (after_calls c calls (new_memory_replay_guard c max_size))).1
        ≡ false
  unfolding new_memory_replay_guard
  first_use max_size calls now jti ttl others =
      let g = after_calls c calls (new_memory_replay_guard c max_size) in
      seen_before-none c l now jti ttl g (
        held-after_calls jti calls (new_memory_replay_guard c max_size) (l.held-create max_size jti)
          others)

  -- In a run of at most `max_size` calls on a new guard, each with a positive lifetime: once a call
  -- has let an id through, every later call for the same id that is made before that call's
  -- lifetime is over is refused, whatever the calls in between.
  pub single_use :
      (max_size : ℕ) (before : List Call) (call : Call) (after : List Call)
      → length before + suc (length after) ≤ max_size
      → 0 < call.ttl
      → All (λ later. 0 < later.ttl) after
      → let g = after_calls c before (new_memory_replay_guard c max_size) in
        let answer = seen_before c call.at call.jti call.ttl g in
        answer.1 ≡ false
        → All
            (λ (a : Call × Bool). a.0.jti ≡ call.jti → a.0.at < call.at + call.ttl → a.1 ≡ true)
            (answers c after answer.0)
  unfolding new_memory_replay_guard
  single_use max_size before call after room pos positive accepted =
      let new = new_memory_replay_guard c max_size in
      let g = after_calls c before new in
      answers-HeldUntil c l (call.at + call.ttl) call.jti after
        (seen_before c call.at call.jti call.ttl g).0
        (HeldUntil-seen_before_self c l call.at call.jti call.ttl g pos accepted)
        (omega (
          arith,
          size-seen_before c l call.at call.jti call.ttl g,
          capacity-seen_before c l call.at call.jti call.ttl g,
          size-after_calls before new,
          capacity-after_calls before new,
          l.size-create max_size,
          l.capacity-create max_size,
        ))
        positive
