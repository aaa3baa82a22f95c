-- ===== src/Mcpauth/ReplayGuard/Ledger.antt =====
-- The contract of the interface `ReplayGuard` of internal/mcpauth/store.go, which forgets the cache:
-- a ledger holds for each id the time at which its use is forgotten, and never drops an id.
use oidc_proxy.Base.{
  ℕ, ◌+◌, ◌≤◌, ◌<◌, ◌≡◌, refl, inl, inr, Bool, true, false, not, Option, none, some, List, [], ◌∷◌,
  Text, arith, if◌then◌else◌, length, All, Bool-cases, Option-cases, text_eq, text_eq_iff,
}
use oidc_proxy.TtlCache.{Item, TtlCache, TtlCacheLaws}
use oidc_proxy.Mcpauth.ReplayGuard.{
  is_live, MemoryReplayGuard, new_memory_replay_guard, seen_before,
}
use oidc_proxy.Mcpauth.ReplayGuard.Held.{
  after_get, after_set, seen_before-cases, size-seen_before, capacity-seen_before,
}
use oidc_proxy.Mcpauth.ReplayGuard.SingleUse.{Call, answers}

abbrev pub Ledger : Type 0
Ledger = Text → Option ℕ

abbrev pub empty_ledger : Ledger
empty_ledger = λ jti. none

module _ (c : TtlCache) where
  -- The use of an id counts until it is forgotten.
  abbrev counts : ℕ → Option ℕ → Bool
  counts now none = false
  counts now (some forgotten) = not (c.is_expired now forgotten)

  -- A use of an id at a time: refused while an earlier one counts, else written down.
  unfoldable pub consume : Call → Ledger → Ledger × Bool
  consume call ledger =
      if counts call.at (ledger call.jti)
      then (ledger, true)
      else ((λ jti. if text_eq call.jti jti then some (call.at + call.ttl) else ledger jti), false)

  unfoldable pub ledger_answers : List Call → Ledger → List (Call × Bool)
  ledger_answers [] ledger = []
  ledger_answers (call ∷ calls) ledger =
      let (ledger', used) = consume call ledger in (call, used) ∷ ledger_answers calls ledger'

module _ (c : TtlCache) (l : TtlCacheLaws c Unit) where
  open l use {held, size, capacity}

  -- When the entry of an id is forgotten.
  abbrev forgotten_at : Option (Item (Unit {0})) → Option ℕ
  forgotten_at none = none
  forgotten_at (some i) = some i.expires_at

  -- The guard holds what the ledger has written down.
  abbrev Holds : MemoryReplayGuard c → Ledger → Type 0
  Holds g ledger = (jti : Text) → forgotten_at (held g jti) ≡ ledger jti

  is_live-get :
      (now : ℕ) (jti : Text) (g : MemoryReplayGuard c)
      → is_live c now (c.get Unit now jti g).1 ≡ counts c now (forgotten_at (held g jti))
  is_live-get now jti g = elim (Option-cases (c.get Unit now jti g).1) [
    | inr (i, got) ↦ rw (got, l.get_sound now jti g i got) refl
    | inl missed ↦ elim (Option-cases (held g jti)) [
      | inl absent ↦ rw (missed, absent) refl
      | inr (i, held_i) ↦ elim (Bool-cases (c.is_expired now i.expires_at)) [
        | inl expired ↦ rw (missed, held_i, expired) refl
        | inr fresh ↦ absurd (ground (arith, l.get-hit now jti g i held_i fresh))
      ]
    ]
  ]

  module _ (call : Call) (g : MemoryReplayGuard c) (ledger : Ledger) (holds : Holds g ledger) where
    abbrev next : MemoryReplayGuard c × Bool
    next = seen_before c call.at call.jti call.ttl g

    counts-ledger :
        counts c call.at (ledger call.jti) ≡ is_live c call.at (c.get Unit call.at call.jti g).1
    counts-ledger = rw (is_live-get call.at call.jti g, holds call.jti) refl

    -- A call answers as the ledger does.
    seen_before-consume : next.1 ≡ (consume c call ledger).1
    unfolding consume
    seen_before-consume = elim (seen_before-cases c l call.at call.jti call.ttl g) [
      | inl (e, live) ↦ rw (e, counts-ledger, live) refl
      | inr (e, dead) ↦ rw (e, counts-ledger, dead) refl
    ]

    -- It leaves what the ledger holds afterwards, while there is room.
    Holds-seen_before : size g < capacity g → 0 < call.ttl → Holds next.0 (consume c call ledger).0
    unfolding consume after_get after_set
    Holds-seen_before room pos jti =
        let got = l.held-get call.at call.jti jti g in
        elim (seen_before-cases c l call.at call.jti call.ttl g) [
          | inl (e, live) ↦ rw (e, counts-ledger, live, got) (holds jti)
          | inr (e, dead) ↦ elim (Bool-cases (text_eq call.jti jti)) [
            | inl equal ↦
                let p = (text_eq_iff call.jti jti).0 equal in
                rw
                  (
                    e,
                    counts-ledger,
                    dead,
                    equal,
                    ← p,
                    l.held-set_self call.at call.jti tt call.ttl
                        (after_get c l call.at call.jti call.ttl g) pos,
                  )
                  refl
            | inr differ ↦
                rw
                  (
                    e,
                    counts-ledger,
                    dead,
                    differ,
                    l.held-set_room call.at call.jti jti tt call.ttl
                        (after_get c l call.at call.jti call.ttl g)
                        (λ p. absurd (ground (arith, text_eq_iff call.jti jti)))
                        (omega (
                          arith,
                          l.size-get call.at call.jti g,
                          l.capacity-get call.at call.jti g,
                        )),
                    got,
                  )
                  (holds jti)
          ]
        ]

  -- A run answers as the ledger does.
  answers-Holds :
      (calls : List Call) (g : MemoryReplayGuard c) (ledger : Ledger)
      → Holds g ledger
      → size g + length calls ≤ capacity g
      → All (λ call. 0 < call.ttl) calls
      → answers c calls g ≡ ledger_answers c calls ledger
  unfolding answers ledger_answers
  answers-Holds [] g ledger holds room pos = refl
  answers-Holds (call ∷ calls) g ledger holds room (p, pos) =
      let after = (seen_before c call.at call.jti call.ttl g).0 in
      let rest =
        answers-Holds calls after (consume c call ledger).0
          (Holds-seen_before call g ledger holds (omega arith) p)
          (omega (
            arith,
            size-seen_before c l call.at call.jti call.ttl g,
            capacity-seen_before c l call.at call.jti call.ttl g,
          ))
          pos in
      rw (seen_before-consume call g ledger holds, rest) refl

  -- Over any run of at most `max_size` calls, each with a positive lifetime, a new guard of size
  -- `max_size` gives the answers of a ledger that is empty at first: the cache behind the guard
  -- cannot be told from a record of all uses that counts each until it has expired.
  pub answers-ledger_answers :
      (max_size : ℕ) (calls : List Call)
      → length calls ≤ max_size
      → All (λ call. 0 < call.ttl) calls
      → answers c calls (new_memory_replay_guard c max_size) ≡ ledger_answers c calls empty_ledger
  unfolding new_memory_replay_guard
  answers-ledger_answers max_size calls room pos =
      answers-Holds calls (new_memory_replay_guard c max_size) empty_ledger
        (λ jti. rw (l.held-create max_size jti) refl)
        (omega (arith, l.size-create max_size, l.capacity-create max_size)) pos
