-- ===== src/Cache/Sound.antt =====
-- What the cached verifier answers, over all runs.
use oidc_proxy.Base.{
  ℕ, ◌+◌, ◌-◌, ◌≤◌, ◌<◌, ◌≡◌, ◌⊎◌, inl, inr, refl, sym, ◌∙◌, false, Option, some, Text, arith, ltb,
  ltb→lt, text_eq, text_eq_iff, Bool-cases, Option-cases, ok, err, List, [], ◌∷◌, Message,
  Result-cases,
}
use mathlib.Core.Path.{subst}
use native.Mathlib.Decide.{dec_lt}
use oidc_proxy.TtlCache.{Item, TtlCache, TtlCacheLaws, IsCall}
use oidc_proxy.Token.{Verified, VerifyFunc}
use oidc_proxy.Cache.{Cache, new_cache, verify_and_store, wrap}

module _ (c : TtlCache) (key : Text → Text) (inner : VerifyFunc) where
  -- The states that the cache goes through, with the calls that lead there, the latest first: new, and
  -- after any call.
  pub data Reach : List (ℕ × Text) → Cache c → Type 0 where
    start : (max_size : ℕ) → Reach [] (new_cache c max_size)
    call :
        {calls : List (ℕ × Text)} {s : Cache c} (now : ℕ) (tok : Text)
        → Reach calls s
        → Reach ((now, tok) ∷ calls) (wrap c key inner now tok s).0

  -- One of the calls was for the token `tok`, and the verifier itself accepted it at the time of this
  -- call, with the claims `v` and before their expiry.
  pub record WasVerified (calls : List (ℕ × Text)) (tok : Text) (v : Verified) : Type 0 where
    pub at : ℕ
    pub called : IsCall at tok calls
    pub accepted : inner at tok ≡ ok v
    pub early : at < v.expiry

some_inj : {o : Option (Item Verified)} {i j : Item Verified} → o ≡ some i → o ≡ some j → i ≡ j
some_inj p q = cc

module _ (c : TtlCache) (l : TtlCacheLaws c Verified) (key : Text → Text) (inner : VerifyFunc) where
  open l use {held}

  -- The branches of the code.
  data Branch (now : ℕ) (tok : Text) (s : Cache c) : Type 0 where
    cached :
        (i : Item Verified)
        → held s (key tok) ≡ some i
        → c.is_expired now i.expires_at ≡ false
        → wrap c key inner now tok s ≡ ((c.get Verified now (key tok) s).0, ok i.value)
        → Branch now tok s
    asked :
        wrap c key inner now tok s
          ≡ verify_and_store c key inner now tok (c.get Verified now (key tok) s).0
        → Branch now tok s

  branch : (now : ℕ) (tok : Text) (s : Cache c) → Branch now tok s
  unfolding wrap
  branch now tok s = elim (Option-cases (c.get Verified now (key tok) s).1) [
    | inl missed ↦ asked (rw (missed, wrap) refl)
    | inr (i, got) ↦ elim (Bool-cases (c.is_expired now i.expires_at)) [
      | inl expired ↦ asked (rw (got, expired, wrap) refl)
      | inr live ↦ cached i (l.get_sound now (key tok) s i got) live (rw (got, live, wrap) refl)
    ]
  ]

  -- A call that the cached verifier answers with an error has asked the verifier, which refused the
  -- token with this error, and leaves every entry of the cache as it was.
  pub wrap-error :
      (s : Cache c) (now : ℕ) (tok : Text) (e : Message)
      → (wrap c key inner now tok s).1 ≡ err e
      → (inner now tok ≡ err e) × ((k : Text) → held (wrap c key inner now tok s).0 k ≡ held s k)
  unfolding verify_and_store
  wrap-error s now tok e h = elim (branch now tok s) [
    | cached i held_i live p ↦ absurd (ground arith)
    | asked p ↦ elim (Result-cases (inner now tok)) [
      | inl (v, accepted) ↦ absurd (ground arith)
      | inr (f, failed) ↦
          (ground arith, λ k. rw (p, failed, verify_and_store) (l.held-get now (key tok) k s))
    ]
  ]

module _ (c : TtlCache) (l : TtlCacheLaws c Verified) (key : Text → Text) (inner : VerifyFunc)
    (injective : (a b : Text) → key a ≡ key b → a ≡ b) where
  open l use {held}

  -- Every entry is the outcome of a verification, and expires with the token.
  abbrev IsSound : List (ℕ × Text) → Cache c → Type 0
  IsSound calls s =
      (tok : Text) (i : Item Verified)
      → held s (key tok) ≡ some i
      → WasVerified c key inner calls tok i.value × (i.expires_at ≡ i.value.expiry)

  -- More calls keep what was found in the earlier ones.
  later-IsSound :
      (now : ℕ) (tok : Text) (calls : List (ℕ × Text)) (s : Cache c)
      → IsSound calls s
      → IsSound ((now, tok) ∷ calls) s
  later-IsSound now tok calls s h t i held_i =
      let (was, expiry) = h t i held_i in
      (
        record { at = was.at; called = inr was.called; accepted = was.accepted; early = was.early },
        expiry,
      )

  set-IsSound :
      (calls : List (ℕ × Text)) (now : ℕ) (tok : Text) (v : Verified) (s : Cache c)
      → inner now tok ≡ ok v
      → now < v.expiry
      → IsCall now tok calls
      → IsSound calls s
      → IsSound calls (c.set Verified now (key tok) v (v.expiry - now) s)
  set-IsSound calls now tok v s accepted valid is_call h t i held_i =
      elim (Bool-cases (text_eq (key tok) (key t))) [
        | inl same ↦
            let p = injective tok t ((text_eq_iff (key tok) (key t)).0 same) in
            let e = some_inj held_i (
              subst
                (λ q. held (c.set Verified now (key tok) v (v.expiry - now) s) (key q) ≡ some new) p
                (l.held-set_self now (key tok) v (v.expiry - now) s (omega arith))) in
            (
              record {
                at = now;
                called = subst (λ q. IsCall now q calls) p is_call;
                accepted = ground (arith, accepted, p, e);
                early = ground (arith, e);
              },
              ground (arith, e),
            )
        | inr differ ↦
            elim (l.held-set_ne now (key tok) (key t) v (v.expiry - now) s
              (λ p. absurd (ground (arith, text_eq_iff (key tok) (key t))))) [
                | inl kept ↦ h t i (sym kept ∙ held_i)
                | inr dropped ↦ absurd (ground arith)
              ]
      ]
    where
      new : Item Verified
      new = record { value = v; expires_at = now + (v.expiry - now) }

  verify_and_store-IsSound :
      (calls : List (ℕ × Text)) (now : ℕ) (tok : Text) (s : Cache c)
      → IsCall now tok calls
      → IsSound calls s
      → IsSound calls (verify_and_store c key inner now tok s).0
  unfolding verify_and_store
  verify_and_store-IsSound calls now tok s is_call h = elim (Result-cases (inner now tok)) [
    | inr (e, failed) ↦ rw (failed, verify_and_store) h
    | inl (v, accepted) ↦ elim (Bool-cases (ltb now v.expiry)) [
      | inr past ↦ rw (accepted, past, verify_and_store) h
      | inl valid ↦
          rw (accepted, valid, verify_and_store)
            (set-IsSound calls now tok v s accepted (ltb→lt now v.expiry valid) is_call h)
    ]
  ]

  get-IsSound :
      (calls : List (ℕ × Text)) (now : ℕ) (k : Text) (s : Cache c)
      → IsSound calls s
      → IsSound calls (c.get Verified now k s).0
  get-IsSound calls now k s h t i held_i = h t i (sym (l.held-get now k (key t) s) ∙ held_i)

  Reach-IsSound :
      {calls : List (ℕ × Text)} {s : Cache c} → Reach c key inner calls s → IsSound calls s
  unfolding new_cache
  Reach-IsSound (start max_size) =
      λ t i held_i. absurd (ground (arith, l.held-create max_size (key t)))
  Reach-IsSound (call {calls} {s} now tok r) =
      let all = (now, tok) ∷ calls in
      let before = later-IsSound now tok calls s (Reach-IsSound r) in
      elim (branch c l key inner now tok s) [
        | cached i held_i live e ↦ rw e (get-IsSound all now (key tok) s before)
        | asked e ↦ rw e (
            verify_and_store-IsSound all now tok (c.get Verified now (key tok) s).0
              (inl (refl, refl)) (get-IsSound all now (key tok) s before))
      ]

  -- In every state that a run of calls leads to from a new cache, an answer `ok v` of the cached
  -- verifier means that the verifier accepts the token with the claims `v` now, or that one of the
  -- calls of the run was for this same token, the verifier accepts it with `v` at the time of that
  -- call, and the expiry of `v` has not passed. The digest is taken to be injective.
  pub wrap_sound :
      {calls : List (ℕ × Text)} {s : Cache c} (now : ℕ) (tok : Text) (v : Verified)
      → Reach c key inner calls s
      → (wrap c key inner now tok s).1 ≡ ok v
      → (inner now tok ≡ ok v) ⊎ (WasVerified c key inner calls tok v × (now ≤ v.expiry))
  unfolding verify_and_store
  wrap_sound {calls} {s} now tok v r h = elim (branch c l key inner now tok s) [
    | cached i held_i live e ↦
        let (was, expiry) = Reach-IsSound r tok i held_i in
        inr (
          subst (λ w. WasVerified c key inner calls tok w) (ground arith) was,
          elim (dec_lt i.expires_at now) [
            | yes late ↦ absurd (ground (arith, l.stale now i.expires_at late))
            | no late ↦ ground arith
          ],
        )
    | asked e ↦ elim (Result-cases (inner now tok)) [
      | inl (w, accepted) ↦ inl (ground arith)
      | inr (f, failed) ↦ absurd (ground arith)
    ]
  ]
