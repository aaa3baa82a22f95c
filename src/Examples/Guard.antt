-- ===== src/Examples/Guard.antt =====
-- The caches: the replay guard, the verify cache, the rate limiter and the metadata cache.
use oidc_proxy.Base.{
  ℕ, ◌≤◌, ◌<◌, ◌≡◌, ◌⊎◌, refl, Bool, true, false, map, List, [], ◌∷◌, Text, arith, codes, All,
  message, ok, err, text_eq, if◌then◌else◌,
}
use Prim.Native.Nat.{min}
use oidc_proxy.TtlCache.Table.{table_cache, table_laws, lookup, remove}
use oidc_proxy.Mcpauth.ReplayGuard.{new_memory_replay_guard, seen_before}
use oidc_proxy.Mcpauth.ReplayGuard.Ledger.{
  empty_ledger, consume, ledger_answers, answers-ledger_answers,
}
use oidc_proxy.Mcpauth.ReplayGuard.SingleUse.{Call, answers, after_calls, single_use}
use oidc_proxy.Token.{Verified, VerifyFunc}
use oidc_proxy.Cache.{new_cache, verify_and_store, wrap}
use oidc_proxy.Cache.Sound.{Reach, WasVerified, wrap_sound}
use oidc_proxy.Web.RateLimiter.{new_rate_limiter, allow_at, hit, open_window}
use oidc_proxy.Web.RateLimiter.Window.{Hit, allowed, requests, allowed-window}

abbrev first_call : Call
first_call = record { at = 5; jti = codes "a"; ttl = 10 }

abbrev other_call : Call
other_call = record { at = 6; jti = codes "b"; ttl = 10 }

abbrev second_call : Call
second_call = record { at = 14; jti = codes "a"; ttl = 10 }

single_use_example :
    All
      (λ (a : Call × Bool). a.0.jti ≡ codes "a" → a.0.at < 15 → a.1 ≡ true)
      (answers table_cache
        (other_call ∷ second_call ∷ [])
        (seen_before table_cache 5 (codes "a") 10 (new_memory_replay_guard table_cache 4)).0)
unfolding after_calls seen_before new_memory_replay_guard lookup codes
single_use_example =
    single_use table_cache (table_laws Unit) 4 [] first_call (other_call ∷ second_call ∷ [])
      (omega arith) (omega arith) (omega arith, (omega arith, tt)) refl

-- The id "a" is used at 5 until 15, refused at 14, and free again at 20.
abbrev calls : List Call
calls = first_call ∷ other_call ∷ second_call ∷ record second_call { at = 20 } ∷ []

answers-ledger_answers_example :
    answers table_cache calls (new_memory_replay_guard table_cache 4)
    ≡ ledger_answers table_cache calls empty_ledger
answers-ledger_answers_example =
    answers-ledger_answers table_cache (table_laws Unit) 4 calls (omega arith)
      (omega arith, (omega arith, (omega arith, (omega arith, tt))))

ledger_answers_test :
    map (λ (a : Call × Bool). a.1) (ledger_answers table_cache calls empty_ledger)
    ≡ false ∷ false ∷ true ∷ false ∷ []
unfolding ledger_answers consume codes text_eq
ledger_answers_test = refl

abbrev alice : Verified
alice = record { subject = codes "u1"; email = codes "a@x"; nonce = []; expiry = 100 }

-- Accepts one token until its expiry.
abbrev verifier : VerifyFunc
verifier now tok = if text_eq tok (codes "good") then ok alice else err (message "bad token")

wrap_sound_example :
    (verifier 7 (codes "good") ≡ ok alice)
    ⊎ (WasVerified table_cache (λ t. t) verifier ((3, codes "good") ∷ []) (codes "good") alice
        × (7 ≤ 100))
unfolding wrap new_cache verify_and_store lookup remove text_eq codes
wrap_sound_example =
    wrap_sound table_cache (table_laws Verified) (λ t. t) verifier (λ a b e. e)
      {s = (wrap table_cache (λ t. t) verifier 3 (codes "good") (new_cache table_cache 8)).0} 7
      (codes "good") alice (Reach.call 3 (codes "good") (Reach.start 8)) refl

abbrev hit_at : ℕ → Text → Hit
hit_at now key = record { at = now; key = key }

abbrev more_hits : List Hit
more_hits = hit_at 1 (codes "b") ∷ hit_at 2 (codes "a") ∷ hit_at 3 (codes "a") ∷ []

allowed-window_example :
    allowed table_cache
      (codes "a")
      (hit_at 0 (codes "a") ∷ more_hits)
      (new_rate_limiter table_cache 2 60)
    ≡ min 2 (requests (codes "a") (hit_at 0 (codes "a") ∷ more_hits))
allowed-window_example =
    allowed-window table_cache (table_laws ℕ) 2 60 (hit_at 0 (codes "a")) more_hits (omega arith)
      (omega arith) (omega arith)
      ((λ e. omega arith), ((λ e. omega arith), ((λ e. omega arith), tt)))

-- Three requests of one key with the limit two: two pass.
allowed_test :
    allowed table_cache
      (codes "a")
      (hit_at 0 (codes "a") ∷ more_hits)
      (new_rate_limiter table_cache 2 60)
    ≡ 2
unfolding allowed allow_at new_rate_limiter hit open_window lookup remove codes text_eq
allowed_test = refl
