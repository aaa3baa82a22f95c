-- ===== src/Mcpauth/Cimd/Sound.antt =====
-- What a resolved client ID metadata document has passed, over all states of the cache.
use mathlib.Core.Path.{subst}
use oidc_proxy.Base.{
  ℕ, ◌+◌, ◌<◌, ◌≤◌, ◌*◌, ◌⊎◌, not, ◌&&◌, false, is_empty, is_empty_sound, codes, ◌≡◌, ◌≢◌, inl, inr,
  refl, sym, ◌∙◌, true, Option, none, some, List, [], ◌∷◌, Text, arith, text_eq, text_eq_iff,
  trim_space, All, Bool-cases, Option-cases, Result-cases, Message, ok, err,
}
use oidc_proxy.TtlCache.{Item, TtlCache, TtlCacheLaws, IsCall}
use oidc_proxy.Url.{Url, hostname}
use oidc_proxy.Mcpauth.RedirectUri.{validate_redirect_uri, validate_cimd_url}
use oidc_proxy.Mcpauth.Cimd.Duration.{cache_ttl_bounds, cimd_negative_ttl}
use oidc_proxy.Mcpauth.Cimd.{
  HttpResponse, ClientMetadata, CimdEntry, resolved, failed, CimdDocument, invalid_redirect,
  validate_document, host_allowed, CimdResolver, fetch, CimdCache, fetch_and_store, cached, resolve,
}

-- The metadata is that of a document which, when one of the calls for this client_id was made, the
-- client_id's host has served, with status 200 and a body of at most 32 KiB, and which names this
-- client_id itself and no client authentication; it has a name, and redirect URIs that would all be
-- accepted at registration.
pub record IsVouched (r : CimdResolver) (calls : List (ℕ × Text)) (client_id : Text)
    (meta : ClientMetadata) : Type 0 where
  pub fetched_at : ℕ
  pub called : IsCall fetched_at client_id calls
  pub response : HttpResponse
  pub document : CimdDocument
  pub fetched : r.fetch_url fetched_at client_id ≡ ok response
  pub accepted : response.status ≡ 200
  pub decoded : response.document ≡ some document
  pub own_id : document.client_id ≡ client_id
  pub same_id : meta.client_id ≡ client_id
  pub same_name : meta.client_name ≡ document.client_name
  pub same_redirects : meta.redirect_uris ≡ document.redirect_uris
  pub named : trim_space meta.client_name ≢ []
  pub some_redirect : meta.redirect_uris ≢ []
  pub valid_redirects : All (λ uri. validate_redirect_uri uri ≡ none) meta.redirect_uris
  pub from_document : meta.cimd ≡ true
  pub readable : response.readable ≡ true
  pub bounded : response.body_length ≤ 32 * 1024
  pub public_client :
      (document.token_endpoint_auth_method ≡ [])
      ⊎ (document.token_endpoint_auth_method ≡ codes "none")

invalid_redirect-none :
    (uris : List Text)
    → invalid_redirect uris ≡ none
    → All (λ uri. validate_redirect_uri uri ≡ none) uris
unfolding invalid_redirect
invalid_redirect-none [] h = tt
invalid_redirect-none (uri ∷ uris) h = elim (Option-cases (validate_redirect_uri uri)) [
  | inl valid ↦ (valid, invalid_redirect-none uris (ground arith))
  | inr (e, bad) ↦ absurd (ground arith)
]

-- The test that a document names no other authentication method than "none".
public_method :
    (method : Text)
    → (not (is_empty method) && not (text_eq method (codes "none"))) ≡ false
    → (method ≡ []) ⊎ (method ≡ codes "none")
public_method method h = elim (Bool-cases (is_empty method)) [
  | inl e ↦ inl (is_empty_sound method e)
  | inr filled ↦ inr ((text_eq_iff method (codes "none")).0 (ground arith))
]

validate_document-IsVouched :
    (r : CimdResolver) (calls : List (ℕ × Text)) (now : ℕ) (response : HttpResponse)
    (d : CimdDocument) (client_id : Text) (meta : ClientMetadata)
    → IsCall now client_id calls
    → r.fetch_url now client_id ≡ ok response
    → response.status ≡ 200
    → response.document ≡ some d
    → response.readable ≡ true
    → response.body_length ≤ 32 * 1024
    → validate_document d client_id ≡ ok meta
    → IsVouched r calls client_id meta
unfolding validate_document
validate_document-IsVouched r calls now response d client_id meta called got accepted decoded
      readable bounded h =
    elim (Option-cases (invalid_redirect d.redirect_uris)) [
      | inr (e, bad) ↦ absurd (ground arith)
      | inl valid ↦
          let name : meta.client_name ≡ d.client_name = ground arith in
          let uris : meta.redirect_uris ≡ d.redirect_uris = ground arith in
          record {
            fetched_at = now;
            called = called;
            response = response;
            document = d;
            fetched = got;
            accepted = accepted;
            decoded = decoded;
            own_id = (text_eq_iff d.client_id client_id).0 (ground arith);
            same_id = ground arith;
            same_name = name;
            same_redirects = uris;
            named = λ e. absurd (ground (arith, name));
            some_redirect = λ e. absurd (ground (arith, uris));
            valid_redirects = rw uris (invalid_redirect-none d.redirect_uris valid);
            from_document = ground arith;
            readable = readable;
            bounded = bounded;
            public_client = public_method d.token_endpoint_auth_method (ground arith);
          }
    ]

fetch-IsVouched :
    (r : CimdResolver) (calls : List (ℕ × Text)) (now : ℕ) (client_id : Text)
    (meta : ClientMetadata) (ttl : ℕ)
    → IsCall now client_id calls
    → fetch r now client_id ≡ ok (meta, ttl)
    → IsVouched r calls client_id meta × (0 < ttl)
unfolding fetch
fetch-IsVouched r calls now client_id meta ttl called h =
    elim (Result-cases (r.fetch_url now client_id)) [
      | inr (e, failed_fetch) ↦ absurd (ground arith)
      | inl (response, got) ↦ elim (Option-cases response.document) [
        | inl none_there ↦ absurd (ground arith)
        | inr (d, decoded) ↦ elim (Result-cases (validate_document d client_id)) [
          | inr (e, bad) ↦ absurd (ground arith)
          | inl (m, valid) ↦ (
            validate_document-IsVouched r calls now response d client_id meta called got
                (ground arith) decoded (ground arith) (ground arith) (ground arith),
            ground (arith, cache_ttl_bounds r.default_ttl response.cache_control),
          )
        ]
      ]
    ]

module _ (c : TtlCache) (r : CimdResolver) where
  -- The states that the resolver's cache goes through, with the calls that lead there, the latest
  -- first: new, and after any call.
  pub data Reach : List (ℕ × Text) → CimdCache c → Type 0 where
    start : (size : ℕ) → Reach [] (c.create CimdEntry size)
    call :
        {calls : List (ℕ × Text)} {s : CimdCache c} (now : ℕ) (client_id : Text)
        → Reach calls s
        → Reach ((now, client_id) ∷ calls) (resolve c r now client_id s).0

some_inj : {o : Option (Item CimdEntry)} {i k : Item CimdEntry} → o ≡ some i → o ≡ some k → i ≡ k
some_inj p q = cc

module _ (c : TtlCache) (l : TtlCacheLaws c CimdEntry) (r : CimdResolver) where
  open l use {held}

  -- Every resolution that is held is vouched for by its document.
  abbrev IsSound : List (ℕ × Text) → CimdCache c → Type 0
  IsSound calls s =
      (client_id : Text) (i : Item CimdEntry) (meta : ClientMetadata)
      → held s client_id ≡ some i
      → i.value ≡ resolved meta
      → IsVouched r calls client_id meta

  -- More calls keep what was fetched in the earlier ones.
  later-IsSound :
      (now : ℕ) (key : Text) (calls : List (ℕ × Text)) (s : CimdCache c)
      → IsSound calls s
      → IsSound ((now, key) ∷ calls) s
  later-IsSound now key calls s h client_id i meta held_i is_meta =
      let v = h client_id i meta held_i is_meta in
      record {
        fetched_at = v.fetched_at;
        called = inr v.called;
        response = v.response;
        document = v.document;
        fetched = v.fetched;
        accepted = v.accepted;
        decoded = v.decoded;
        own_id = v.own_id;
        same_id = v.same_id;
        same_name = v.same_name;
        same_redirects = v.same_redirects;
        named = v.named;
        some_redirect = v.some_redirect;
        valid_redirects = v.valid_redirects;
        from_document = v.from_document;
        readable = v.readable;
        bounded = v.bounded;
        public_client = v.public_client;
      }

  set-IsSound :
      (calls : List (ℕ × Text)) (now : ℕ) (client_id : Text) (v : CimdEntry) (ttl : ℕ)
      (s : CimdCache c)
      → 0 < ttl
      → ((meta : ClientMetadata) → v ≡ resolved meta → IsVouched r calls client_id meta)
      → IsSound calls s
      → IsSound calls (c.set CimdEntry now client_id v ttl s)
  set-IsSound calls now client_id v ttl s pos vouched h k i meta held_i is_meta =
      elim (Bool-cases (text_eq client_id k)) [
        | inl same ↦
            let p = (text_eq_iff client_id k).0 same in
            let e = some_inj held_i (
              subst (λ q. held (c.set CimdEntry now client_id v ttl s) q ≡ some stored) p
                (l.held-set_self now client_id v ttl s pos)) in
            subst (λ q. IsVouched r calls q meta) p (vouched meta (ground (arith, e)))
        | inr differ ↦
            elim (l.held-set_ne now client_id k v ttl s
              (λ p. absurd (ground (arith, text_eq_iff client_id k)))) [
                | inl kept ↦ h k i meta (sym kept ∙ held_i) is_meta
                | inr dropped ↦ absurd (ground arith)
              ]
      ]
    where
      stored : Item CimdEntry
      stored = record { value = v; expires_at = now + ttl }

  get-IsSound :
      (calls : List (ℕ × Text)) (now : ℕ) (k : Text) (s : CimdCache c)
      → IsSound calls s
      → IsSound calls (c.get CimdEntry now k s).0
  get-IsSound calls now k s h t i meta held_i = h t i meta (sym (l.held-get now k t s) ∙ held_i)

  fetch_and_store-IsSound :
      (calls : List (ℕ × Text)) (now : ℕ) (client_id : Text) (s : CimdCache c)
      → IsCall now client_id calls
      → IsSound calls s
      → IsSound calls (fetch_and_store c r now client_id s).0
        × ((meta : ClientMetadata)
            → (fetch_and_store c r now client_id s).1 ≡ ok meta
            → IsVouched r calls client_id meta)
  unfolding fetch_and_store
  fetch_and_store-IsSound calls now client_id s called h =
      elim (Result-cases (fetch r now client_id)) [
        | inr (e, bad) ↦
            rw (bad, fetch_and_store)
              (
                set-IsSound calls now client_id (failed e) cimd_negative_ttl s (omega arith)
                    (λ meta p. absurd (ground arith)) h,
                λ meta p. absurd (ground arith),
              )
        | inl ((m, ttl), good) ↦
            let (vouched, pos) = fetch-IsVouched r calls now client_id m ttl called good in
            rw (good, fetch_and_store)
              (
                set-IsSound calls now client_id (resolved m) ttl s pos
                    (λ meta p. subst (IsVouched r calls client_id) (ground arith) vouched) h,
                λ meta p. subst (IsVouched r calls client_id) (ground arith) vouched,
              )
      ]

  -- The branches of the code.
  data Branch (now : ℕ) (client_id : Text) (s : CimdCache c) : Type 0 where
    refused : (e : Message) → resolve c r now client_id s ≡ (s, err e) → Branch now client_id s
    hit :
        (i : Item CimdEntry)
        → held s client_id ≡ some i
        → resolve c r now client_id s ≡ ((c.get CimdEntry now client_id s).0, cached c i.value)
        → Branch now client_id s
    missed :
        resolve c r now client_id s
          ≡ fetch_and_store c r now client_id (c.get CimdEntry now client_id s).0
        → Branch now client_id s

  branch : (now : ℕ) (client_id : Text) (s : CimdCache c) → Branch now client_id s
  unfolding resolve
  branch now client_id s = elim (Result-cases (validate_cimd_url client_id)) [
    | inr (e, bad) ↦ refused e (rw (bad, resolve) refl)
    | inl (u, good) ↦ elim (Bool-cases (host_allowed r.allowed (hostname u))) [
      | inr untrusted ↦
          refused
            (record {
              format = "client_id host %q is not in the CIMD trust policy";
              args = hostname u ∷ [];
            })
            (rw (good, untrusted, resolve) refl)
      | inl trusted ↦ elim (Option-cases (c.get CimdEntry now client_id s).1) [
        | inl absent ↦ missed (rw (good, trusted, absent, resolve) refl)
        | inr (i, got) ↦ elim (Bool-cases (c.is_expired now i.expires_at)) [
          | inl late ↦ missed (rw (good, trusted, got, late, resolve) refl)
          | inr fresh ↦
              hit i (l.get_sound now client_id s i got)
                (rw (good, trusted, got, fresh, resolve) refl)
        ]
      ]
    ]
  ]

  resolve-IsSound :
      (calls : List (ℕ × Text)) (now : ℕ) (client_id : Text) (s : CimdCache c)
      → IsCall now client_id calls
      → IsSound calls s
      → IsSound calls (resolve c r now client_id s).0
        × ((meta : ClientMetadata)
            → (resolve c r now client_id s).1 ≡ ok meta
            → IsVouched r calls client_id meta)
  resolve-IsSound calls now client_id s called h = elim (branch now client_id s) [
    | refused e p ↦ rw p (h, λ meta q. absurd (ground arith))
    | hit i held_i p ↦ rw p (
      get-IsSound calls now client_id s h,
      λ meta q. h client_id i meta held_i (cached-ok i.value meta q),
    )
    | missed p ↦ rw p (
        fetch_and_store-IsSound calls now client_id (c.get CimdEntry now client_id s).0 called
          (get-IsSound calls now client_id s h))
  ]
    where
      cached-ok : (v : CimdEntry) (meta : ClientMetadata) → cached c v ≡ ok meta → v ≡ resolved meta
      cached-ok (resolved m) meta q = ground arith
      cached-ok (failed e) meta q = absurd (ground arith)

  Reach-IsSound : {calls : List (ℕ × Text)} {s : CimdCache c} → Reach c r calls s → IsSound calls s
  Reach-IsSound (start size) =
      λ k i meta held_i is_meta. absurd (ground (arith, l.held-create size k))
  Reach-IsSound (call {calls} {s} now client_id h) =
      (resolve-IsSound ((now, client_id) ∷ calls) now client_id s (inl (refl, refl))
        (later-IsSound now client_id calls s (Reach-IsSound h))).0

  resolve-trusted :
      (now : ℕ) (client_id : Text) (s : CimdCache c) (meta : ClientMetadata)
      → (resolve c r now client_id s).1 ≡ ok meta
      → (u : Url) × (validate_cimd_url client_id ≡ ok u)
        × (host_allowed r.allowed (hostname u) ≡ true)
  unfolding resolve
  resolve-trusted now client_id s meta h = elim (Result-cases (validate_cimd_url client_id)) [
    | inr (e, bad) ↦ absurd (ground arith)
    | inl (u, good) ↦ (u, good, ground arith)
  ]

  -- In every state that a run of calls leads to from a new cache, metadata that `resolve` returns,
  -- fetched or cached, is that of a document which the client_id serves, at the time of this call
  -- or of one of the run for the same client_id, with status 200 and a body of at most 32 KiB, and
  -- which names this client_id itself and no authentication method but "none"; it names the client
  -- and has redirect URIs that all pass validation; and the client_id is a well-formed document URL
  -- whose host the trust policy allows.
  pub resolve-IsVouched :
      {calls : List (ℕ × Text)} {s : CimdCache c} (now : ℕ) (client_id : Text)
      (meta : ClientMetadata)
      → Reach c r calls s
      → (resolve c r now client_id s).1 ≡ ok meta
      → IsVouched r ((now, client_id) ∷ calls) client_id meta
        × ((u : Url) × (validate_cimd_url client_id ≡ ok u)
            × (host_allowed r.allowed (hostname u) ≡ true))
  resolve-IsVouched {calls} {s} now client_id meta reached h = (
    (resolve-IsSound ((now, client_id) ∷ calls) now client_id s (inl (refl, refl))
          (later-IsSound now client_id calls s (Reach-IsSound reached))).1
        meta h,
    resolve-trusted now client_id s meta h,
  )
