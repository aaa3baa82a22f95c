-- ===== src/Mcpauth/RedirectUri/Laws.antt =====
-- Which redirect URIs are registered and matched.
use mathlib.Core.Path.{subst}
use oidc_proxy.Base.{
  AnyOf, All-AnyOf, contains_iff, is_empty_sound, is_empty_complete, sym, ap, ◌∙◌, ◌≡◌, ◌≢◌, ◌↔◌,
  ◌⊎◌, inl, inr, refl, true, false, not, ◌&&◌, ◌||◌, none, some, List, [], ◌∷◌, Text, arith, codes,
  text_eq, text_eq_iff, contains, contains_text, is_empty, Bool-cases, Option-cases, All, to_lower,
}
use oidc_proxy.Url.{Url, url_parse, hostname, strip_port, is_abs}
use oidc_proxy.Mcpauth.RedirectUri.{
  is_loopback_host, has_fragment, validate_redirect_uri, same_but_port, match_loopback,
  match_redirect_uri,
}

abbrev pub AreSameButPort : Url → Url → Type 0
AreSameButPort want got =
    (want.scheme ≡ got.scheme)
    × (hostname want ≡ hostname got)
    × (want.path ≡ got.path)
    × (want.raw_query ≡ got.raw_query)

-- A registered URI that a loopback candidate matches: a loopback URI itself, which differs from the
-- candidate in the port at most.
abbrev pub Vouches : Url → Text → Type 0
Vouches got raw =
    (want : Url) × (url_parse raw ≡ some want)
    × (is_loopback_host (hostname want) ≡ true)
    × AreSameButPort want got

-- The candidate is a loopback URI with no user information and no fragment.
pub record IsLoopbackCandidate (candidate : Text) (got : Url) : Type 0 where
  pub parsed : url_parse candidate ≡ some got
  pub no_user : got.has_user ≡ false
  pub no_fragment : got.fragment ≡ []
  pub loopback : is_loopback_host (hostname got) ≡ true

same_but_port_iff : (want got : Url) → (same_but_port want got ≡ true) ↔ AreSameButPort want got
unfolding same_but_port
same_but_port_iff want got = ground (
  arith,
  text_eq_iff want.scheme got.scheme,
  text_eq_iff (hostname want) (hostname got),
  text_eq_iff want.path got.path,
  text_eq_iff want.raw_query got.raw_query,
)

match_loopback_sound :
    (registered : List Text) (got : Url)
    → match_loopback registered got ≡ true
    → AnyOf (Vouches got) registered
unfolding match_loopback
match_loopback_sound [] got h = ground arith
match_loopback_sound (raw ∷ registered) got h = elim (Option-cases (url_parse raw)) [
  | inl bad ↦ inr (match_loopback_sound registered got (rw (bad, match_loopback) at h))
  | inr (want, parsed) ↦
      elim (Bool-cases (is_loopback_host (hostname want) && same_but_port want got)) [
        | inl fits ↦ inl (want, parsed, ground arith, (same_but_port_iff want got).0 (ground arith))
        | inr other ↦ inr (match_loopback_sound registered got (ground arith))
      ]
]

match_loopback_complete :
    (registered : List Text) (got : Url)
    → AnyOf (Vouches got) registered
    → match_loopback registered got ≡ true
unfolding match_loopback
match_loopback_complete [] got h = absurd h
match_loopback_complete (raw ∷ registered) got (inl (want, parsed, loopback, same)) =
    ground (arith, parsed, loopback, (same_but_port_iff want got).1 same)
match_loopback_complete (raw ∷ registered) got (inr later) =
    ground (arith, match_loopback_complete registered got later)

-- What the candidate itself must be for the loopback rule.
loopback_candidate :
    (candidate : Text) (got : Url)
    → url_parse candidate ≡ some got
    → (got.has_user || not (is_empty got.fragment) || not (is_loopback_host (hostname got))) ≡ false
    → IsLoopbackCandidate candidate got
loopback_candidate candidate got p h = record {
  parsed = p;
  no_user = ground arith;
  no_fragment = is_empty_sound got.fragment (ground arith);
  loopback = ground arith;
}

match_redirect_uri_sound :
    (registered : List Text) (candidate : Text)
    → match_redirect_uri registered candidate ≡ true
    → (candidate ≢ [])
      × (AnyOf (λ (t : Text). t ≡ candidate) registered
          ⊎ ((got : Url) × IsLoopbackCandidate candidate got × AnyOf (Vouches got) registered))
unfolding match_redirect_uri
match_redirect_uri_sound registered [] h = ground arith
match_redirect_uri_sound registered (c ∷ s) h = (
  ground arith,
  elim (Bool-cases (contains registered (c ∷ s))) [
    | inl listed ↦ inl ((contains_iff registered (c ∷ s)).0 listed)
    | inr unlisted ↦ elim (Option-cases (url_parse (c ∷ s))) [
      | inl bad ↦ absurd (ground arith)
      | inr (got, parsed) ↦ inr (
        got,
        loopback_candidate (c ∷ s) got parsed (ground arith),
        match_loopback_sound registered got (ground arith),
      )
    ]
  ],
)

match_redirect_uri_complete :
    (registered : List Text) (candidate : Text)
    → candidate ≢ []
    → AnyOf (λ (t : Text). t ≡ candidate) registered
      ⊎ ((got : Url) × IsLoopbackCandidate candidate got × AnyOf (Vouches got) registered)
    → match_redirect_uri registered candidate ≡ true
unfolding match_redirect_uri
match_redirect_uri_complete registered [] h k = absurd (h refl)
match_redirect_uri_complete registered (c ∷ s) h (inl listed) =
    rw ((contains_iff registered (c ∷ s)).1 listed) refl
match_redirect_uri_complete registered (c ∷ s) h (inr (got, candidate, vouched)) = ground (
  arith,
  candidate.parsed,
  candidate.no_user,
  candidate.no_fragment,
  candidate.loopback,
  match_loopback_complete registered got vouched,
)

-- `MatchRedirectURI` accepts a candidate exactly when it is not empty and either is one of the
-- registered URIs byte for byte, or is a loopback URI without user information and fragment for
-- which some registered loopback URI has the same scheme, host name, path and query.
pub match_redirect_uri_iff :
    (registered : List Text) (candidate : Text)
    → (match_redirect_uri registered candidate ≡ true) ↔ (
        (candidate ≢ [])
        × (AnyOf (λ (t : Text). t ≡ candidate) registered
            ⊎ ((got : Url) × IsLoopbackCandidate candidate got × AnyOf (Vouches got) registered)))
match_redirect_uri_iff registered candidate = (
  match_redirect_uri_sound registered candidate,
  λ h. match_redirect_uri_complete registered candidate h.0 h.1,
)

-- What a redirect URI must be to be registered.
pub record IsRedirectTarget (raw : Text) (u : Url) : Type 0 where
  pub parsed : url_parse raw ≡ some u
  pub absolute : u.scheme ≢ []
  pub hosted : u.host ≢ []
  pub no_fragment : u.fragment ≡ []
  pub no_hash : contains_text raw (codes "#") ≡ false
  pub secure_or_local :
      (u.scheme ≡ codes "https")
      ⊎ ((u.scheme ≡ codes "http") × (is_loopback_host (hostname u) ≡ true))

validate_redirect_uri_sound :
    (raw : Text) → validate_redirect_uri raw ≡ none → (u : Url) × IsRedirectTarget raw u
unfolding validate_redirect_uri has_fragment is_abs
validate_redirect_uri_sound raw h = elim (Option-cases (url_parse raw)) [
  | inl bad ↦ absurd (ground arith)
  | inr (u, parsed) ↦ (
    u,
    record {
      parsed = parsed;
      absolute = λ e. absurd (ground arith);
      hosted = λ e. absurd (ground arith);
      no_fragment = is_empty_sound u.fragment (ground arith);
      no_hash = ground arith;
      secure_or_local =
          ground (arith, text_eq_iff u.scheme (codes "https"), text_eq_iff u.scheme (codes "http"));
    },
  )
]

validate_redirect_uri_complete :
    (raw : Text) (u : Url) → IsRedirectTarget raw u → validate_redirect_uri raw ≡ none
unfolding validate_redirect_uri has_fragment is_abs
validate_redirect_uri_complete raw u t = ground (
  arith,
  t.parsed,
  t.no_fragment,
  t.no_hash,
  t.secure_or_local,
  is_empty_complete u.scheme t.absolute,
  is_empty_complete u.host t.hosted,
  text_eq_iff u.scheme (codes "https"),
  text_eq_iff u.scheme (codes "http"),
)

hostname-no_host : (u : Url) → u.host ≡ [] → hostname u ≡ []
unfolding hostname strip_port
hostname-no_host u e = ap strip_port e

loopback-nil : is_loopback_host [] ≡ false
unfolding is_loopback_host text_eq to_lower codes
loopback-nil = refl

-- A URL without a host has no loopback host name.
hosted_of_loopback : (u : Url) → is_loopback_host (hostname u) ≡ true → u.host ≢ []
hosted_of_loopback u h e = ground (arith, hostname-no_host u e, loopback-nil)

-- A loopback candidate inherits what validation has shown of the URI that vouches for it.
vouched_target :
    (candidate raw : Text) (got want : Url)
    → IsLoopbackCandidate candidate got
    → IsRedirectTarget raw want
    → AreSameButPort want got
    → contains_text candidate (codes "#") ≡ false
    → IsRedirectTarget candidate got
vouched_target candidate raw got want local target (scheme, host, path, query) no_hash = record {
  parsed = local.parsed;
  absolute = rw scheme at target.absolute;
  hosted = hosted_of_loopback got local.loopback;
  no_fragment = local.no_fragment;
  no_hash = no_hash;
  secure_or_local = elim target.secure_or_local [
    | inl https ↦ inl (sym scheme ∙ https)
    | inr (http, _) ↦ inr (sym scheme ∙ http, local.loopback)
  ];
}

-- If all registered URIs have passed validation, a candidate that matches them and holds no `#`
-- would have passed validation itself.
pub match_redirect_uri-valid :
    (registered : List Text) (candidate : Text)
    → All (λ raw. validate_redirect_uri raw ≡ none) registered
    → match_redirect_uri registered candidate ≡ true
    → contains_text candidate (codes "#") ≡ false
    → validate_redirect_uri candidate ≡ none
match_redirect_uri-valid registered candidate valid h no_hash =
    elim (match_redirect_uri_sound registered candidate h).1 [
      | inl listed ↦
          let (raw, passed, same) = All-AnyOf registered valid listed in
          subst (λ t. validate_redirect_uri t ≡ none) same passed
      | inr (got, local, vouched) ↦
          let (raw, passed, (want, parsed, _, same)) = All-AnyOf registered valid vouched in
          let (u, target) = validate_redirect_uri_sound raw passed in
          validate_redirect_uri_complete candidate got (
            vouched_target candidate raw got want local
              (subst (λ w. IsRedirectTarget raw w) (ground (arith, parsed, target.parsed)) target)
              same no_hash)
    ]
