-- ===== src/Mcpauth/Scope/Grant.antt =====
-- The granted scopes against the requested ones.
use oidc_proxy.Base.{
  ◌≡◌, ◌↔◌, ◌⊎◌, inl, inr, refl, ap, sym, ◌∙◌, true, List, [], ◌∷◌, ◌++◌, Text, arith, fields, join,
  contains, contains_iff, In, All, is_empty, all, text_eq_iff, is_empty_sound, if◌then◌else◌, ok,
  Bool-cases, Result-cases,
}
use mathlib.Core.Path.{subst}
use oidc_proxy.Mcpauth.Scope.{grant_loop, grant_scope, has_required_scopes, unsupported_scope}
use oidc_proxy.Mcpauth.Scope.Words.{IsWord, fields-join}

-- No member stands in the list twice.
abbrev pub AreDistinct : List Text → Type 0
AreDistinct [] = Unit
AreDistinct (s ∷ l) = (¬ In s l) × AreDistinct l

In-append : (l m : List Text) (s : Text) → In s (l ++ m) ↔ (In s l ⊎ In s m)
In-append [] m s = (λ h. inr h, λ h. elim h [ inl k ↦ absurd k | inr k ↦ k ])
In-append (t ∷ l) m s = ground (arith, In-append l m s)

AreDistinct-append :
    (l : List Text) (s : Text) → AreDistinct l → ¬ In s l → AreDistinct (l ++ s ∷ [])
AreDistinct-append [] s d h = (λ k. k, tt)
AreDistinct-append (t ∷ l) s (fresh, d) h = (
  λ k. elim ((In-append l (s ∷ []) t).0 k) [
    | inl old ↦ fresh old
    | inr (inl e) ↦ h (inl (sym e))
    | inr (inr none) ↦ none
  ],
  AreDistinct-append l s d (λ k. h (inr k)),
)

-- What the loop has collected after one more scope.
step : (granted : List Text) (f : Text) → List Text
step granted f = if contains granted f then granted else granted ++ f ∷ []

step-In : (granted : List Text) (f s : Text) → In s (step granted f) ↔ (In s granted ⊎ (f ≡ s))
unfolding step
step-In granted f s = ground (
  arith,
  contains_iff granted f,
  contains_iff granted s,
  text_eq_iff f s,
  In-append granted (f ∷ []) s,
)

step-AreDistinct :
    (granted : List Text) (f : Text) → AreDistinct granted → AreDistinct (step granted f)
unfolding step
step-AreDistinct granted f d = elim (Bool-cases (contains granted f)) [
  | inl old ↦ rw old d
  | inr new ↦
      rw new (AreDistinct-append granted f d (λ h. absurd (ground (arith, contains_iff granted f))))
]

-- The loop succeeds exactly if every scope is supported, and collects each once.
record Collects (granted requested l : List Text) : Type 0 where
  members : (s : Text) → In s l ↔ (In s granted ⊎ In s requested)
  distinct : AreDistinct granted → AreDistinct l

grant_loop-ok :
    (supported granted requested l : List Text)
    → grant_loop supported granted requested ≡ ok l
    → Collects granted requested l × All (λ f. In f supported) requested
unfolding grant_loop step
grant_loop-ok supported granted [] l h =
    (record { members = λ s. ground arith; distinct = λ d. subst AreDistinct (ground arith) d }, tt)
grant_loop-ok supported granted (f ∷ requested) l h = elim (Bool-cases (contains supported f)) [
  | inr unsupported ↦ absurd (ground arith)
  | inl known ↦
      let (c, all_known) = grant_loop-ok supported (step granted f) requested l (ground arith) in
      (
        record {
          members = λ s. ground (arith, c.members s, step-In granted f s);
          distinct = λ d. c.distinct (step-AreDistinct granted f d);
        },
        ((contains_iff supported f).0 known, all_known),
      )
]

grant_loop_total :
    (supported granted requested : List Text)
    → All (λ f. In f supported) requested
    → (l : List Text) × (grant_loop supported granted requested ≡ ok l)
unfolding grant_loop step
grant_loop_total supported granted [] h = (granted, refl)
grant_loop_total supported granted (f ∷ requested) (known, h) =
    rw ((contains_iff supported f).1 known)
      (grant_loop_total supported (step granted f) requested h)

-- The scopes of the words `s`, the granted ones, against the request.
pub record Grants (supported : List Text) (requested s : Text) : Type 0 where
  pub supported_only : All (λ f. In f supported) (fields s)
  -- An empty request is granted everything; any other, what it asks for, each scope once.
  pub as_requested :
      ((fields requested ≡ []) × (fields s ≡ supported))
      ⊎ (((f : Text) → In f (fields s) ↔ In f (fields requested)) × AreDistinct (fields s))

All-self : (l : List Text) → All (λ f. In f l) l
All-self [] = tt
All-self (t ∷ l) = (inl refl, All_weaken l (All-self l))
  where
    All_weaken : (m : List Text) → All (λ f. In f l) m → All (λ f. In f (t ∷ l)) m
    All_weaken [] h = tt
    All_weaken (u ∷ m) h = (inr h.0, All_weaken m h.1)

All-of_In : (P : Text → Type 0) (l : List Text) → ((f : Text) → In f l → P f) → All P l
All-of_In P [] h = tt
All-of_In P (t ∷ l) h = (h t (inl refl), All-of_In P l (λ f k. h f (inr k)))

In_of_All : (P : Text → Type 0) (l : List Text) → All P l → (f : Text) → In f l → P f
In_of_All P (t ∷ l) h f (inl e) = subst P e h.0
In_of_All P (t ∷ l) h f (inr k) = In_of_All P l h.1 f k
In_of_All P [] h f k = absurd k

-- The loop's result, joined, reads back as it is.
fields-granted :
    (supported requested l : List Text)
    → All IsWord supported
    → Collects [] requested l
    → All (λ f. In f supported) requested
    → (fields (join l) ≡ l) × All (λ f. In f supported) l
fields-granted supported requested l words c known =
    let in_supported : (f : Text) → In f l → In f supported =
      λ f k. In_of_All (λ g. In g supported) requested known f (or_not f (c.members f).0 k) in
    (
      fields-join l
          (All-of_In IsWord l (λ f k. In_of_All IsWord supported words f (in_supported f k))),
      All-of_In (λ f. In f supported) l in_supported,
    )
  where
    or_not : (f : Text) → (In f l → ⊥ ⊎ In f requested) → In f l → In f requested
    or_not f g k = elim (g k) [ inl no_one ↦ absurd no_one | inr r ↦ r ]

-- The request that names no scope.
grant_scope-nil :
    (supported : List Text) (requested s : Text)
    → All IsWord supported
    → fields requested ≡ []
    → grant_scope supported requested ≡ ok s
    → fields s ≡ supported
unfolding grant_scope
grant_scope-nil supported requested s words none h =
    ap fields (ground (arith, none)) ∙ fields-join supported words

-- With supported scopes that are words, a scope string that `GrantScope` grants reads back as
-- supported scopes only: all of them if none was requested, and otherwise exactly the requested
-- ones, each once.
pub grant_scope-Grants :
    (supported : List Text) (requested s : Text)
    → All IsWord supported
    → grant_scope supported requested ≡ ok s
    → Grants supported requested s
unfolding grant_scope
grant_scope-Grants supported requested s words h = elim (Bool-cases (is_empty (fields requested))) [
  | inl none ↦
      let e = grant_scope-nil supported requested s words (is_empty_sound _ none) h in
      record {
        supported_only = rw e (All-self supported);
        as_requested = inl (is_empty_sound (fields requested) none, e);
      }
  | inr some ↦ elim (Result-cases (grant_loop supported [] (fields requested))) [
    | inr (e, failed) ↦ absurd (ground arith)
    | inl (l, done) ↦
        let (c, known) = grant_loop-ok supported [] (fields requested) l done in
        let (read_back, inside) = fields-granted supported (fields requested) l words c known in
        let e : fields s ≡ l = ap fields (ground (arith, some, done)) ∙ read_back in
        record {
          supported_only = rw e inside;
          as_requested = inr (λ f. rw e (ground (arith, c.members f)), rw e (c.distinct tt));
        }
  ]
]

-- `GrantScope` succeeds exactly if every requested scope is supported.
pub grant_scope_iff :
    (supported : List Text) (requested : Text)
    → ((s : Text) × (grant_scope supported requested ≡ ok s))
      ↔ All (λ f. In f supported) (fields requested)
unfolding grant_scope
grant_scope_iff supported requested = (
  λ h. elim (Bool-cases (is_empty (fields requested))) [
    | inl none ↦ rw (is_empty_sound (fields requested) none) tt
    | inr some ↦ elim (Result-cases (grant_loop supported [] (fields requested))) [
      | inr (e, failed) ↦ absurd (ground (arith, h.1))
      | inl (l, done) ↦ (grant_loop-ok supported [] (fields requested) l done).1
    ]
  ],
  λ known. elim (Bool-cases (is_empty (fields requested))) [
    | inl none ↦ (join supported, ground arith)
    | inr some ↦
        let (l, done) = grant_loop_total supported [] (fields requested) known in
        (join l, ground (arith, some, done))
  ],
)

-- A token holds the required scopes exactly if each of them is a field of its scope string.
pub has_required_scopes_iff :
    (required : List Text) (token_scope : Text)
    → (has_required_scopes required token_scope ≡ true)
      ↔ All (λ r. In r (fields token_scope)) required
unfolding has_required_scopes all
has_required_scopes_iff [] token_scope = (λ h. tt, λ h. refl)
has_required_scopes_iff (r ∷ required) token_scope = all_contains_iff (r ∷ required)
  where
    all_contains_iff :
        (l : List Text)
        → (all (contains (fields token_scope)) l ≡ true) ↔ All (λ q. In q (fields token_scope)) l
    all_contains_iff [] = (λ h. tt, λ h. refl)
    all_contains_iff (q ∷ l) =
        ground (arith, contains_iff (fields token_scope) q, all_contains_iff l)

pub unsupported_scope-ok :
    (supported required : List Text)
    → unsupported_scope supported required ≡ ok tt
    → All (λ r. In r supported) required
unfolding unsupported_scope
unsupported_scope-ok supported [] h = tt
unsupported_scope-ok supported (r ∷ required) h = elim (Bool-cases (contains supported r)) [
  | inl known ↦
      ((contains_iff supported r).0 known, unsupported_scope-ok supported required (ground arith))
  | inr unknown ↦ absurd (ground arith)
]

-- If every required scope is supported, as `New` checks, and every supported scope is a word, that
-- is, not empty and without white space, which `New` does not check, then the scope granted to a
-- request that names no scope satisfies the resource server.
pub grant_scope-default :
    (supported required : List Text) (requested s : Text)
    → All IsWord supported
    → unsupported_scope supported required ≡ ok tt
    → fields requested ≡ []
    → grant_scope supported requested ≡ ok s
    → has_required_scopes required s ≡ true
grant_scope-default supported required requested s words checked empty h =
    (has_required_scopes_iff required s).1 (
      rw (grant_scope-nil supported requested s words empty h)
        (unsupported_scope-ok supported required checked))
