-- ===== src/Examples/ToyJose.antt =====
-- A stand-in for `go-jose` that meets its laws. A token names one of two fixed objects and the key
-- id of its signer; the claims are validated as the library documents it.
use oidc_proxy.Base.{
  ℕ, ◌+◌, ◌*◌, ◌/◌, ◌≤◌, ◌≡◌, ◌≢◌, ◌↔◌, refl, ap, Bool, true, ◌&&◌, ◌||◌, Option, none, some, List,
  [], ◌∷◌, Text, arith, text_eq, text_eq_iff, is_empty, leb, ◌==◌, In, AnyOf, contains,
  contains_iff, any, if◌then◌else◌, message, Result, ok, err,
}
use oidc_proxy.Mcpauth.Jose.{
  Registered, Object, Expected, IsCurrent, invalid, second, Jose, JoseLaws,
}
use oidc_proxy.Mcpauth.Claims.{use_refresh}

-- A date that is absent, or at most, or at least, a bound.
abbrev pub at_most : Option ℕ → ℕ → Bool
at_most none bound = true
at_most (some t) bound = leb (t * second) bound

abbrev pub at_least : Option ℕ → ℕ → ℕ → Bool
at_least none now leeway = true
at_least (some t) now leeway = leb now (t * second + leeway)

abbrev pub issuer_ok : Text → Text → Bool
issuer_ok want got = is_empty want || text_eq got want

abbrev pub audience_ok : List Text → List Text → Bool
audience_ok want got = is_empty want || any (contains got) want

abbrev pub is_current : Registered → Expected → ℕ → Bool
is_current c e leeway =
    issuer_ok e.issuer c.issuer
    && audience_ok e.any_audience c.audience
    && at_most c.not_before (e.time + leeway)
    && at_least c.expiry e.time leeway
    && at_most c.issued_at (e.time + leeway)

at_most_iff :
    (o : Option ℕ) (bound : ℕ)
    → (at_most o bound ≡ true) ↔ ((t : ℕ) → o ≡ some t → t * second ≤ bound)
at_most_iff none bound = (λ h t e. absurd (ground arith), λ h. refl)
at_most_iff (some t) bound = (λ h u e. ground arith, λ h. ground (arith, h t refl))

at_least_iff :
    (o : Option ℕ) (now leeway : ℕ)
    → (at_least o now leeway ≡ true) ↔ ((t : ℕ) → o ≡ some t → now ≤ t * second + leeway)
at_least_iff none now leeway = (λ h t e. absurd (ground arith), λ h. refl)
at_least_iff (some t) now leeway = (λ h u e. ground arith, λ h. ground (arith, h t refl))

issuer_ok_iff : (want got : Text) → (issuer_ok want got ≡ true) ↔ (want ≢ [] → got ≡ want)
issuer_ok_iff [] got = (λ h e. absurd (e refl), λ h. refl)
issuer_ok_iff (x ∷ want) got = (
  λ h e. (text_eq_iff got (x ∷ want)).0 h,
  λ h. (text_eq_iff got (x ∷ want)).1 (h (λ e. absurd (ground arith))),
)

any_iff : (got want : List Text) → (any (contains got) want ≡ true) ↔ AnyOf (λ a. In a got) want
unfolding any
any_iff got [] = ground arith
any_iff got (a ∷ want) = ground (arith, any_iff got want, contains_iff got a)

audience_ok_iff :
    (want got : List Text)
    → (audience_ok want got ≡ true) ↔ (want ≢ [] → AnyOf (λ a. In a got) want)
audience_ok_iff [] got = (λ h e. absurd (e refl), λ h. refl)
audience_ok_iff (x ∷ want) got = (
  λ h e. (any_iff got (x ∷ want)).0 h,
  λ h. (any_iff got (x ∷ want)).1 (h (λ e. absurd (ground arith))),
)

-- All five tests together.
pub is_current_iff :
    (c : Registered) (e : Expected) (leeway : ℕ)
    → (is_current c e leeway ≡ true) ↔ IsCurrent c e leeway
is_current_iff c e leeway = (
  λ h. record {
    issued_by = (issuer_ok_iff e.issuer c.issuer).0 (ground arith);
    meant_for = (audience_ok_iff e.any_audience c.audience).0 (ground arith);
    started = (at_most_iff c.not_before (e.time + leeway)).0 (ground arith);
    running = (at_least_iff c.expiry e.time leeway).0 (ground arith);
    issued = (at_most_iff c.issued_at (e.time + leeway)).0 (ground arith);
  },
  λ k. ground (
    arith,
    (issuer_ok_iff e.issuer c.issuer).1 k.issued_by,
    (audience_ok_iff e.any_audience c.audience).1 k.meant_for,
    (at_most_iff c.not_before (e.time + leeway)).1 k.started,
    (at_least_iff c.expiry e.time leeway).1 k.running,
    (at_most_iff c.issued_at (e.time + leeway)).1 k.issued,
  ),
)

abbrev pub tag : Object → ℕ
tag o = if text_eq o.token_use use_refresh then 1 else 0

abbrev pub pick : Object → Object → ℕ → Object
pick a b t = if t == 1 then b else a

abbrev pub parse_toy : Text → Result (ℕ × Text)
parse_toy [] = err (message "malformed token")
parse_toy (t ∷ kid) = ok (t, kid)

-- The stand-in for the objects `a`, not a refresh token's, and `b`, a refresh token's.
abbrev pub toy_jose : Object → Object → Jose
toy_jose a b = record {
  Jws = ℕ × Text;
  Jwe = ℕ × Text;
  sign = λ key kid o. ok (tag o ∷ kid);
  parse_signed = parse_toy;
  key_ids = λ jws. jws.1 ∷ [];
  verify = λ jws key. ok (pick a b jws.0);
  encrypt = λ key o. ok (tag o ∷ []);
  parse_encrypted = parse_toy;
  decrypt = λ jwe key. ok (pick a b jwe.0);
  validate = λ c e leeway. if is_current c e leeway then none else some invalid;
  numeric_date = λ t. t / second;
}

-- An object that the stand-in carries.
abbrev pub IsToy : Object → Object → Object → Type 0
IsToy a b o = pick a b (tag o) ≡ o

abbrev pub toy_laws : (a b : Object) → JoseLaws (toy_jose a b)
toy_laws a b = record {
  IsCarried = IsToy a b;
  public = λ key. key;
  parse-sign = λ key kid o t carried e. ((tag o, kid), ground arith, refl, ap ok carried);
  decrypt-encrypt = λ key o t carried e. ((tag o, []), ground arith, ap ok carried);
  validate_iff = λ c e leeway. ground (arith, is_current_iff c e leeway);
  numeric_date_le = λ t. omega arith;
  numeric_date_lt = λ t. omega arith;
}
