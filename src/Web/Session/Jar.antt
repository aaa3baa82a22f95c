-- ===== src/Web/Session/Jar.antt =====
-- The cookies of a browser that follows the `Set-Cookie` headers of the proxy. `http.SetCookie` drops
-- the bytes that a cookie value must not hold. It puts a value with a space or a comma in quotes, which
-- are taken off when the cookie is read, so the jar holds the value without them. The names of the
-- cookies are taken to be valid, as `http.SetCookie` sends no cookie with another name.
use oidc_proxy.Base.{
  ℕ, Bool, true, not, ◌&&◌, leb, ltb, ◌==◌, All, ◌≡◌, ◌≢◌, refl, ap, sym, ◌∙◌, inl, inr, List, [],
  ◌∷◌, ◌++◌, Text, arith, codes, text_eq, text_eq_refl, text_eq_iff, is_empty, if◌then◌else◌,
  Bool-cases,
}
use oidc_proxy.Http.{Values, first_value, Cookie}
use oidc_proxy.Web.Session.{
  Tokens, CookieConfig, suffix_id_token, suffix_access_token, suffix_refresh_token, cookie_value,
  cookie_name, read_tokens, make_cookie, token_cookie, write_tokens, clear_tokens,
}

-- The jar without a name.
abbrev without : Text → Values → Values
without k [] = []
without k ((n, v) ∷ jar) = let rest = without k jar in if text_eq n k then rest else (n, v) ∷ rest

-- A byte that `http.SetCookie` keeps in a value: printable ASCII, but no quote, semicolon or backslash.
abbrev pub is_cookie_byte : ℕ → Bool
is_cookie_byte b =
    leb 0x20 b && ltb b 0x7f && not (b == b'"') && not (b == b';') && not (b == b'\\')

unfoldable pub sanitize_cookie_value : Text → Text
sanitize_cookie_value [] = []
sanitize_cookie_value (b ∷ s) =
    let rest = sanitize_cookie_value s in if is_cookie_byte b then b ∷ rest else rest

-- A text that a cookie carries unchanged.
abbrev pub IsCookieText : Text → Type 0
IsCookieText s = All (λ b. is_cookie_byte b ≡ true) s

sanitize_cookie_value-IsCookieText : (s : Text) → IsCookieText s → sanitize_cookie_value s ≡ s
unfolding sanitize_cookie_value
sanitize_cookie_value-IsCookieText [] h = refl
sanitize_cookie_value-IsCookieText (b ∷ s) (good, h) =
    rw (good, sanitize_cookie_value-IsCookieText s h) refl

-- The jar after one cookie: a deleted one is dropped, and another takes the place of the old one.
abbrev store_cookie : Cookie → Values → Values
store_cookie c jar =
    if c.deleted
    then without c.name jar
    else (c.name, sanitize_cookie_value c.value) ∷ without c.name jar

unfoldable pub store_cookies : List Cookie → Values → Values
store_cookies [] jar = jar
store_cookies (c ∷ cookies) jar = store_cookies cookies (store_cookie c jar)

value-without_self : (k : Text) (jar : Values) → first_value k (without k jar) ≡ []
unfolding first_value
value-without_self k [] = refl
value-without_self k ((n, v) ∷ jar) = ground (arith, value-without_self k jar)

value-without_ne :
    (k j : Text) (jar : Values) → k ≢ j → first_value j (without k jar) ≡ first_value j jar
unfolding first_value
value-without_ne k j [] h = refl
value-without_ne k j ((n, v) ∷ jar) h =
    ground (arith, value-without_ne k j jar h, text_eq_iff n k, text_eq_iff n j)

-- A value in place of another one, unless it is empty.
abbrev pub or_old : Text → Text → Text
or_old new old = if is_empty new then old else new

module _ (cfg : CookieConfig) (now : ℕ) where
  value-token_cookie_self :
      (suffix value : Text) (jar : Values)
      → IsCookieText value
      → first_value (cookie_name cfg suffix) (store_cookies (token_cookie cfg now suffix value) jar)
        ≡ or_old value (first_value (cookie_name cfg suffix) jar)
  unfolding store_cookies first_value make_cookie
  value-token_cookie_self suffix value jar plain = elim (Bool-cases (is_empty value)) [
    | inl e ↦ rw e refl
    | inr filled ↦
        rw
          (
            filled,
            text_eq_refl (cookie_name cfg suffix),
            sanitize_cookie_value-IsCookieText value plain,
          )
          refl
  ]

  value-token_cookie_ne :
      (suffix value other : Text) (jar : Values)
      → cookie_name cfg suffix ≢ other
      → first_value other (store_cookies (token_cookie cfg now suffix value) jar)
        ≡ first_value other jar
  unfolding store_cookies first_value make_cookie
  value-token_cookie_ne suffix value other jar differ = elim (Bool-cases (is_empty value)) [
    | inl e ↦ rw e refl
    | inr filled ↦ ground (
      arith,
      filled,
      text_eq_iff (cookie_name cfg suffix) other,
      value-without_ne (cookie_name cfg suffix) other jar differ,
    )
  ]

  store_cookies-append :
      (xs ys : List Cookie) (jar : Values)
      → store_cookies (xs ++ ys) jar ≡ store_cookies ys (store_cookies xs jar)
  unfolding store_cookies
  store_cookies-append [] ys jar = refl
  store_cookies-append (x ∷ xs) ys jar = store_cookies-append xs ys (store_cookie x jar)

  append_cancel : (p s t : Text) → p ++ s ≡ p ++ t → s ≡ t
  append_cancel [] s t h = h
  append_cancel (x ∷ p) s t h = append_cancel p s t (ground arith)

  names_differ :
      (cookie_name cfg suffix_id_token ≢ cookie_name cfg suffix_access_token)
      × (cookie_name cfg suffix_id_token ≢ cookie_name cfg suffix_refresh_token)
      × (cookie_name cfg suffix_access_token ≢ cookie_name cfg suffix_refresh_token)
  unfolding cookie_name codes
  names_differ = (
    λ h. absurd (ground (arith, append_cancel cfg.cookie_prefix _ _ h)),
    λ h. absurd (ground (arith, append_cancel cfg.cookie_prefix _ _ h)),
    λ h. absurd (ground (arith, append_cancel cfg.cookie_prefix _ _ h)),
  )

  write_tokens-steps :
      (t : Tokens) (jar : Values)
      → store_cookies (write_tokens cfg now t) jar
        ≡ store_cookies (token_cookie cfg now suffix_refresh_token t.refresh_token) (
            store_cookies
              (token_cookie cfg now suffix_access_token t.access_token)
              (store_cookies (token_cookie cfg now suffix_id_token t.id_token) jar))
  unfolding write_tokens
  write_tokens-steps t jar =
      let a = token_cookie cfg now suffix_id_token t.id_token in
      let b = token_cookie cfg now suffix_access_token t.access_token in
      let c = token_cookie cfg now suffix_refresh_token t.refresh_token in
      store_cookies-append (a ++ b) c jar ∙ ap (store_cookies c) (store_cookies-append a b jar)

  -- For tokens that a cookie carries unchanged, that is, in printable ASCII without quotes, semicolons
  -- and backslashes: a browser that follows the cookies of `writeTokens` presents the tokens that were
  -- written, and keeps the old one where the new one is empty.
  pub read_tokens-write_tokens :
      (t : Tokens) (jar : Values)
      → IsCookieText t.id_token
      → IsCookieText t.access_token
      → IsCookieText t.refresh_token
      → let old = read_tokens cfg jar in
        read_tokens cfg (store_cookies (write_tokens cfg now t) jar) ≡ record {
          id_token = or_old t.id_token old.id_token;
          access_token = or_old t.access_token old.access_token;
          refresh_token = or_old t.refresh_token old.refresh_token;
        }
  unfolding read_tokens cookie_value
  read_tokens-write_tokens t jar plain_id plain_access plain_refresh =
      let (ia, ir, ar) = names_differ in
      let s = suffix_id_token in
      let jar1 = store_cookies (token_cookie cfg now suffix_id_token t.id_token) jar in
      let jar2 = store_cookies (token_cookie cfg now suffix_access_token t.access_token) jar1 in
      ground (
        arith,
        write_tokens-steps t jar,
        value-token_cookie_self suffix_id_token t.id_token jar plain_id,
        value-token_cookie_ne suffix_access_token t.access_token (cookie_name cfg suffix_id_token)
            jar1 (λ e. ia (sym e)),
        value-token_cookie_ne suffix_refresh_token t.refresh_token (cookie_name cfg suffix_id_token)
            jar2 (λ e. ir (sym e)),
        value-token_cookie_ne suffix_id_token t.id_token (cookie_name cfg suffix_access_token) jar
            ia,
        value-token_cookie_self suffix_access_token t.access_token jar1 plain_access,
        value-token_cookie_ne suffix_refresh_token t.refresh_token
            (cookie_name cfg suffix_access_token) jar2 (λ e. ar (sym e)),
        value-token_cookie_ne suffix_id_token t.id_token (cookie_name cfg suffix_refresh_token) jar
            ir,
        value-token_cookie_ne suffix_access_token t.access_token
            (cookie_name cfg suffix_refresh_token) jar1 ar,
        value-token_cookie_self suffix_refresh_token t.refresh_token jar2 plain_refresh,
      )

  -- A browser that follows the cookies of `clearTokens` presents no token any more.
  pub read_tokens-clear_tokens :
      (jar : Values)
      → read_tokens cfg (store_cookies (clear_tokens cfg) jar)
        ≡ record { id_token = []; access_token = []; refresh_token = [] }
  unfolding read_tokens cookie_value clear_tokens store_cookies make_cookie
  read_tokens-clear_tokens jar =
      let (ia, ir, ar) = names_differ in
      let jar1 = without (cookie_name cfg suffix_id_token) jar in
      let jar2 = without (cookie_name cfg suffix_access_token) jar1 in
      ground (
        arith,
        value-without_self (cookie_name cfg suffix_id_token) jar,
        value-without_ne (cookie_name cfg suffix_access_token) (cookie_name cfg suffix_id_token)
            jar1 (λ e. ia (sym e)),
        value-without_ne (cookie_name cfg suffix_refresh_token) (cookie_name cfg suffix_id_token)
            jar2 (λ e. ir (sym e)),
        value-without_self (cookie_name cfg suffix_access_token) jar1,
        value-without_ne (cookie_name cfg suffix_refresh_token)
            (cookie_name cfg suffix_access_token) jar2 (λ e. ar (sym e)),
        value-without_self (cookie_name cfg suffix_refresh_token) jar2,
      )
