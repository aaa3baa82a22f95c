-- ===== src/Url/Values/RoundTrip.antt =====
-- `QueryUnescape` undoes `QueryEscape`.
use oidc_proxy.Base.{
  ℕ, ◌+◌, ◌*◌, ◌/◌, ◌%◌, ◌<◌, ◌≡◌, refl, ap, sym, inl, inr, true, false, some, [], ◌∷◌, ◌++◌, map,
  Text, arith, All, ◌==◌, ==_iff, Bool-cases, codes, any,
}
use oidc_proxy.Url.Escape.{
  plain, unescape, unescape_from, literal_ok, escaped_ok, idle, unhex, is_digit,
}
use oidc_proxy.Url.Query.{query_escape, escape_byte, hex_digit, is_unreserved}
use oidc_proxy.Url.Values.{plus_to_space, query_unescape}

-- The text is a Go string: its members are bytes.
abbrev pub IsBytes : Text → Type 0
IsBytes s = All (λ b. b < 256) s

unreserved_plain : (b : ℕ) → is_unreserved b ≡ true → ((b == b'+') ≡ false) × ((b == b'%') ≡ false)
unfolding is_unreserved any codes
unreserved_plain b h = (ground arith, ground arith)

unhex-hex_digit : (n : ℕ) → n < 16 → unhex (hex_digit n) ≡ some n
unfolding unhex is_digit hex_digit
unhex-hex_digit n h = ground arith

hex_digit_plain : (n : ℕ) → n < 16 → plus_to_space (hex_digit n) ≡ hex_digit n
unfolding plus_to_space hex_digit
hex_digit_plain n h = ground arith

plain_eq : (b : ℕ) → (b == b'+') ≡ false → plus_to_space b ≡ b
unfolding plus_to_space
plain_eq b h = rw h refl

unescape_byte :
    (b : ℕ) (rest r : Text)
    → b < 256
    → unescape_from plain idle (map plus_to_space rest) ≡ some r
    → unescape_from plain idle (map plus_to_space (escape_byte b ++ rest)) ≡ some (b ∷ r)
unfolding unescape_from literal_ok escaped_ok plus_to_space escape_byte
unescape_byte b rest r small h = elim (Bool-cases (b == b' ')) [
  | inl space ↦
      rw (space, unescape_from, h) (ap (λ x. some (x ∷ r)) (sym ((==_iff b b' ').0 space)))
  | inr other ↦ elim (Bool-cases (is_unreserved b)) [
    | inl safe ↦
        let (no_plus, no_percent) = unreserved_plain b safe in
        rw (other, safe, unescape_from, plain_eq b no_plus, no_percent, h) refl
    | inr unsafe ↦
        let high : b / 16 < 16 = omega arith in
        let low : b % 16 < 16 = omega arith in
        let whole : 16 * (b / 16) + b % 16 ≡ b = omega arith in
        rw
          (
            other,
            unsafe,
            unescape_from,
            hex_digit_plain (b / 16) high,
            hex_digit_plain (b % 16) low,
            unhex-hex_digit (b / 16) high,
            unhex-hex_digit (b % 16) low,
            h,
          )
          (ap (λ x. some (x ∷ r)) whole)
  ]
]

-- A string that `QueryEscape` has encoded is what `QueryUnescape` decodes.
pub query_unescape-query_escape : (s : Text) → IsBytes s → query_unescape (query_escape s) ≡ some s
unfolding query_unescape unescape query_escape unescape_from
query_unescape-query_escape [] h = refl
query_unescape-query_escape (b ∷ s) (small, h) =
    unescape_byte b (query_escape s) s small (query_unescape-query_escape s h)
