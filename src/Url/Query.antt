-- ===== src/Url/Query.antt =====
-- `url.QueryEscape`.
use oidc_proxy.Base.{
  ℕ, ◌+◌, ◌/◌, ◌%◌, Bool, ◌&&◌, ◌||◌, [], ◌∷◌, ◌++◌, Text, codes, leb, ltb, ◌==◌, any,
  if◌then◌else◌,
}

abbrev is_in : ℕ → ℕ → ℕ → Bool
is_in lo hi b = leb lo b && leb b hi

-- Letters, digits and "-_.~" stay as they are.
unfoldable pub is_unreserved : ℕ → Bool
is_unreserved b =
    is_in b'a' b'z' b || is_in b'A' b'Z' b || is_in b'0' b'9' b || any (λ d. d == b) (codes "-_.~")

unfoldable pub hex_digit : ℕ → ℕ
hex_digit n = if ltb n 10 then n + b'0' else n + 55

unfoldable pub escape_byte : ℕ → Text
escape_byte b =
    if b == b' '
    then b'+' ∷ []
    else if is_unreserved b
    then b ∷ []
    else b'%' ∷ hex_digit (b / 16) ∷ hex_digit (b % 16) ∷ []

unfoldable pub query_escape : Text → Text
query_escape [] = []
query_escape (b ∷ s) = escape_byte b ++ query_escape s
