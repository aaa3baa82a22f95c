-- ===== src/Url/Escape.antt =====
-- Go's `net/url`: character classes and percent-decoding, and the chain of fallible steps.
use oidc_proxy.Base.{
  ℕ, ◌+◌, ◌-◌, ◌*◌, Bool, true, false, ◌&&◌, ◌||◌, Option, none, some, [], ◌∷◌, Text, String, ltb,
  leb, ◌==◌, if◌then◌else◌, codes, any,
}

infixl 5 ◌>>=◌
abbrev pub ◌>>=◌ {ℓ κ} : {A : Type ℓ} {B : Type κ} → Option A → (A → Option B) → Option B
none >>= k = none
some a >>= k = k a

infixl 5 ◌>>◌
abbrev pub ◌>>◌ {ℓ} : {B : Type ℓ} → Option (Unit {0}) → Option B → Option B
m >> k = m >>= λ _. k

abbrev pub require : Bool → Option (Unit {0})
require true = some tt
require false = none

unfoldable pub is_alpha : ℕ → Bool
is_alpha c = (leb b'a' c && leb c b'z') || (leb b'A' c && leb c b'Z')

unfoldable pub is_digit : ℕ → Bool
is_digit c = leb b'0' c && leb c b'9'

unfoldable pub is_one_of : ℕ → String → Bool
unfolding any codes
is_one_of c s = any (λ d. d == c) (codes s)

-- `ishex` and `unhex`
unfoldable pub unhex : ℕ → Option ℕ
unfolding is_digit
unhex c =
    if is_digit c
    then some (c - b'0')
    else if leb b'a' c && leb c b'f'
    then some (c - b'a' + 10)
    else if leb b'A' c && leb c b'F'
    then some (c - b'A' + 10)
    else none

-- `unescape` serves paths, fragments and user names (`plain`), hosts, and IPv6 zones.
pub data Mode : Type 0 where
  plain in_host in_zone : Mode

-- A character that may stand for itself in a host: `shouldEscape` is false.
unfoldable pub host_char : ℕ → Bool
unfolding is_alpha is_digit is_one_of
host_char c = leb 0x80 c || is_alpha c || is_digit c || is_one_of c "-_.~!$&'()*+,;=:[]<>\""

-- Whether a literal character may occur.
unfoldable pub literal_ok : Mode → ℕ → Bool
unfolding host_char
literal_ok plain c = true
literal_ok _ c = host_char c

-- Whether an escaped byte of value `v` may occur: in a host only one outside ASCII, or a percent
-- sign; in a zone a percent sign, a space, and what a host may hold in ASCII.
unfoldable pub escaped_ok : Mode → ℕ → Bool
unfolding host_char
escaped_ok plain v = true
escaped_ok in_host v = leb 0x80 v || v == b'%'
escaped_ok in_zone v = v == b'%' || v == b' ' || (ltb v 0x80 && host_char v)

-- What the scan has read of an escape.
pub data Pending : Type 0 where
  idle percent : Pending
  digit : ℕ → Pending

unfoldable pub unescape_from : Mode → Pending → Text → Option Text
unfolding literal_ok escaped_ok unhex
unescape_from m idle [] = some []
unescape_from m _ [] = none
unescape_from m idle (c ∷ s) =
    let escape = unescape_from m percent s in
    let literal = unescape_from m idle s in
    if c == b'%' then escape else (do require (literal_ok m c); r ← literal; some (c ∷ r))
unescape_from m percent (c ∷ s) = do h ← unhex c; unescape_from m (digit h) s
unescape_from m (digit h) (c ∷ s) = do
  l ← unhex c
  require (escaped_ok m (16 * h + l))
  r ← unescape_from m idle s
  some ((16 * h + l) ∷ r)

unfoldable pub unescape : Mode → Text → Option Text
unfolding unescape_from
unescape m s = unescape_from m idle s
