-- ===== src/Mcpauth/Cimd/Duration.antt =====
-- internal/mcpauth/cimd.go: the lifetime of a cached document, from its Cache-Control header.
-- Durations are in nanoseconds.
use oidc_proxy.Base.{
  ◌∙◌, Bool-cases, Option-cases, inl, inr, false, ℕ, ◌+◌, ◌-◌, ◌*◌, ◌^◌, ◌≤◌, ◌≡◌, refl, Bool, ◌&&◌,
  ◌||◌, Option, none, some, List, [], ◌∷◌, Text, arith, codes, text_eq, to_lower, trim_space,
  cut_prefix, ltb, leb, ◌==◌, split, if◌then◌else◌, ℤ, pos, negsuc, mul_int64, negate,
}
use Prim.Native.Nat.{min, max}
use oidc_proxy.Mcpauth.Jose.{second}

abbrev pub cimd_min_ttl : ℕ
cimd_min_ttl = 60 * second

abbrev pub cimd_max_ttl : ℕ
cimd_max_ttl = 24 * 60 * 60 * second

abbrev pub cimd_negative_ttl : ℕ
cimd_negative_ttl = 60 * second

-- `clampDuration(d, lo, hi)`
unfoldable pub clamp_duration : ℤ → ℕ → ℕ → ℕ
clamp_duration (negsuc n) lo hi = lo
clamp_duration (pos n) lo hi = if ltb n lo then lo else if ltb hi n then hi else n

-- The digits of a number, most significant first; `none` if there is another character.
unfoldable pub digits_from : ℕ → Text → Option ℕ
digits_from n [] = some n
digits_from n (c ∷ s) =
    let rest = digits_from (n * 10 + (c - b'0')) s in
    if leb b'0' c && leb c b'9' then rest else none

abbrev digits : Text → Option ℕ
digits [] = none
digits (c ∷ s) = digits_from 0 (c ∷ s)

-- A number in the range of `int64`, given its sign and its magnitude.
abbrev in_range : Bool → Option ℕ → Option ℤ
in_range negative none = none
in_range Bool.false (some n) = if ltb n (2 ^ 63) then some (pos n) else none
in_range Bool.true (some n) = if leb n (2 ^ 63) then some (negate n) else none

-- `strconv.Atoi`
unfoldable pub atoi : Text → Option ℤ
unfolding digits_from negate
atoi [] = none
atoi (c ∷ s) =
    if c == b'-'
    then in_range Bool.true (digits s)
    else if c == b'+'
    then in_range Bool.false (digits s)
    else in_range Bool.false (digits (c ∷ s))

-- The loop of `cacheTTL` over the parts of the header.
unfoldable pub ttl_of_parts : ℕ → List Text → ℕ
ttl_of_parts default_ttl [] = clamp_duration (pos default_ttl) cimd_min_ttl cimd_max_ttl
ttl_of_parts default_ttl (raw ∷ parts) =
    let rest = ttl_of_parts default_ttl parts in
    let part = to_lower (trim_space raw) in
    if text_eq part (codes "no-store") || text_eq part (codes "no-cache")
    then cimd_min_ttl
    else elim (cut_prefix part (codes "max-age=")) [
      | none ↦ rest
      | some number ↦ elim (atoi number) [
        | none ↦ rest
        | some secs ↦ clamp_duration (mul_int64 secs second) cimd_min_ttl cimd_max_ttl
      ]
    ]

-- `cacheTTL(cacheControl)`
unfoldable pub cache_ttl : ℕ → Text → ℕ
cache_ttl default_ttl cache_control = ttl_of_parts default_ttl (split b',' cache_control)

clamp_duration_bounds :
    (d : ℤ) (lo hi : ℕ) → lo ≤ hi → (lo ≤ clamp_duration d lo hi) × (clamp_duration d lo hi ≤ hi)
unfolding clamp_duration
clamp_duration_bounds (negsuc n) lo hi h = omega arith
clamp_duration_bounds (pos n) lo hi h = ground arith

ttl_of_parts_bounds :
    (default_ttl : ℕ) (parts : List Text)
    → (cimd_min_ttl ≤ ttl_of_parts default_ttl parts)
      × (ttl_of_parts default_ttl parts ≤ cimd_max_ttl)
unfolding ttl_of_parts
ttl_of_parts_bounds default_ttl [] = clamp_duration_bounds (pos default_ttl) _ _ (omega arith)
ttl_of_parts_bounds default_ttl (raw ∷ parts) =
    let part = to_lower (trim_space raw) in
    elim (Bool-cases (text_eq part (codes "no-store") || text_eq part (codes "no-cache"))) [
      | inl never ↦ rw never (omega arith)
      | inr ordinary ↦ elim (Option-cases (cut_prefix part (codes "max-age="))) [
        | inl other ↦ rw (ordinary, other) (ttl_of_parts_bounds default_ttl parts)
        | inr (number, cut) ↦ elim (Option-cases (atoi number)) [
          | inl bad ↦ rw (ordinary, cut, bad) (ttl_of_parts_bounds default_ttl parts)
          | inr (secs, read) ↦
              rw (ordinary, cut, read)
                (clamp_duration_bounds (mul_int64 secs second) _ _ (omega arith))
        ]
      ]
    ]

-- Whatever the header says, the lifetime lies between one minute and 24 hours.
pub cache_ttl_bounds :
    (default_ttl : ℕ) (cache_control : Text)
    → (cimd_min_ttl ≤ cache_ttl default_ttl cache_control)
      × (cache_ttl default_ttl cache_control ≤ cimd_max_ttl)
unfolding cache_ttl
cache_ttl_bounds default_ttl cache_control =
    ttl_of_parts_bounds default_ttl (split b',' cache_control)

max_age_ordinary :
    (part number : Text)
    → cut_prefix part (codes "max-age=") ≡ some number
    → (text_eq part (codes "no-store") || text_eq part (codes "no-cache")) ≡ false
unfolding cut_prefix text_eq codes
max_age_ordinary [] number h = ground arith
max_age_ordinary (c ∷ part) number h = ground arith

max_age_first :
    (default_ttl : ℕ) (secs : ℤ) (raw number : Text) (parts : List Text)
    → cut_prefix (to_lower (trim_space raw)) (codes "max-age=") ≡ some number
    → atoi number ≡ some secs
    → ttl_of_parts default_ttl (raw ∷ parts)
      ≡ clamp_duration (mul_int64 secs second) cimd_min_ttl cimd_max_ttl
unfolding ttl_of_parts
max_age_first default_ttl secs raw number parts cut read =
    rw (max_age_ordinary (to_lower (trim_space raw)) number cut, cut, read) refl

-- A max-age directive that stands first is honoured between the bounds, as long as its seconds in
-- nanoseconds fit into an `int64`.
pub max_age_honoured :
    (default_ttl secs : ℕ) (raw number : Text) (parts : List Text)
    → cut_prefix (to_lower (trim_space raw)) (codes "max-age=") ≡ some number
    → atoi number ≡ some (pos secs)
    → secs ≤ 9_223_372_036
    → ttl_of_parts default_ttl (raw ∷ parts) ≡ max cimd_min_ttl (min cimd_max_ttl (secs * second))
unfolding clamp_duration mul_int64
max_age_honoured default_ttl secs raw number parts cut read small =
    max_age_first default_ttl (pos secs) raw number parts cut read ∙ ground arith

-- A max-age directive that stands first, of 9223372037 to 18446744073 seconds, whose nanoseconds do not
-- fit into an `int64` but into 64 bits, gets the shortest lifetime and not the longest: the product
-- wraps around to a negative number.
pub max_age_overflow :
    (default_ttl secs : ℕ) (raw number : Text) (parts : List Text)
    → cut_prefix (to_lower (trim_space raw)) (codes "max-age=") ≡ some number
    → atoi number ≡ some (pos secs)
    → 9_223_372_037 ≤ secs
    → secs ≤ 18_446_744_073
    → ttl_of_parts default_ttl (raw ∷ parts) ≡ cimd_min_ttl
unfolding clamp_duration mul_int64
max_age_overflow default_ttl secs raw number parts cut read large small =
    max_age_first default_ttl (pos secs) raw number parts cut read ∙ ground arith
