-- ===== src/Url/Authority.antt =====
-- Go's `net/url`: the scheme and the authority of a URL.
use oidc_proxy.Base.{
  Bool, true, false, not, ◌&&◌, ◌||◌, Option, none, some, [], ◌∷◌, ◌++◌, Text, ◌==◌, if◌then◌else◌,
  codes, has_prefix, cut, cut_last, all, is_some, is_empty,
}
use oidc_proxy.Url.Escape.{
  ◌>>=◌, ◌>>◌, require, is_alpha, is_digit, is_one_of, plain, in_host, in_zone, unescape,
}

-- `getScheme`: the scheme, which may be empty, and what follows it; `none` if it begins with `:`.
unfoldable pub scheme_from : Text → Text → Text → Option (Text × Text)
unfolding is_alpha is_digit is_one_of
scheme_from whole cur [] = some ([], whole)
scheme_from whole cur (c ∷ s) =
    let longer = scheme_from whole (cur ++ c ∷ []) s in
    if is_alpha c
    then longer
    else if is_digit c || is_one_of c "+-."
    then (if is_empty cur then some ([], whole) else longer)
    else if c == b':'
    then (if is_empty cur then none else some (cur, s))
    else some ([], whole)

-- `validOptionalPort`
unfoldable pub valid_optional_port : Text → Bool
unfolding all is_digit
valid_optional_port [] = true
valid_optional_port (c ∷ s) = c == b':' && all is_digit s

-- `validUserinfo`
unfoldable pub valid_userinfo : Text → Bool
unfolding all is_alpha is_digit is_one_of
valid_userinfo = all (λ c. is_alpha c || is_digit c || is_one_of c "-._:~!$&'()*+,;=%@")

-- The part of a bracketed host from the zone's `%25` on, if there is one.
unfoldable pub split_zone : Text → Text × Text
unfolding has_prefix codes
split_zone [] = ([], [])
split_zone (c ∷ s) =
    let rest = split_zone s in
    if has_prefix (c ∷ s) (codes "%25") then ([], c ∷ s) else (c ∷ rest.0, rest.1)

-- `parseHost` on a bracketed address, and on any other host, cut at its last `]` or `:`
unfoldable pub parse_bracketed : Option Text × Text → Option Text
unfolding valid_optional_port split_zone unescape
parse_bracketed (inside, port) = do
  literal ← inside
  require (valid_optional_port port)
  let (address, zone) = split_zone literal
  a ← unescape in_host address
  z ← unescape in_zone zone
  p ← unescape in_host (b']' ∷ port)
  some (a ++ z ++ p)

unfoldable pub parse_plain : Text → Option Text × Text → Option Text
unfolding valid_optional_port unescape
parse_plain host (before, port) = do
  require (not (is_some before) || valid_optional_port (b':' ∷ port))
  unescape in_host host

-- `parseHost`
unfoldable pub parse_host : Text → Option Text
unfolding has_prefix cut_last codes parse_bracketed parse_plain
parse_host host =
    if has_prefix host (codes "[")
    then parse_bracketed (cut_last b']' host)
    else parse_plain host (cut_last b':' host)

-- `parseAuthority`: whether there is user information, and the host
unfoldable pub parse_authority : Text → Option (Bool × Text)
unfolding cut_last cut parse_host valid_userinfo unescape
parse_authority authority =
    let (before, host) = cut_last b'@' authority in
    elim before [
      | none ↦ do h ← parse_host authority; some (false, h)
      | some user ↦ do
        h ← parse_host host
        require (valid_userinfo user)
        _ ← unescape plain user
        some (true, h)
    ]
