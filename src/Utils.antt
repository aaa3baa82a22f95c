-- ===== src/Utils.antt =====
-- internal/utils/http.go: the request as the reverse proxy forwarded it, and redirect targets.
pub mod Redirect
use oidc_proxy.Base.{
  ℕ, Bool, not, ◌&&◌, ◌||◌, Option, none, some, [], ◌∷◌, ◌++◌, Text, codes, cut, cut_last,
  has_prefix, trim_space, is_empty, is_some, any, drop, if◌then◌else◌,
}
use oidc_proxy.Url.{Url, url_parse}
use oidc_proxy.Http.{Request, Values, get}

unfoldable pub first_field : Text → Text
first_field s = trim_space (cut b',' s).0

unfoldable pub forwarded_proto : Request → Text
forwarded_proto r =
    let v = get r.header "X-Forwarded-Proto" in
    if not (is_empty v) then first_field v else if r.tls then codes "https" else codes "http"

unfoldable pub forwarded_host : Request → Text
forwarded_host r =
    let v = get r.header "X-Forwarded-Host" in if not (is_empty v) then first_field v else r.host

abbrev pub leading_slash : Text → Text
leading_slash uri = if has_prefix uri (codes "/") then uri else b'/' ∷ uri

unfoldable pub original_url : Request → Text
original_url r =
    let given = get r.header "X-Forwarded-Uri" in
    let uri = if is_empty given then codes "/" else given in
    forwarded_proto r ++ codes "://" ++ forwarded_host r ++ leading_slash uri

-- Only same-origin paths; anything else becomes the empty text.
unfoldable pub sanitize_redirect : Text → Text
sanitize_redirect raw =
    if is_empty raw
    then []
    else if has_prefix raw (codes "/") && not (has_prefix raw (codes "//"))
    then raw
    else []

unfoldable pub origin_of : Text → Text
origin_of raw_url = elim (url_parse raw_url) [
  | none ↦ []
  | some u ↦
      if is_empty u.scheme
      then []
      else if is_empty u.host
      then []
      else u.scheme ++ codes "://" ++ u.host
]

abbrev has_byte : ℕ → Text → Bool
has_byte c s = is_some (cut c s).1

-- The host of `net.SplitHostPort(addr)` for an address in brackets, and for any other, given what
-- stands before and after the last colon
unfoldable pub bracketed_host : Text → Text → Option Text
bracketed_host h port =
    let (inside, after) = cut b']' (drop 1 h) in
    elim after [
      | none ↦ none
      | some rest ↦
          if is_empty rest
            && not (has_byte b'[' inside)
            && not (has_byte b']' port)
            && not (has_byte b'[' port)
          then some inside
          else none
    ]

unfoldable pub bare_host : Text → Text → Option Text
bare_host h port =
    if any (λ c. has_byte c h) (codes ":[]") || any (λ c. has_byte c port) (codes "[]")
    then none
    else some h

-- The host of `net.SplitHostPort(addr)`; `none` is its error.
unfoldable pub split_host : Text → Option Text
split_host addr =
    let (before, port) = cut_last b':' addr in
    elim before [
      | none ↦ none
      | some h ↦ if has_prefix addr (codes "[") then bracketed_host h port else bare_host h port
    ]

unfoldable pub client_ip : Request → Text
client_ip r =
    let v = get r.header "X-Forwarded-For" in
    if not (is_empty v)
    then first_field v
    else (elim (split_host r.remote_addr) [ some h ↦ h | none ↦ r.remote_addr ])
