-- ===== src/Mcpauth/RedirectUri.antt =====
-- internal/mcpauth/cimd.go, the checks on URLs: which redirect URIs may be registered, which one an
-- authorization request may name, and the form of a client_id that is a URL.
pub mod Laws
use oidc_proxy.Base.{
  Bool, true, false, not, ◌&&◌, ◌||◌, Option, none, some, List, [], ◌∷◌, Text, codes, text_eq,
  contains, contains_text, to_lower, trim_char, is_empty, all, if◌then◌else◌, Message, message,
  Result, ok, err,
}
use oidc_proxy.Url.{Url, url_parse, hostname, is_abs}

-- `IsURLClientID`
unfoldable pub is_url_client_id : Text → Bool
is_url_client_id client_id = contains_text client_id (codes "://")

unfoldable pub is_loopback_host : Text → Bool
is_loopback_host host =
    let h = to_lower host in
    text_eq h (codes "127.0.0.1") || text_eq h (codes "::1") || text_eq h (codes "localhost")

-- `u.Fragment != "" || strings.Contains(raw, "#")`
unfoldable pub has_fragment : Text → Url → Bool
has_fragment raw u = not (is_empty u.fragment) || contains_text raw (codes "#")

-- `ValidateRedirectURI`; `none` is the nil error.
unfoldable pub validate_redirect_uri : Text → Option Message
validate_redirect_uri raw = elim (url_parse raw) [
  | none ↦ some (message "not a valid URI")
  | some u ↦
      if not (is_abs u) || is_empty u.host
      then some (message "must be an absolute URI")
      else if has_fragment raw u
      then some (message "must not contain a fragment")
      else if text_eq u.scheme (codes "https")
      then none
      else if text_eq u.scheme (codes "http")
      then (if is_loopback_host (hostname u)
          then none
          else some (message "http is only allowed for loopback (127.0.0.1 / localhost)"))
      else some (message "scheme must be https or loopback http")
]

-- The comparison of a loopback candidate with a registered URI, ports aside.
unfoldable pub same_but_port : Url → Url → Bool
same_but_port want got =
    text_eq want.scheme got.scheme
    && text_eq (hostname want) (hostname got)
    && text_eq want.path got.path
    && text_eq want.raw_query got.raw_query

-- The loop over the registered URIs.
unfoldable pub match_loopback : List Text → Url → Bool
match_loopback [] got = false
match_loopback (raw ∷ registered) got =
    let rest = match_loopback registered got in
    elim (url_parse raw) [
      | none ↦ rest
      | some want ↦
          if not (is_loopback_host (hostname want))
          then rest
          else if same_but_port want got
          then true
          else rest
    ]

-- `MatchRedirectURI`
unfoldable pub match_redirect_uri : List Text → Text → Bool
match_redirect_uri registered candidate =
    if is_empty candidate
    then false
    else if contains registered candidate
    then true
    else elim (url_parse candidate) [
      | none ↦ false
      | some got ↦
          if got.has_user || not (is_empty got.fragment) || not (is_loopback_host (hostname got))
          then false
          else match_loopback registered got
    ]

-- `validateCIMDURL`
unfoldable pub validate_cimd_url : Text → Result Url
validate_cimd_url raw = elim (url_parse raw) [
  | none ↦ err (message "client_id is not a valid URL: %w")
  | some u ↦
      if not (text_eq u.scheme (codes "https"))
      then err (message "client_id URL must use the https scheme")
      else if is_empty u.host
      then err (message "client_id URL must include a host")
      else if u.has_user
      then err (message "client_id URL must not include userinfo")
      else if has_fragment raw u
      then err (message "client_id URL must not contain a fragment")
      else if is_empty (trim_char b'/' u.path)
      then err (message "client_id URL must contain a path component")
      else ok u
]
