-- ===== src/Url.antt =====
-- The part of Go's `net/url` that the program relies on: `url.Parse`, with the fields that the
-- program reads, `Hostname`, and `IsAbs`.
pub mod Escape
pub mod Query
pub mod Values
pub mod Authority
use oidc_proxy.Base.{
  ℕ, ◌+◌, ◌-◌, ◌*◌, Bool, true, false, not, ◌&&◌, ◌||◌, Option, none, some, [], ◌∷◌, ◌++◌, Text,
  String, ltb, leb, ◌==◌, if◌then◌else◌, codes, text_eq, to_lower, has_prefix, has_suffix, drop,
  cut_prefix, contains_text, cut, cut_last, any, all, is_some, is_empty,
}
use oidc_proxy.Url.Escape.{◌>>=◌, ◌>>◌, require, Mode, plain, unescape}
use oidc_proxy.Url.Authority.{scheme_from, valid_optional_port, parse_authority}

pub record Url : Type 0 where
  pub scheme : Text
  -- whether `User` is not nil
  pub has_user : Bool
  pub host : Text
  pub path : Text
  pub raw_query : Text
  pub fragment : Text

with_authority : Text → Text → Text × Option Text → Option Url
unfolding parse_authority unescape
with_authority scheme query (authority, after) = do
  (user, host) ← parse_authority authority
  path ← unescape plain (elim after [ none ↦ [] | some p ↦ b'/' ∷ p ])
  some (record {
    scheme = scheme;
    has_user = user;
    host = host;
    path = path;
    raw_query = query;
    fragment = [];
  })

-- `url.Parse` after the query has been cut off: the authority and the path
parse_rest : Text → Text → Text → Option Url
unfolding has_prefix contains_text codes cut with_authority unescape
parse_rest scheme query rest =
    if not (has_prefix rest (codes "/")) && not (is_empty scheme)
    then some (record {
      scheme = scheme;
      has_user = false;
      host = [];
      path = [];
      raw_query = query;
      fragment = [];
    })
    else if not (has_prefix rest (codes "/")) && contains_text (cut b'/' rest).0 (codes ":")
    then none
    else if has_prefix rest (codes "//")
        && (not (is_empty scheme) || not (has_prefix rest (codes "///")))
    then with_authority scheme query (cut b'/' (drop 2 rest))
    else do
      path ← unescape plain rest
      some (record {
        scheme = scheme;
        has_user = false;
        host = [];
        path = path;
        raw_query = query;
        fragment = [];
      })

-- `parse`, which is given the text up to the fragment
parse_without_fragment : Text → Option Url
unfolding any text_eq codes scheme_from to_lower cut parse_rest
parse_without_fragment raw = if any (λ c. ltb c b' ' || c == 0x7f) raw then none else do
  (scheme, rest) ← scheme_from raw [] raw
  let (before, query) = cut b'?' rest
  parse_rest (to_lower scheme) (elim query [ none ↦ [] | some q ↦ q ]) before

-- `url.Parse(raw)`
unfoldable pub url_parse : Text → Option Url
unfolding cut parse_without_fragment unescape
url_parse raw =
    let (before, fragment) = cut b'#' raw in
    do
      u ← parse_without_fragment before
      f ← unescape plain (elim fragment [ none ↦ [] | some f ↦ f ])
      some (record u { fragment = f })

-- A host without its port and its brackets
unfoldable pub strip_port : Text → Text
unfolding cut_last cut valid_optional_port has_prefix has_suffix cut_prefix codes
strip_port whole =
    let (before, port) = cut_last b':' whole in
    let host : Text = elim before [
      | none ↦ whole
      | some h ↦ if valid_optional_port (b':' ∷ port) then h else whole
    ] in
    if has_prefix host (codes "[") && has_suffix host (codes "]")
    then (elim (cut_last b']' (drop 1 host)).0 [ none ↦ host | some h ↦ h ])
    else host

-- `u.Hostname()`
unfoldable pub hostname : Url → Text
hostname u = strip_port u.host

-- `u.IsAbs()`
unfoldable pub is_abs : Url → Bool
is_abs u = not (is_empty u.scheme)
