-- ===== src/Url/Values.antt =====
-- `url.Values`: `QueryUnescape`, `ParseQuery` as `u.Query()` gives it (pairs that do not parse are
-- left out), `Set` and `Encode`.
pub mod RoundTrip
pub mod Encoded
pub mod Lookup
use oidc_proxy.Base.{
  ℕ, Bool, true, false, ◌||◌, Option, none, some, List, [], ◌∷◌, ◌++◌, map, String, Text, codes,
  ltb, ◌==◌, text_eq, is_empty, is_some, cut, split, if◌then◌else◌,
}
use oidc_proxy.Http.{Values}
use oidc_proxy.Url.Escape.{◌>>=◌, plain, unescape}
use oidc_proxy.Url.Query.{query_escape}

unfoldable pub plus_to_space : ℕ → ℕ
plus_to_space c = if c == b'+' then b' ' else c

-- `url.QueryUnescape(s)`
unfoldable pub query_unescape : Text → Option Text
query_unescape s = unescape plain (map plus_to_space s)

abbrev pub or_empty : Option Text → Text
or_empty none = []
or_empty (some t) = t

-- The key and the value of one part of a query, unless the part is dropped.
unfoldable pub parse_pair : Text → Option (Text × Text)
parse_pair part = if is_empty part || is_some (cut b';' part).1 then none else do
  key ← query_unescape (cut b'=' part).0
  value ← query_unescape (or_empty (cut b'=' part).1)
  some (key, value)

abbrev pub add_pair : Option (Text × Text) → Values → Values
add_pair none vs = vs
add_pair (some kv) vs = kv ∷ vs

unfoldable pub parse_pairs : List Text → Values
parse_pairs [] = []
parse_pairs (part ∷ parts) = add_pair (parse_pair part) (parse_pairs parts)

-- `u.Query()`, of the raw query of `u`
unfoldable pub parse_query : Text → Values
parse_query raw = parse_pairs (split b'&' raw)

-- The pairs whose key is another one.
unfoldable pub remove : Text → Values → Values
remove k [] = []
remove k (kv ∷ vs) = if text_eq kv.0 k then remove k vs else kv ∷ remove k vs

-- `q.Set(name, v)`
unfoldable pub set_value : Values → String → Text → Values
set_value vs name v = remove (codes name) vs ++ (codes name, v) ∷ []

-- `s <= t`, byte by byte
unfoldable pub text_le : Text → Text → Bool
text_le [] t = true
text_le (a ∷ s) [] = false
text_le (a ∷ s) (b ∷ t) = if a == b then text_le s t else ltb a b

unfoldable pub insert : Text × Text → Values → Values
insert kv [] = kv ∷ []
insert kv (x ∷ xs) = if text_le kv.0 x.0 then kv ∷ x ∷ xs else x ∷ insert kv xs

-- The pairs in the order of their keys; pairs with the same key keep their order.
unfoldable pub sort_keys : Values → Values
sort_keys [] = []
sort_keys (kv ∷ vs) = insert kv (sort_keys vs)

abbrev pub encode_pair : Text × Text → Text
encode_pair (k, v) = query_escape k ++ b'=' ∷ query_escape v

unfoldable pub join_pairs : Values → Text
join_pairs [] = []
join_pairs (kv ∷ []) = encode_pair kv
join_pairs (kv ∷ x ∷ xs) = encode_pair kv ++ b'&' ∷ join_pairs (x ∷ xs)

-- `q.Encode()`
unfoldable pub encode : Values → Text
encode vs = join_pairs (sort_keys vs)
