-- ===== src/Url/Values/Encoded.antt =====
-- What `Encode` writes, `ParseQuery` reads back.
use oidc_proxy.Base.{
  ℕ, ◌/◌, ◌%◌, ◌<◌, ◌≡◌, refl, ap, sym, ◌∙◌, inl, inr, true, false, none, some, [], ◌∷◌, ◌++◌, Text,
  arith, All, All-append, ◌==◌, Bool-cases, codes, any, cut, split, split_from, is_empty,
}
use mathlib.Core.List.{reverse, reverse-cons, append_assoc, append-nil}
use oidc_proxy.Http.{Values}
use oidc_proxy.Url.Query.{query_escape, escape_byte, hex_digit, is_unreserved}
use oidc_proxy.Url.Values.{
  parse_pair, parse_pairs, parse_query, text_le, insert, sort_keys, encode_pair, join_pairs, encode,
}
use oidc_proxy.Url.Values.RoundTrip.{IsBytes, query_unescape-query_escape}

-- A byte that separates nothing in a query.
abbrev IsInert : ℕ → Type 0
IsInert c = ((c == b'&') ≡ false) × ((c == b'=') ≡ false) × ((c == b';') ≡ false)

unreserved-IsInert : (b : ℕ) → is_unreserved b ≡ true → IsInert b
unfolding is_unreserved any codes
unreserved-IsInert b h = (ground arith, ground arith, ground arith)

hex_digit-IsInert : (n : ℕ) → n < 16 → IsInert (hex_digit n)
unfolding hex_digit
hex_digit-IsInert n h = (ground arith, ground arith, ground arith)

escape_byte-IsInert : (b : ℕ) → b < 256 → All IsInert (escape_byte b)
unfolding escape_byte
escape_byte-IsInert b small = elim (Bool-cases (b == b' ')) [
  | inl space ↦ rw (space, escape_byte) ((refl, refl, refl), tt)
  | inr other ↦ elim (Bool-cases (is_unreserved b)) [
    | inl safe ↦ rw (other, safe, escape_byte) (unreserved-IsInert b safe, tt)
    | inr unsafe ↦
        rw (other, unsafe, escape_byte)
          (
            (refl, refl, refl),
            (
              hex_digit-IsInert (b / 16) (omega arith),
              (hex_digit-IsInert (b % 16) (omega arith), tt),
            ),
          )
  ]
]

escape-IsInert : (s : Text) → IsBytes s → All IsInert (query_escape s)
unfolding query_escape
escape-IsInert [] h = tt
escape-IsInert (b ∷ s) (small, h) =
    All-append IsInert (escape_byte b) (query_escape s) (escape_byte-IsInert b small)
      (escape-IsInert s h)

abbrev Free : ℕ → Text → Type 0
Free c s = All (λ d. (d == c) ≡ false) s

All-map : {P Q : ℕ → Type 0} → ((d : ℕ) → P d → Q d) → (s : Text) → All P s → All Q s
All-map f [] h = tt
All-map f (d ∷ s) (p, h) = (f d p, All-map f s h)

cut-Free : (c : ℕ) (s : Text) → Free c s → cut c s ≡ (s, none)
unfolding cut
cut-Free c [] h = refl
cut-Free c (d ∷ s) (p, h) = rw (p, cut-Free c s h) refl

cut_at : (c : ℕ) (s t : Text) → Free c s → cut c (s ++ c ∷ t) ≡ (s, some t)
unfolding cut
cut_at c [] t h = let same : (c == c) ≡ true = ground arith in rw same refl
cut_at c (d ∷ s) t (p, h) = rw (p, cut_at c s t h) refl

split-Free : (c : ℕ) (cur s : Text) → Free c s → split_from c cur s ≡ (reverse cur ++ s) ∷ []
unfolding split_from
split-Free c cur [] h = ap (λ t. t ∷ []) (sym (append-nil (reverse cur)))
split-Free c cur (d ∷ s) (p, h) = rw p (
    split-Free c (d ∷ cur) s h
    ∙ ap (λ t. t ∷ [])
        (ap (λ t. t ++ s) (reverse-cons d cur) ∙ append_assoc (reverse cur) (d ∷ []) s))

split_at :
    (c : ℕ) (cur s t : Text)
    → Free c s
    → split_from c cur (s ++ c ∷ t) ≡ (reverse cur ++ s) ∷ split_from c [] t
unfolding split_from
split_at c cur [] t h =
    let same : (c == c) ≡ true = ground arith in
    rw same (ap (λ u. u ∷ split_from c [] t) (sym (append-nil (reverse cur))))
split_at c cur (d ∷ s) t (p, h) = rw p (
    split_at c (d ∷ cur) s t h
    ∙ ap (λ u. u ∷ split_from c [] t)
        (ap (λ u. u ++ s) (reverse-cons d cur) ∙ append_assoc (reverse cur) (d ∷ []) s))

-- The pairs are pairs of Go strings.
abbrev pub IsByteValues : Values → Type 0
IsByteValues vs = All (λ kv. IsBytes kv.0 × IsBytes kv.1) vs

pair-Free :
    (c : ℕ) (k v : Text)
    → (c == b'=') ≡ false
    → Free c (query_escape k)
    → Free c (query_escape v)
    → Free c (encode_pair (k, v))
pair-Free c k v other p q =
    All-append (λ d. (d == c) ≡ false) (query_escape k) (b'=' ∷ query_escape v) p (ground arith, q)

parse_pair-encode_pair :
    (k v : Text) → IsBytes k → IsBytes v → parse_pair (encode_pair (k, v)) ≡ some (k, v)
unfolding parse_pair
parse_pair-encode_pair k v p q =
    let inert_k = escape-IsInert k p in
    let inert_v = escape-IsInert v q in
    let no_semicolon = cut-Free b';' (encode_pair (k, v)) (
      pair-Free b';' k v refl (All-map (λ d (_, _, h). h) (query_escape k) inert_k)
        (All-map (λ d (_, _, h). h) (query_escape v) inert_v)) in
    let halves =
      cut_at b'=' (query_escape k) (query_escape v)
        (All-map (λ d (_, h, _). h) (query_escape k) inert_k) in
    rw
      (
        filled (query_escape k) (query_escape v),
        no_semicolon,
        halves,
        query_unescape-query_escape k p,
        query_unescape-query_escape v q,
      )
      refl
  where
    filled : (s t : Text) → is_empty (s ++ b'=' ∷ t) ≡ false
    filled [] t = refl
    filled (d ∷ s) t = refl

pair-no_and : (k v : Text) → IsBytes k → IsBytes v → Free b'&' (encode_pair (k, v))
pair-no_and k v p q =
    pair-Free b'&' k v refl (All-map (λ d (h, _, _). h) (query_escape k) (escape-IsInert k p))
      (All-map (λ d (h, _, _). h) (query_escape v) (escape-IsInert v q))

parse_pairs-join_pairs :
    (vs : Values) → IsByteValues vs → parse_pairs (split_from b'&' [] (join_pairs vs)) ≡ vs
unfolding parse_pairs join_pairs split_from parse_pair
parse_pairs-join_pairs [] h = refl
parse_pairs-join_pairs ((k, v) ∷ []) ((p, q), h) =
    rw
      (
        split-Free b'&' [] (encode_pair (k, v)) (pair-no_and k v p q),
        parse_pair-encode_pair k v p q,
      )
      refl
parse_pairs-join_pairs ((k, v) ∷ x ∷ xs) ((p, q), h) =
    rw
      (
        split_at b'&' [] (encode_pair (k, v)) (join_pairs (x ∷ xs)) (pair-no_and k v p q),
        parse_pair-encode_pair k v p q,
        parse_pairs-join_pairs (x ∷ xs) h,
      )
      refl

insert-bytes :
    (kv : Text × Text) (vs : Values)
    → IsBytes kv.0 × IsBytes kv.1
    → IsByteValues vs
    → IsByteValues (insert kv vs)
unfolding insert
insert-bytes kv [] p h = (p, tt)
insert-bytes kv (x ∷ xs) p (q, h) = elim (Bool-cases (text_le kv.0 x.0)) [
  | inl le ↦ rw (le, insert) (p, (q, h))
  | inr gt ↦ rw (gt, insert) (q, insert-bytes kv xs p h)
]

sort_keys-bytes : (vs : Values) → IsByteValues vs → IsByteValues (sort_keys vs)
unfolding sort_keys
sort_keys-bytes [] h = tt
sort_keys-bytes (kv ∷ vs) (p, h) = insert-bytes kv (sort_keys vs) p (sort_keys-bytes vs h)

-- Pairs of Go strings that are encoded into a query are parsed back, in the order of their keys.
pub parse_query-encode : (vs : Values) → IsByteValues vs → parse_query (encode vs) ≡ sort_keys vs
unfolding parse_query encode split
parse_query-encode vs h = parse_pairs-join_pairs (sort_keys vs) (sort_keys-bytes vs h)
