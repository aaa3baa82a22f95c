-- ===== src/Url/Values/Lookup.antt =====
-- What is read from an encoded query: the values that were set.
use oidc_proxy.Base.{
  ◌≡◌, refl, ap, sym, ◌∙◌, inl, inr, true, false, [], ◌∷◌, ◌++◌, String, Text, arith, All-append,
  ◌==◌, Bool-cases, if◌then◌else◌, codes, text_eq, text_eq_iff, text_eq_refl,
}
use mathlib.Core.Path.{subst}
use oidc_proxy.Http.{Values, first_value, get}
use oidc_proxy.Url.Values.{parse_query, remove, set_value, text_le, insert, sort_keys, encode}
use oidc_proxy.Url.Values.RoundTrip.{IsBytes}
use oidc_proxy.Url.Values.Encoded.{IsByteValues, parse_query-encode}

text_le_refl : (s : Text) → text_le s s ≡ true
unfolding text_le
text_le_refl [] = refl
text_le_refl (a ∷ s) = let same : (a == a) ≡ true = ground arith in rw (same, text_le_refl s) refl

-- An inserted pair hides the later ones with its key, and no others.
first_value-insert :
    (k : Text) (kv : Text × Text) (vs : Values)
    → first_value k (insert kv vs) ≡ (if text_eq kv.0 k then kv.1 else first_value k vs)
unfolding first_value insert
first_value-insert k kv [] = refl
first_value-insert k kv (x ∷ xs) = elim (Bool-cases (text_le kv.0 x.0)) [
  | inl le ↦ rw (le, insert) refl
  | inr gt ↦ elim (Bool-cases (text_eq x.0 k)) [
    | inr other ↦ rw (gt, insert, other, first_value-insert k kv xs) refl
    | inl here ↦ elim (Bool-cases (text_eq kv.0 k)) [
      | inr other ↦ rw (gt, insert, here, other) refl
      | inl same ↦
          let equal : kv.0 ≡ x.0 = (text_eq_iff kv.0 k).0 same ∙ sym ((text_eq_iff x.0 k).0 here) in
          let le : text_le kv.0 x.0 ≡ true = ap (text_le kv.0) (sym equal) ∙ text_le_refl kv.0 in
          absurd (ground arith)
    ]
  ]
]

first_value-sort_keys : (k : Text) (vs : Values) → first_value k (sort_keys vs) ≡ first_value k vs
unfolding sort_keys first_value
first_value-sort_keys k [] = refl
first_value-sort_keys k (kv ∷ vs) =
    rw (first_value-insert k kv (sort_keys vs), first_value-sort_keys k vs) refl

-- A reader of an encoded query gets for every name the value that the encoded pairs have.
pub get-encode :
    (vs : Values) (name : String)
    → IsByteValues vs
    → get (parse_query (encode vs)) name ≡ get vs name
unfolding get
get-encode vs name h = rw (parse_query-encode vs h) (first_value-sort_keys (codes name) vs)

first_value-remove :
    (k j : Text) (vs : Values)
    → text_eq j k ≡ false
    → first_value k (remove j vs) ≡ first_value k vs
unfolding first_value remove
first_value-remove k j [] other = refl
first_value-remove k j (x ∷ xs) other = elim (Bool-cases (text_eq x.0 j)) [
  | inr kept ↦ rw (kept, remove, first_value-remove k j xs other) refl
  | inl gone ↦
      let differs : text_eq x.0 k ≡ false =
        subst (λ t. text_eq t k ≡ false) (sym ((text_eq_iff x.0 j).0 gone)) other in
      rw (gone, remove, differs) (first_value-remove k j xs other)
]

first_value-gone : (k v : Text) (vs : Values) → first_value k (remove k vs ++ (k, v) ∷ []) ≡ v
unfolding first_value remove
first_value-gone k v [] = rw (text_eq_refl k) refl
first_value-gone k v (x ∷ xs) = elim (Bool-cases (text_eq x.0 k)) [
  | inl gone ↦ rw (gone, remove) (first_value-gone k v xs)
  | inr kept ↦
      let past : first_value k (x ∷ (remove k xs ++ (k, v) ∷ [])) ≡ v =
        rw kept (first_value-gone k v xs) in
      rw (kept, remove) past
]

first_value-append :
    (k j v : Text) (vs : Values)
    → text_eq j k ≡ false
    → first_value k (vs ++ (j, v) ∷ []) ≡ first_value k vs
unfolding first_value
first_value-append k j v [] other = rw other refl
first_value-append k j v (x ∷ xs) other = rw (first_value-append k j v xs other) refl

-- The value that is set for a name is the value of the name, and other names keep theirs.
pub get-set_value : (vs : Values) (name : String) (v : Text) → get (set_value vs name v) name ≡ v
unfolding get set_value
get-set_value vs name v = first_value-gone (codes name) v vs

pub get-set_value_other :
    (vs : Values) (name other : String) (v : Text)
    → text_eq (codes name) (codes other) ≡ false
    → get (set_value vs name v) other ≡ get vs other
unfolding get set_value
get-set_value_other vs name other v differs =
    first_value-append (codes other) (codes name) v (remove (codes name) vs) differs
    ∙ first_value-remove (codes other) (codes name) vs differs

-- Setting a Go string leaves pairs of Go strings.
remove-bytes : (k : Text) (vs : Values) → IsByteValues vs → IsByteValues (remove k vs)
unfolding remove
remove-bytes k [] h = tt
remove-bytes k (x ∷ xs) (p, h) = elim (Bool-cases (text_eq x.0 k)) [
  | inl gone ↦ rw (gone, remove) (remove-bytes k xs h)
  | inr kept ↦ rw (kept, remove) (p, remove-bytes k xs h)
]

pub set_value-bytes :
    (vs : Values) (name : String) (v : Text)
    → IsBytes (codes name)
    → IsBytes v
    → IsByteValues vs
    → IsByteValues (set_value vs name v)
unfolding set_value
set_value-bytes vs name v p q h =
    All-append (λ kv. IsBytes kv.0 × IsBytes kv.1) (remove (codes name) vs) ((codes name, v) ∷ [])
      (remove-bytes (codes name) vs h) ((p, q), tt)
