-- ===== src/Mcpauth/Scope/Words.antt =====
-- A list of words survives being joined by spaces and split into fields again.
use oidc_proxy.Base.{
  ◌≡◌, ◌≢◌, refl, ap, sym, ◌∙◌, false, List, [], ◌∷◌, ◌++◌, Text, fields, fields_from, cons_word,
  join, is_space, All,
}
use mathlib.Core.List.{reverse, reverse_aux, reverse-reverse, append-nil}

-- A scope as the space-delimited syntax can carry it.
abbrev pub IsWord : Text → Type 0
IsWord t = (t ≢ []) × All (λ c. is_space c ≡ false) t

-- A field is read to its end.
fields_from-word :
    (cur w rest : Text)
    → All (λ c. is_space c ≡ false) w
    → fields_from cur (w ++ rest) ≡ fields_from (reverse_aux w cur) rest
unfolding fields_from
fields_from-word cur [] rest h = refl
fields_from-word cur (c ∷ w) rest (h, k) = rw h (fields_from-word (c ∷ cur) w rest k)

cons_word_lem : (w : Text) (l : List Text) → w ≢ [] → cons_word (reverse w) l ≡ w ∷ l
cons_word_lem w l h =
    go (reverse w) (λ e. h (sym (reverse-reverse w) ∙ ap reverse e))
    ∙ ap (λ v. v ∷ l) (reverse-reverse w)
  where
    go : (v : Text) → v ≢ [] → cons_word v l ≡ reverse v ∷ l
    go [] k = absurd (k refl)
    go (c ∷ v) k = refl

-- Words that are joined by spaces are read back as they were.
pub fields-join : (l : List Text) → All IsWord l → fields (join l) ≡ l
unfolding fields fields_from join
fields-join [] h = refl
fields-join (t ∷ []) ((filled, plain), _) =
    ap fields (sym (append-nil t)) ∙ fields_from-word [] t [] plain ∙ cons_word_lem t [] filled
fields-join (t ∷ u ∷ l) ((filled, plain), h) =
    fields_from-word [] t (b' ' ∷ join (u ∷ l)) plain
    ∙ cons_word_lem t (fields_from [] (join (u ∷ l))) filled
    ∙ ap (◌∷◌ t) (fields-join (u ∷ l) h)
