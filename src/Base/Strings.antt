-- ===== src/Base/Strings.antt =====
-- Texts as Go's `strings` and `slices` packages treat them. A text is the list of its bytes, as a
-- Go string is; white space and letter case are those of the ASCII range, so `TrimSpace`, `Fields`
-- and `ToLower` leave every byte from 0x80 on as it is.
use Prim.Native.Char.{code}
use Prim.Native.Nat.{ℕ, ◌+◌}
use Prim.Native.String.{String}
use mathlib.Core.Path.{◌≡◌, refl}
use mathlib.Core.Logic.{◌↔◌}
use mathlib.Core.Bool.{Bool, true, false, ◌&&◌, ◌||◌}
use mathlib.Core.Option.{Option, none, some}
use mathlib.Core.List.{List, [], ◌∷◌, ◌++◌, map, reverse}
use oidc_proxy.Base.Lists.{AnyOf}
use native.Mathlib.Omega.{arith}
use oidc_proxy.Base.Test.{leb, ◌==◌, if◌then◌else◌}

abbrev pub Text : Type 0
Text = List ℕ

-- The code points of a literal.
unfoldable pub codes : String → Text
codes String.[] = []
codes (String.◌∷◌ c s) = code c ∷ codes s

-- `s == t`
unfoldable pub text_eq : Text → Text → Bool
text_eq [] [] = true
text_eq (a ∷ s) (b ∷ t) = (a == b) && text_eq s t
text_eq _ _ = false

pub text_eq_refl : (s : Text) → text_eq s s ≡ true
unfolding text_eq
text_eq_refl [] = refl
text_eq_refl (a ∷ s) = ground (arith, text_eq_refl s)

pub text_eq_sound : (s t : Text) → text_eq s t ≡ true → s ≡ t
unfolding text_eq
text_eq_sound [] [] h = refl
text_eq_sound (a ∷ s) (b ∷ t) h = ground (arith, text_eq_sound s t)
text_eq_sound _ _ h = ground arith

pub text_eq_iff : (s t : Text) → (text_eq s t ≡ true) ↔ (s ≡ t)
text_eq_iff s t = (text_eq_sound s t, λ e. ground (arith, text_eq_refl s))

-- `slices.Contains(l, s)`
unfoldable pub contains : List Text → Text → Bool
contains [] s = false
contains (t ∷ l) s = text_eq t s || contains l s

-- The text is a member of the list.
abbrev pub In : Text → List Text → Type 0
In s l = AnyOf (λ t. t ≡ s) l

pub contains_iff : (l : List Text) (s : Text) → (contains l s ≡ true) ↔ In s l
unfolding contains
contains_iff [] s = ground arith
contains_iff (t ∷ l) s = ground (arith, contains_iff l s, text_eq_iff t s)

-- The white space of ASCII.
unfoldable pub is_space : ℕ → Bool
is_space c = (leb 9 c && leb c 13) || c == 32

unfoldable pub lower : ℕ → ℕ
lower c = if leb b'A' c && leb c b'Z' then c + 32 else c

-- `strings.ToLower(s)`
unfoldable pub to_lower : Text → Text
unfolding lower
to_lower s = map lower s

-- `strings.TrimLeftFunc(s, p)`
unfoldable pub trim_left : (ℕ → Bool) → Text → Text
trim_left p [] = []
trim_left p (c ∷ s) = if p c then trim_left p s else c ∷ s

unfoldable pub trim_right : (ℕ → Bool) → Text → Text
unfolding trim_left
trim_right p s = reverse (trim_left p (reverse s))

-- `strings.TrimSpace(s)`
unfoldable pub trim_space : Text → Text
unfolding trim_left trim_right is_space
trim_space s = trim_right is_space (trim_left is_space s)

-- `strings.Trim(s, "/")` for the one-character cut set `c`
unfoldable pub trim_char : ℕ → Text → Text
unfolding trim_left trim_right
trim_char c s = trim_right (λ d. d == c) (trim_left (λ d. d == c) s)

-- `strings.CutPrefix(s, p)`: what follows the prefix
unfoldable pub cut_prefix : Text → Text → Option Text
cut_prefix s [] = some s
cut_prefix [] (b ∷ p) = none
cut_prefix (a ∷ s) (b ∷ p) = if a == b then cut_prefix s p else none

abbrev pub is_some {ℓ} : {A : Type ℓ} → Option A → Bool
is_some none = false
is_some (some a) = true

-- `strings.HasPrefix(s, p)`
unfoldable pub has_prefix : Text → Text → Bool
unfolding cut_prefix
has_prefix s p = is_some (cut_prefix s p)

-- `strings.HasSuffix(s, p)`
unfoldable pub has_suffix : Text → Text → Bool
unfolding has_prefix
has_suffix s p = has_prefix (reverse s) (reverse p)

-- `strings.Contains(s, p)`
unfoldable pub contains_text : Text → Text → Bool
unfolding has_prefix
contains_text [] p = has_prefix [] p
contains_text (a ∷ s) p = has_prefix (a ∷ s) p || contains_text s p

-- `strings.Cut(s, c)` for one character: what stands before the first `c`, and what follows it
unfoldable pub cut : ℕ → Text → Text × Option Text
cut c [] = ([], none)
cut c (d ∷ s) = let rest = cut c s in if d == c then ([], some s) else (d ∷ rest.0, rest.1)

-- the same at the last `c` (`strings.LastIndexByte`); without one the second part is the text
unfoldable pub cut_last : ℕ → Text → Option Text × Text
unfolding cut
cut_last c s =
    let (after, before) = cut c (reverse s) in
    elim before [ none ↦ (none, s) | some b ↦ (some (reverse b), reverse after) ]

-- `strings.Split(s, c)` for one character
unfoldable pub split_from : ℕ → Text → Text → List Text
split_from c cur [] = reverse cur ∷ []
split_from c cur (d ∷ s) =
    let closed = split_from c [] s in
    let longer = split_from c (d ∷ cur) s in if d == c then reverse cur ∷ closed else longer

unfoldable pub split : ℕ → Text → List Text
unfolding split_from
split c s = split_from c [] s

abbrev pub cons_word : Text → List Text → List Text
cons_word [] l = l
cons_word (c ∷ w) l = reverse (c ∷ w) ∷ l

-- `strings.Fields(s)`; `cur` is the field under way, reversed
unfoldable pub fields_from : Text → Text → List Text
unfolding is_space
fields_from cur [] = cons_word cur []
fields_from cur (c ∷ s) =
    let closed = fields_from [] s in
    let longer = fields_from (c ∷ cur) s in if is_space c then cons_word cur closed else longer

unfoldable pub fields : Text → List Text
unfolding fields_from
fields s = fields_from [] s

-- `strings.Join(l, " ")`
unfoldable pub join : List Text → Text
join [] = []
join (t ∷ []) = t
join (t ∷ u ∷ l) = t ++ b' ' ∷ join (u ∷ l)
