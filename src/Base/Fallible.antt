-- ===== src/Base/Fallible.antt =====
-- The results of fallible Go functions: a value, or an error that is a format with its arguments.
use Prim.Native.String.{String}
use mathlib.Core.Path.{◌≡◌, refl, subst}
use mathlib.Core.Logic.{◌↔◌, ◌⊎◌, inl, inr}
use mathlib.Core.Bool.{Bool, true, false}
use oidc_proxy.Base.Test.{if◌then◌else◌}
use native.Mathlib.Omega.{arith}
use mathlib.Core.List.{List, []}
use oidc_proxy.Base.Strings.{Text}

-- `fmt.Errorf(format, args...)`, unformatted.
pub record Message : Type 0 where
  pub format : String
  pub args : List Text

abbrev pub message : String → Message
message s = record { format = s; args = [] }

pub data Result {ℓ} (A : Type ℓ) : Type ℓ where
  ok : A → Result A
  err : Message → Result A

pub Result-cases {ℓ} :
    {A : Type ℓ} (r : Result A) → ((a : A) × (r ≡ ok a)) ⊎ ((e : Message) × (r ≡ err e))
Result-cases (ok a) = inl (a, refl)
Result-cases (err e) = inr (e, refl)

pub ⊎-cases {ℓ κ} :
    {A : Type ℓ} {B : Type κ} (x : A ⊎ B) → ((a : A) × (x ≡ inl a)) ⊎ ((b : B) × (x ≡ inr b))
⊎-cases (inl a) = inl (a, refl)
⊎-cases (inr b) = inr (b, refl)

module _ {ℓ κ} {A : Type ℓ} {B : Type κ} where
  -- A guard that leaves early on the left lets a result through where it does not hold.
  pub guard_iff :
      (test : Bool) (early : A) (rest : A ⊎ B) (k : B)
      → ((if test then inl early else rest) ≡ inr k) ↔ ((test ≡ false) × (rest ≡ inr k))
  guard_iff true early rest k = (λ h. absurd (ground arith), λ (p, _). absurd (ground arith))
  guard_iff false early rest k = (λ h. (refl, h), λ (_, h). h)

  abbrev left : A → A ⊎ B
  left a = inl a

  left_of : {a b : A} → left a ≡ left b → a ≡ b
  left_of h = ground arith

  -- What holds of the early value and of those of the rest holds of every value on the left.
  pub guard_left {μ} :
      (P : A → Type μ) (test : Bool) (early : A) (rest : A ⊎ B)
      → P early
      → ((a : A) → rest ≡ inl a → P a)
      → (a : A) → (if test then inl early else rest) ≡ inl a
      → P a
  guard_left P true early rest p q a h = subst P (left_of h) p
  guard_left P false early rest p q a h = q a h
