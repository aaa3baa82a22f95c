-- ===== src/Token.antt =====
-- internal/token/token.go: the claims of a verified ID token, and the verification contract. The
-- verifier of go-oidc is a parameter.
use oidc_proxy.Base.{ℕ, Option, none, some, [], Text, Result, ok, err}

-- `Expiry` is in nanoseconds.
pub record Verified : Type 0 where
  pub subject : Text
  pub email : Text
  pub nonce : Text
  pub expiry : ℕ

-- A verification at a time: the answer may change with the time and with the provider's keys.
abbrev pub VerifyFunc : Type 0
VerifyFunc = ℕ → Text → Result Verified

-- What the program reads of go-oidc's `IDToken`; `email_claim` is `none` if the claims do not decode.
pub record IdToken : Type 0 where
  pub subject : Text
  pub nonce : Text
  pub expiry : ℕ
  pub email_claim : Option Text

abbrev text_or_empty : Option Text → Text
text_or_empty none = []
text_or_empty (some t) = t

-- `Wrap(v)`, of the verifier's `Verify`
unfoldable pub wrap : (ℕ → Text → Result IdToken) → VerifyFunc
wrap verify now tok = elim (verify now tok) [
  | ok t ↦ ok (record {
    subject = t.subject;
    email = text_or_empty t.email_claim;
    nonce = t.nonce;
    expiry = t.expiry;
  })
  | err e ↦ err e
]
