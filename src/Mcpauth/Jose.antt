-- ===== src/Mcpauth/Jose.antt =====
-- The interface of the third-party package `go-jose` as the program uses it. The package is not
-- part of the repository: it is a parameter, with what its documentation promises as laws.
use oidc_proxy.Base.{
  ℕ, ◌+◌, ◌*◌, ◌≤◌, ◌<◌, ◌≡◌, ◌≢◌, ◌↔◌, Option, none, some, List, [], ◌∷◌, Text, In, AnyOf, Result,
  ok,
}

-- `jwt.Claims`. The dates are in seconds, and `none` where the member is absent.
pub record Registered : Type 0 where
  pub issuer : Text
  pub subject : Text
  pub audience : List Text
  pub expiry : Option ℕ
  pub not_before : Option ℕ
  pub issued_at : Option ℕ
  pub id : Text

-- A JSON object with the members that some artifact of the program has. A member that is absent
-- has the zero value, which is what a Go struct decodes from it.
pub record Object : Type 0 where
  pub claims : Registered
  pub token_use : Text
  pub redirect_uris : List Text
  pub client_name : Text
  pub client_id : Text
  pub redirect_uri : Text
  pub code_challenge : Text
  pub resource : Text
  pub scope : Text
  pub state : Text
  pub email : Text
  pub csrf : Text
  pub family : Text

-- `jwt.Expected`; the time is in nanoseconds.
pub record Expected : Type 0 where
  pub time : ℕ
  pub issuer : Text
  pub any_audience : List Text

-- The errors of `ValidateWithLeeway`: `jwt.ErrExpired`, and the others.
pub data ClaimsError : Type 0 where
  expired : ClaimsError
  invalid : ClaimsError

abbrev pub second : ℕ
second = 1_000_000_000

-- Keys are given by their encoded bytes. The accepted algorithms are pinned at every call, as the
-- program pins them: ES256 for signatures, `dir` with A256GCM for encryption.
pub record Jose : Type 1 where
  pub Jws : Type 0
  pub Jwe : Type 0
  -- `jwt.Signed(signer).Claims(o).Serialize()`, with the private key and the key id of the signer
  pub sign : Text → Text → Object → Result Text
  -- `jwt.ParseSigned(token, ES256)`, the key ids of the headers, and `tok.Claims(publicKey, &o)`
  pub parse_signed : Text → Result Jws
  pub key_ids : Jws → List Text
  pub verify : Jws → Text → Result Object
  -- `jwt.Encrypted(enc).Claims(o).Serialize()`, `jwt.ParseEncrypted`, and `tok.Claims(key, &o)`
  pub encrypt : Text → Object → Result Text
  pub parse_encrypted : Text → Result Jwe
  pub decrypt : Jwe → Text → Result Object
  -- `c.ValidateWithLeeway(expected, leeway)`, the leeway in nanoseconds; `none` is the nil error
  pub validate : Registered → Expected → ℕ → Option ClaimsError
  -- `jwt.NewNumericDate(t)`
  pub numeric_date : ℕ → ℕ

-- What `ValidateWithLeeway` checks.
pub record IsCurrent (c : Registered) (e : Expected) (leeway : ℕ) : Type 0 where
  pub issued_by : e.issuer ≢ [] → c.issuer ≡ e.issuer
  pub meant_for : e.any_audience ≢ [] → AnyOf (λ a. In a c.audience) e.any_audience
  pub started : (t : ℕ) → c.not_before ≡ some t → t * second ≤ e.time + leeway
  pub running : (t : ℕ) → c.expiry ≡ some t → e.time ≤ t * second + leeway
  pub issued : (t : ℕ) → c.issued_at ≡ some t → t * second ≤ e.time + leeway

-- `IsCarried o` says that JSON carries the object unchanged, as it does where all texts are valid
-- UTF-8; `public` is the public key of a private key.
pub record JoseLaws (j : Jose) : Type 1 where
  pub IsCarried : Object → Type 0
  pub public : Text → Text
  pub parse-sign :
      (key kid : Text) (o : Object) (t : Text)
      → IsCarried o
      → j.sign key kid o ≡ ok t
      → (jws : j.Jws) × (j.parse_signed t ≡ ok jws)
        × (j.key_ids jws ≡ kid ∷ [])
        × (j.verify jws (public key) ≡ ok o)
  pub decrypt-encrypt :
      (key : Text) (o : Object) (t : Text)
      → IsCarried o
      → j.encrypt key o ≡ ok t
      → (jwe : j.Jwe) × (j.parse_encrypted t ≡ ok jwe) × (j.decrypt jwe key ≡ ok o)
  pub validate_iff :
      (c : Registered) (e : Expected) (leeway : ℕ)
      → (j.validate c e leeway ≡ none) ↔ IsCurrent c e leeway
  -- The date is rounded down to a second.
  pub numeric_date_le : (t : ℕ) → j.numeric_date t * second ≤ t
  pub numeric_date_lt : (t : ℕ) → t < j.numeric_date t * second + second
