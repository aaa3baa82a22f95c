-- ===== src/Mcpauth/Keys.antt =====
-- internal/mcpauth/keys.go: the key material and the choice of a verification key.
pub mod Load
use oidc_proxy.Base.{
  ◌&&◌, List, [], ◌∷◌, Text, codes, text_eq, is_empty, if◌then◌else◌, Result, ok, err,
}

-- `jose.JSONWebKey`
pub record JsonWebKey : Type 0 where
  pub key : Text
  pub algorithm : Text
  pub use_for : Text
  pub key_id : Text

pub record KeyMaterial : Type 0 where
  -- the private key and the key id of the signer
  pub signing_key : Text
  pub kid : Text
  pub enc_key : Text
  pub verify : List JsonWebKey
  pub public : List JsonWebKey

-- The loop of `verificationKey` over the key set.
unfoldable pub find_key : List JsonWebKey → Text → Result JsonWebKey
find_key [] kid = err (record { format = "no ES256 verification key for kid %q"; args = kid ∷ [] })
find_key (jwk ∷ keys) kid =
    if text_eq jwk.key_id kid && text_eq jwk.algorithm (codes "ES256")
    then ok jwk
    else find_key keys kid

unfoldable pub verification_key : KeyMaterial → Text → Result JsonWebKey
verification_key k kid = find_key k.verify (if is_empty kid then k.kid else kid)

-- `pubJWK`, the published key
unfoldable pub published_key : Text → Text → JsonWebKey
published_key public_key kid = record {
  key = public_key;
  algorithm = codes "ES256";
  use_for = codes "sig";
  key_id = kid;
}

-- The part of `loadKeys` that builds the key set, from the private key, its public key, the key id
-- and the encryption key.
unfoldable pub key_material : Text → Text → Text → Text → KeyMaterial
key_material priv public_key kid enc_key = record {
  signing_key = priv;
  kid = kid;
  enc_key = enc_key;
  verify = published_key public_key kid ∷ [];
  public = published_key public_key kid ∷ [];
}
