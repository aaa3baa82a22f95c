-- ===== src/Mcpauth/Artifacts/Sealing.antt =====
-- What is signed or encrypted with the server's keys is read back as it was.
use oidc_proxy.Base.{◌≡◌, [], ◌∷◌, Text, arith, codes, text_eq_refl, ok}
use oidc_proxy.Mcpauth.Jose.{Object, Jose, JoseLaws}
use oidc_proxy.Mcpauth.Keys.{KeyMaterial, find_key, verification_key, key_material, published_key}
use oidc_proxy.Mcpauth.Artifacts.{sign_claims, encrypt_claims, parse_signed, parse_encrypted}

-- The key set of `loadKeys` gives the published key for the signer's key id.
pub verification_key-kid :
    (priv public_key kid enc_key : Text)
    → verification_key (key_material priv public_key kid enc_key) kid
      ≡ ok (published_key public_key kid)
unfolding verification_key find_key key_material published_key
verification_key-kid priv public_key [] enc_key =
    ground (arith, text_eq_refl [], text_eq_refl (codes "ES256"))
verification_key-kid priv public_key (c ∷ kid) enc_key =
    ground (arith, text_eq_refl (c ∷ kid), text_eq_refl (codes "ES256"))

module _ (j : Jose) (l : JoseLaws j) (priv kid enc_key : Text) where
  -- The keys as `loadKeys` sets them up: the published key belongs to the signing key.
  abbrev pub keys : KeyMaterial
  keys = key_material priv (l.public priv) kid enc_key

  pub parse_signed-sign_claims :
      (o : Object) (t : Text)
      → l.IsCarried o
      → sign_claims j keys o ≡ ok t
      → parse_signed j keys t ≡ ok o
  unfolding sign_claims parse_signed key_material published_key
  parse_signed-sign_claims o t carried signed =
      let (jws, parsed, ids, verified) = l.parse-sign priv kid o t carried signed in
      rw (parsed, ids, verification_key-kid priv (l.public priv) kid enc_key) verified

  pub parse_encrypted-encrypt_claims :
      (o : Object) (t : Text)
      → l.IsCarried o
      → encrypt_claims j keys o ≡ ok t
      → parse_encrypted j keys t ≡ ok o
  unfolding encrypt_claims parse_encrypted key_material
  parse_encrypted-encrypt_claims o t carried sealed =
      let (jwe, parsed, opened) = l.decrypt-encrypt enc_key o t carried sealed in rw parsed opened
