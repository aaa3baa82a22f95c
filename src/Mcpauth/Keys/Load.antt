-- ===== src/Mcpauth/Keys/Load.antt =====
-- internal/mcpauth/keys.go: `loadKeys`, `parseES256PrivateKey`, `deriveEncKey` and `decodeBase64`. The
-- packages that read and derive keys are a parameter. Keys are given by their encoded bytes.
use oidc_proxy.Base.{
  ℕ, Bool, not, Option, none, some, [], ◌∷◌, String, Text, codes, text_eq, trim_space, is_empty,
  length, ◌==◌, if◌then◌else◌, message, Result, ok, err,
}
use oidc_proxy.Mcpauth.Artifacts.{◌>>=◌}
use oidc_proxy.Mcpauth.Keys.{KeyMaterial, key_material}

-- What the code calls of `encoding/pem`, `crypto/x509`, `crypto/ecdsa`, `crypto/hkdf`,
-- `encoding/base64` and `go-jose`.
pub record KeyTools : Type 0 where
  -- the type and the bytes of the first PEM block
  pub decode_pem : Text → Option (Text × Text)
  pub parse_ec : Text → Result Text
  -- `none` where the key is not an ECDSA key
  pub parse_pkcs8 : Text → Result (Option Text)
  pub is_p256 : Text → Bool
  pub public : Text → Text
  pub thumbprint : Text → Result Text
  pub raw_url_base64 : Text → Text
  pub marshal_pkcs8 : Text → Result Text
  -- `hkdf.Key(sha256.New, secret, nil, info, length)`
  pub hkdf : Text → Text → ℕ → Result Text
  -- the decoders of the standard and the URL alphabet, padded and unpadded
  pub std_encoding : Text → Option Text
  pub raw_std_encoding : Text → Option Text
  pub url_encoding : Text → Option Text
  pub raw_url_encoding : Text → Option Text
  pub new_signer : Text → Text → Result (Unit {0})
  pub new_encrypter : Text → Result (Unit {0})

-- An error of the libraries with the format that wraps it.
abbrev pub wrapped {ℓ} : {A : Type ℓ} → String → Result A → Result A
wrapped format (ok a) = ok a
wrapped format (err e) = err (record { format = format; args = e.args })

abbrev pub hkdf_enc_key_info : Text
hkdf_enc_key_info = codes "oidc-proxy/mcp-enc-key/v1"

module _ (t : KeyTools) where
  abbrev ecdsa_key : Option Text → Result Text
  ecdsa_key none = err (message "signing key is %T, want *ecdsa.PrivateKey")
  ecdsa_key (some key) = ok key

  -- The `switch` on the type of the block.
  unfoldable pub parse_block : Text × Text → Result Text
  parse_block (kind, bytes) =
      if text_eq kind (codes "EC PRIVATE KEY")
      then wrapped "parse SEC1 EC private key: %w" (t.parse_ec bytes)
      else if text_eq kind (codes "PRIVATE KEY")
      then (wrapped "parse PKCS#8 private key: %w" (t.parse_pkcs8 bytes) >>= ecdsa_key)
      else err (record {
        format = "unsupported PEM block %q; want EC PRIVATE KEY or PRIVATE KEY";
        args = kind ∷ [];
      })

  abbrev pub on_p256 : Text → Result Text
  on_p256 priv =
      if not (t.is_p256 priv)
      then err (message "signing key curve is %s, want P-256 (ES256)")
      else ok priv

  unfoldable pub parse_es256_private_key : Text → Result Text
  parse_es256_private_key pem_str =
      let pem = trim_space pem_str in
      if is_empty pem then err (message "empty signing key") else elim (t.decode_pem pem) [
        | none ↦ err (message "signing key is not valid PEM")
        | some block ↦ parse_block block >>= on_p256
      ]

  -- The first of the decodings that there is.
  abbrev first_of : Option Text → Result Text → Result Text
  first_of (some b) rest = ok b
  first_of none rest = rest

  unfoldable pub decode_base64 : Text → Result Text
  decode_base64 s = first_of (t.std_encoding s) (
      first_of (t.raw_std_encoding s) (
        first_of (t.url_encoding s)
          (first_of (t.raw_url_encoding s) (err (message "not valid base64")))))

  abbrev pub of_32_bytes : Text → Result Text
  of_32_bytes raw =
      if not (length raw == 32)
      then err (message "MCP_ENC_KEY must decode to 32 bytes, got %d")
      else ok raw

  unfoldable pub derive_enc_key : Text → Text → Result Text
  derive_enc_key priv enc_key_b64 =
      let s = trim_space enc_key_b64 in
      if not (is_empty s)
      then (wrapped "MCP_ENC_KEY: %w" (decode_base64 s) >>= of_32_bytes)
      else (wrapped "marshal signing key for HKDF: %w" (t.marshal_pkcs8 priv) >>= λ secret.
          wrapped "derive enc key: %w" (t.hkdf secret hkdf_enc_key_info 32))

  -- The key id: the configured one, or the thumbprint of the public key.
  unfoldable pub key_id_of : Text → Text → Result Text
  key_id_of priv kid =
      if is_empty kid
      then (wrapped "derive kid: %w" (t.thumbprint (t.public priv)) >>= λ tp.
          ok (t.raw_url_base64 tp))
      else ok kid

  unfoldable pub load_keys : Text → Text → Text → Result KeyMaterial
  load_keys signing_pem kid enc_key_b64 = do
    priv ← parse_es256_private_key signing_pem
    id ← key_id_of priv kid
    _ ← wrapped "build signer: %w" (t.new_signer priv id)
    enc_key ← derive_enc_key priv enc_key_b64
    _ ← wrapped "build encrypter: %w" (t.new_encrypter enc_key)
    ok (key_material priv (t.public priv) id enc_key)
