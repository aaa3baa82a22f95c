-- ===== src/Mcpauth/Pkce.antt =====
-- internal/mcpauth/pkce.go. The challenge of a verifier, BASE64URL(SHA256(verifier)), is a function
-- of the libraries and a parameter.
use oidc_proxy.Base.{Bool, false, ◌||◌, Text, text_eq, is_empty, if◌then◌else◌}

-- `VerifyPKCE(verifier, challenge)`
unfoldable pub verify_pkce : (Text → Text) → Text → Text → Bool
verify_pkce s256 verifier challenge =
    if is_empty verifier || is_empty challenge then false else text_eq (s256 verifier) challenge
