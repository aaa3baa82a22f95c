-- ===== src/Utils/Redirect.antt =====
-- Redirect targets: what `SanitizeRedirect` lets through.
use oidc_proxy.Base.{◌≡◌, ◌≢◌, ◌⊎◌, inr, refl, [], ◌∷◌, Text, arith, codes, has_prefix, cut_prefix}
use oidc_proxy.Utils.{sanitize_redirect}

-- A text that begins with a slash, and not with two. This is what `SanitizeRedirect` checks; a
-- slash and a backslash pass.
abbrev pub IsSlashPath : Text → Type 0
IsSlashPath [] = ⊥
IsSlashPath (c ∷ []) = c ≡ b'/'
IsSlashPath (c ∷ d ∷ s) = (c ≡ b'/') × (d ≢ b'/')

-- `SanitizeRedirect` returns a path that begins with exactly one slash as it is, and the empty text
-- for everything else.
pub sanitize_redirect_iff :
    (raw : Text)
    → ((sanitize_redirect raw ≡ raw) × IsSlashPath raw)
      ⊎ ((sanitize_redirect raw ≡ []) × ¬ IsSlashPath raw)
unfolding sanitize_redirect has_prefix cut_prefix codes
sanitize_redirect_iff [] = inr (refl, λ h. h)
sanitize_redirect_iff (c ∷ []) = ground arith
sanitize_redirect_iff (c ∷ d ∷ s) = ground arith
