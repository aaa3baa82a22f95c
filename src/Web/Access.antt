-- ===== src/Web/Access.antt =====
-- internal/web/handlers.go, `userAllowed`: the optional lists of e-mail addresses and domains.
use oidc_proxy.Base.{
  ◌≡◌, ◌↔◌, inl, inr, refl, Bool, true, false, ◌&&◌, Option, none, some, List, [], Text, arith, In,
  contains, contains_iff, to_lower, cut_last, is_empty, is_empty_sound, if◌then◌else◌, Bool-cases,
}

-- `AllowedEmails` and `AllowedDomains` of the configuration.
pub record AccessPolicy : Type 0 where
  pub allowed_emails : List Text
  pub allowed_domains : List Text

-- What follows the last "@".
abbrev pub domain_allowed : List Text → Option Text × Text → Bool
domain_allowed domains (none, s) = false
domain_allowed domains (some before, domain) = contains domains domain

unfoldable pub user_allowed : AccessPolicy → Text → Bool
user_allowed p email =
    let lowered = to_lower email in
    if is_empty p.allowed_emails && is_empty p.allowed_domains
    then true
    else if contains p.allowed_emails lowered
    then true
    else domain_allowed p.allowed_domains (cut_last b'@' lowered)

-- The users that the policy admits.
pub data IsAdmitted (p : AccessPolicy) (email : Text) : Type 0 where
  open_to_all : p.allowed_emails ≡ [] → p.allowed_domains ≡ [] → IsAdmitted p email
  by_email : In (to_lower email) p.allowed_emails → IsAdmitted p email
  by_domain :
      (before domain : Text)
      → cut_last b'@' (to_lower email) ≡ (some before, domain)
      → In domain p.allowed_domains
      → IsAdmitted p email

-- `userAllowed` holds exactly for the users whom the policy admits: all of them if both lists are
-- empty, and otherwise those whose lower-case address is on the one or whose lower-case domain,
-- what follows the last "@", on the other.
pub user_allowed_iff :
    (p : AccessPolicy) (email : Text) → (user_allowed p email ≡ true) ↔ IsAdmitted p email
unfolding user_allowed
user_allowed_iff p email =
    let lowered = to_lower email in
    let domain = cut_last b'@' lowered in
    (
      λ h. elim (Bool-cases (is_empty p.allowed_emails && is_empty p.allowed_domains)) [
        | inl none_listed ↦
            open_to_all (is_empty_sound p.allowed_emails (ground arith))
              (is_empty_sound p.allowed_domains (ground arith))
        | inr listed ↦ elim (Bool-cases (contains p.allowed_emails lowered)) [
          | inl named ↦ by_email ((contains_iff p.allowed_emails lowered).0 named)
          | inr unnamed ↦ admitted_domain domain refl (ground arith)
        ]
      ],
      admitted_allowed,
    )
  where
    admitted_domain :
        (d : Option Text × Text)
        → cut_last b'@' (to_lower email) ≡ d
        → domain_allowed p.allowed_domains d ≡ true
        → IsAdmitted p email
    admitted_domain (none, s) e h = absurd (ground arith)
    admitted_domain (some before, domain) e h =
        by_domain before domain e ((contains_iff p.allowed_domains domain).0 h)

    admitted_allowed : IsAdmitted p email → user_allowed p email ≡ true
    admitted_allowed (open_to_all e d) = rw (e, d, user_allowed) refl
    admitted_allowed (by_email m) =
        ground (arith, (contains_iff p.allowed_emails (to_lower email)).1 m)
    admitted_allowed (by_domain before domain e m) =
        ground (arith, e, (contains_iff p.allowed_domains domain).1 m)
