-- ===== src/Config/Loaded.antt =====
-- What holds of a configuration that `Load` returns.
use oidc_proxy.Base.{
  ◌≡◌, ◌≢◌, ◌⊎◌, inl, inr, refl, ap, true, false, not, none, List, [], ◌∷◌, ◌++◌, map, Text, arith,
  codes, In, All, contains, contains_iff, fields, to_lower, trim_space, is_empty, all,
  if◌then◌else◌, Bool-cases, Option-cases, Result, ok, err,
}
use mathlib.Core.Path.{subst}
use oidc_proxy.Config.{
  Config, default_brand_color, is_brand_color, is_hex_digit, folded, normalize_scopes, validate_mcp,
  normalized, validated_config, load,
}

-- An entry of an allow list in the form in which addresses are compared.
abbrev pub IsFolded : Text → Type 0
IsFolded s = (raw : Text) × (s ≡ to_lower (trim_space raw))

-- A scope that is not blank.
abbrev pub IsTrimmed : Text → Type 0
IsTrimmed s = (s ≢ []) × ((raw : Text) × (s ≡ trim_space raw))

-- What an enabled authorization server needs.
pub record IsComplete (c : Config) : Type 0 where
  pub issuer : c.mcp_issuer ≢ []
  pub resource : c.mcp_resource ≢ []
  pub signing_key : (c.mcp_signing_key ≢ []) ⊎ (c.mcp_signing_key_file ≢ [])
  pub scopes : c.mcp_scopes_supported ≢ []

pub record IsLoaded (c : Config) : Type 0 where
  pub openid : In (codes "openid") (fields c.scopes)
  pub emails : All IsFolded c.allowed_emails
  pub domains : All IsFolded c.allowed_domains
  pub colour : is_brand_color c.brand_color ≡ true
  pub supported : All IsTrimmed c.mcp_scopes_supported
  pub required : All IsTrimmed c.mcp_required_scopes
  pub complete : c.mcp_enabled ≡ true → IsComplete c

openid_added : (s : Text) → In (codes "openid") (fields (codes "openid " ++ s))
unfolding codes fields
openid_added s = inl refl

scopes_openid :
    (s : Text)
    → In (codes "openid") (
        fields (
          if not (contains (fields s) (codes "openid"))
          then codes "openid " ++ trim_space s
          else s))
scopes_openid s = elim (Bool-cases (contains (fields s) (codes "openid"))) [
  | inl there ↦ rw there ((contains_iff (fields s) (codes "openid")).0 there)
  | inr missing ↦ rw missing (openid_added (trim_space s))
]

all_folded : (l : List Text) → All IsFolded (map folded l)
all_folded [] = tt
all_folded (s ∷ l) = ((s, refl), all_folded l)

colour_valid :
    (s : Text) → is_brand_color (if not (is_brand_color s) then default_brand_color else s) ≡ true
unfolding codes is_brand_color all is_hex_digit
colour_valid s = elim (Bool-cases (is_brand_color s)) [
  | inl valid ↦ rw valid valid
  | inr other ↦ rw other refl
]

all_trimmed : (l : List Text) → All IsTrimmed (normalize_scopes l)
unfolding normalize_scopes
all_trimmed [] = tt
all_trimmed (s ∷ l) = elim (Bool-cases (is_empty (trim_space s))) [
  | inl blank ↦ rw (blank, normalize_scopes) (all_trimmed l)
  | inr given ↦
      rw (given, normalize_scopes)
        ((λ e. absurd (ground (arith, ap is_empty e)), (s, refl)), all_trimmed l)
]

filled {ℓ} : {A : Type ℓ} (s : List A) → is_empty s ≡ false → s ≢ []
filled s h e = absurd (ground (arith, ap is_empty e))

IsComplete-of : (c : Config) → validate_mcp c ≡ none → c.mcp_enabled ≡ true → IsComplete c
unfolding validate_mcp
IsComplete-of c h on = record {
  issuer = filled c.mcp_issuer (ground arith);
  resource = filled c.mcp_resource (ground arith);
  signing_key = elim (Bool-cases (is_empty c.mcp_signing_key)) [
    | inl absent ↦ inr (filled c.mcp_signing_key_file (ground arith))
    | inr given ↦ inl (filled c.mcp_signing_key given)
  ];
  scopes = filled c.mcp_scopes_supported (ground arith);
}

normalized-IsLoaded : (c : Config) → validate_mcp (normalized c) ≡ none → IsLoaded (normalized c)
unfolding normalized
normalized-IsLoaded c h = record {
  openid = scopes_openid c.scopes;
  emails = all_folded c.allowed_emails;
  domains = all_folded c.allowed_domains;
  colour = colour_valid c.brand_color;
  supported = all_trimmed c.mcp_scopes_supported;
  required = all_trimmed c.mcp_required_scopes;
  complete = IsComplete-of (normalized c) h;
}

-- A configuration that `Load` returns asks for the scope "openid", has its allow lists trimmed and in
-- lower case, a brand colour of 3, 4, 6 or 8 hexadecimal digits after a number sign and no blank MCP
-- scope, and, if the authorization server is enabled, it has an issuer, a resource, a signing key or a
-- file with one, and a supported scope.
pub load-IsLoaded : (process : Result Config) (c : Config) → load process ≡ ok c → IsLoaded c
unfolding load validated_config
load-IsLoaded (err e) c h = absurd (ground arith)
load-IsLoaded (ok raw) c h = elim (Option-cases (validate_mcp (normalized raw))) [
  | inr (e, bad) ↦ absurd (ground arith)
  | inl fine ↦
      let same : normalized raw ≡ c = ok_eq (rw (fine, validated_config) at h) in
      subst IsLoaded same (normalized-IsLoaded raw fine)
]
  where
    ok_eq : {a b : Config} → ok a ≡ ok b → a ≡ b
    ok_eq e = ground arith
