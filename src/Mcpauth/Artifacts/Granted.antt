-- ===== src/Mcpauth/Artifacts/Granted.antt =====
-- What `IssueGrant` hands out.
use oidc_proxy.Base.{
  ℕ, ◌/◌, ◌≡◌, ◌≢◌, inl, inr, refl, sym, [], ◌∷◌, Text, arith, is_empty, is_empty_sound, Bool-cases,
  ok, Result-cases,
}
use oidc_proxy.Mcpauth.Jose.{Jose, JoseLaws, second}
use oidc_proxy.Mcpauth.Claims.{
  ClientClaims, AccessClaims, RefreshClaims, object_of_access, object_of_refresh,
}
use oidc_proxy.Mcpauth.AuthServer.{AuthServer}
use oidc_proxy.Mcpauth.Artifacts.{
  sign_claims, verify_client_id, verify_access_token, verify_refresh_token, GrantInput, TokenGrant,
  access_claims, refresh_claims, grant_family, issue_grant,
}
use oidc_proxy.Mcpauth.Artifacts.Sealing.{keys}
use oidc_proxy.Mcpauth.Artifacts.Kinds.{uses_differ, signed_kind}

-- Tokens and an answer that give what a grant is for, and no more.
pub record IsForGrant (input : GrantInput) (g : TokenGrant) (a : AccessClaims) (r : RefreshClaims)
    : Type 0 where
  pub subject : a.claims.subject ≡ input.sub
  pub email : a.email ≡ input.email
  pub client_id : a.client_id ≡ input.client_id
  pub scope : a.scope ≡ input.scope
  pub audience : a.claims.audience ≡ input.resource ∷ []
  pub named_scope : g.scope ≡ input.scope
  pub refresh_subject : r.claims.subject ≡ input.sub
  pub refresh_email : r.email ≡ input.email
  pub refresh_client_id : r.client_id ≡ input.client_id
  pub refresh_resource : r.resource ≡ input.resource
  pub refresh_scope : r.scope ≡ input.scope
  pub same_family : input.family ≢ [] → r.family ≡ input.family

module _ (j : Jose) (rand : ℕ → Text) (srv : AuthServer) (now draws : ℕ) (input : GrantInput) where
  -- The claims of the two tokens of a grant.
  abbrev pub granted_access : AccessClaims
  granted_access = access_claims j rand srv now draws input

  abbrev pub granted_refresh : RefreshClaims
  granted_refresh =
      let (family, next) = grant_family j rand srv now draws input in
      refresh_claims j rand srv now draws input family next

  -- The outcome of a grant.
  pub record IsGrant (g : TokenGrant) : Type 0 where
    pub access_signed : sign_claims j srv.keys (object_of_access granted_access) ≡ ok g.access_token
    pub refresh_signed :
        sign_claims j srv.keys (object_of_refresh granted_refresh) ≡ ok g.refresh_token
    pub same_scope : g.scope ≡ input.scope
    pub lifetime : g.expires_in ≡ srv.access_ttl / second

  pub issue_grant-ok :
      (g : TokenGrant) → (issue_grant j rand srv now draws input).1 ≡ ok g → IsGrant g
  unfolding issue_grant
  issue_grant-ok g h =
      elim (Result-cases (sign_claims j srv.keys (object_of_access granted_access))) [
        | inr (e, failed) ↦ absurd (ground arith)
        | inl (access, signed) ↦
            elim (Result-cases (sign_claims j srv.keys (object_of_refresh granted_refresh))) [
              | inr (e, failed) ↦ absurd (ground arith)
              | inl (refresh, signed_too) ↦ record {
                access_signed = ground arith;
                refresh_signed = ground arith;
                same_scope = ground arith;
                lifetime = ground arith;
              }
            ]
      ]

  pub issue_grant-IsForGrant :
      (g : TokenGrant)
      → (issue_grant j rand srv now draws input).1 ≡ ok g
      → IsForGrant input g granted_access granted_refresh
  unfolding access_claims refresh_claims grant_family
  issue_grant-IsForGrant g h = record {
    subject = refl;
    email = refl;
    client_id = refl;
    scope = refl;
    audience = refl;
    named_scope = (issue_grant-ok g h).same_scope;
    refresh_subject = refl;
    refresh_email = refl;
    refresh_client_id = refl;
    refresh_resource = refl;
    refresh_scope = refl;
    same_family = λ given. elim (Bool-cases (is_empty input.family)) [
      | inl e ↦ absurd (given (is_empty_sound input.family e))
      | inr filled ↦ rw filled refl
    ];
  }

module _ (j : Jose) (l : JoseLaws j) (rand : ℕ → Text) (srv : AuthServer) (priv kid enc_key : Text)
    (set_up : srv.keys ≡ keys j l priv kid enc_key) where
  -- With a configured issuer, the keys as `loadKeys` sets them up and claims that JSON carries
  -- unchanged: the two tokens of a grant are not interchangeable: whenever they are presented, the
  -- refresh token is not accepted as an access token, the access token not as a refresh token, and
  -- neither as a client_id.
  pub grant_kinds_apart :
      (now draws later : ℕ) (input : GrantInput) (g : TokenGrant)
      → srv.issuer ≢ []
      → l.IsCarried (object_of_access (granted_access j rand srv now draws input))
      → l.IsCarried (object_of_refresh (granted_refresh j rand srv now draws input))
      → (issue_grant j rand srv now draws input).1 ≡ ok g
      → ((c : AccessClaims) → verify_access_token j srv later g.refresh_token ≢ ok c)
        × ((c : RefreshClaims) → verify_refresh_token j srv later g.access_token ≢ ok c)
        × ((c : ClientClaims) → verify_client_id j srv g.access_token ≢ ok c)
        × ((c : ClientClaims) → verify_client_id j srv g.refresh_token ≢ ok c)
  unfolding access_claims refresh_claims
  grant_kinds_apart now draws later input g configured carried_a carried_r h =
      let granted = issue_grant-ok j rand srv now draws input g h in
      let (client_a, access_a, refresh_a) =
        signed_kind j l srv priv kid enc_key set_up
          (object_of_access (granted_access j rand srv now draws input)) g.access_token later
          configured carried_a granted.access_signed in
      let (client_r, access_r, refresh_r) =
        signed_kind j l srv priv kid enc_key set_up
          (object_of_refresh (granted_refresh j rand srv now draws input)) g.refresh_token later
          configured carried_r granted.refresh_signed in
      let (ca, cr, ar, _) = uses_differ in
      (
        λ c e. ar (sym (access_r c e)),
        λ c e. ar (refresh_a c e),
        λ c e. ca (sym (client_a c e)),
        λ c e. cr (sym (client_r c e)),
      )
