-- ===== src/Web/Token/Flow.antt =====
-- From a consent to its tokens.
use oidc_proxy.Base.{ℕ, ◌+◌, ◌≤◌, ◌≡◌, true, false, [], Text, ok}
use oidc_proxy.Http.{Values, get}
use oidc_proxy.TtlCache.{TtlCache}
use oidc_proxy.Mcpauth.Jose.{Jose, JoseLaws, second}
use oidc_proxy.Mcpauth.AuthServer.{AuthServer}
use oidc_proxy.Mcpauth.Claims.{AuthReqClaims, object_of_code}
use oidc_proxy.Mcpauth.Artifacts.{GrantInput, TokenGrant, code_claims, mint_code, issue_grant}
use oidc_proxy.Mcpauth.Artifacts.Sealing.{keys}
use oidc_proxy.Mcpauth.Artifacts.Lifetime.{verify_code-mint_code}
use oidc_proxy.Mcpauth.Artifacts.Granted.{IsGrant, issue_grant-ok}
use oidc_proxy.Mcpauth.Pkce.{verify_pkce}
use oidc_proxy.Mcpauth.ReplayGuard.{seen_before}
use oidc_proxy.Web.Response.{token_grant}
use oidc_proxy.Web.Token.{TokenState, input_of_code, token_authorization_code}
use oidc_proxy.Web.Token.Redeem.{code_grant_iff}

-- What a grant for the consent is bound to.
abbrev pub consented : AuthReqClaims → GrantInput
consented req = record {
  sub = req.claims.subject;
  email = req.email;
  client_id = req.client_id;
  resource = req.resource;
  scope = req.scope;
  family = [];
}

module _ (c : TtlCache) (j : Jose) (l : JoseLaws j) (rand : ℕ → Text) (s256 : Text → Text)
    (srv : AuthServer) (priv kid enc_key : Text)
    (set_up : srv.keys ≡ keys j l priv kid enc_key) where
  -- With the keys as `loadKeys` sets them up and claims that JSON carries unchanged:
  -- a code that was minted from a consent is redeemed: presented before its lifetime is over, with
  -- the client_id and the redirect_uri of the consent and a verifier of its challenge, and with an id
  -- that the guard lets through, it is answered with the tokens that `IssueGrant` makes for the user,
  -- client, resource and scope of the consent, provided that it makes them.
  pub token_authorization_code-mint_code :
      (now draws later : ℕ) (req : AuthReqClaims) (code : Text) (f : Values) (st : TokenState c)
      (g : TokenGrant)
      → l.IsCarried (object_of_code (code_claims j rand srv now draws req))
      → (mint_code j rand srv now draws req).1 ≡ ok code
      → now ≤ later
      → later + second ≤ now + srv.code_ttl
      → get f "code" ≡ code
      → get f "client_id" ≡ req.client_id
      → get f "redirect_uri" ≡ req.redirect_uri
      → verify_pkce s256 (get f "code_verifier") req.code_challenge ≡ true
      → (seen_before c later (rand draws) srv.code_ttl st.guard).1 ≡ false
      → (issue_grant j rand srv later st.draws (consented req)).1 ≡ ok g
      → ((token_authorization_code c j rand s256 srv later f st).1.body ≡ token_grant g)
        × IsGrant j rand srv later st.draws (consented req) g
  unfolding code_claims input_of_code
  token_authorization_code-mint_code now draws later req code f st g carried minted after before
        presented client redirect proved unseen granted =
      (
        (code_grant_iff c j rand s256 srv later f st g).1 (
          code_claims j rand srv now draws req,
          record {
            verified = rw presented (
                verify_code-mint_code j l rand srv priv kid enc_key set_up now draws later req code
                  carried minted after before);
            unseen = unseen;
            same_client = client;
            same_redirect = redirect;
            proved = proved;
            granted = granted;
          },
        ),
        issue_grant-ok j rand srv later st.draws (consented req) g granted,
      )
