-- ===== src/Web/Authorize/Get/Page.antt =====
-- What a consent page shows and what its blob seals.
use oidc_proxy.Base.{
  ℕ, ◌≡◌, ◌↔◌, refl, ap, ◌∙◌, sym, true, false, Text, Bool, if◌then◌else◌, Message, fields,
  is_empty,
}
use oidc_proxy.TtlCache.{TtlCache}
use oidc_proxy.Mcpauth.Jose.{Jose}
use oidc_proxy.Mcpauth.AuthServer.{AuthServer}
use oidc_proxy.Mcpauth.Artifacts.{AuthReqInput}
use oidc_proxy.Mcpauth.Cimd.{ClientMetadata, localhost_only}
use oidc_proxy.Utils.{origin_of}
use oidc_proxy.Web.Response.{ConsentData, with_brand}
use oidc_proxy.Web.Authorize.{Server, VerifiedId, host_of, cimd_host}
use oidc_proxy.Web.Authorize.Get.{CheckedRequest, auth_req_input, consent_data}

-- What the blob of a consent page seals: the client, its request, the server's resource and the user.
pub record IsSealedFor (srv : AuthServer) (client_id : Text) (k : CheckedRequest)
    (id_tok : VerifiedId) (input : AuthReqInput) : Type 0 where
  pub client : input.client_id ≡ client_id
  pub redirect_uri : input.redirect_uri ≡ k.redirect_uri
  pub code_challenge : input.code_challenge ≡ k.code_challenge
  pub resource : input.resource ≡ srv.resource
  pub scope : input.scope ≡ k.scope
  pub state : input.state ≡ k.state
  pub sub : input.sub ≡ id_tok.subject
  pub email : input.email ≡ id_tok.email

-- What a consent page shows: who asks, where the answer goes, and for what; and what its form posts.
pub record Shows (srv : AuthServer) (brand : Text) (client : ClientMetadata) (k : CheckedRequest)
    (blob : Text × Text) (d : ConsentData) : Type 0 where
  pub redirect_host : d.redirect_host ≡ host_of k.redirect_uri
  pub redirect_origin : d.redirect_origin ≡ origin_of k.redirect_uri
  pub client_name : d.client_name ≡ client.client_name
  pub client_host : d.client_host ≡ cimd_host client
  pub loopback_only : d.loopback_only ≡ localhost_only client
  pub resource : d.resource ≡ srv.resource
  pub scopes : d.scopes ≡ fields k.scope
  pub auth_req : d.auth_req ≡ blob.0
  pub csrf : d.csrf ≡ blob.1
  pub brand_color : d.brand_color ≡ brand

if_same : (b : Bool) (t : Text) → (if b then t else t) ≡ t
if_same true t = refl
if_same false t = refl

module _ (c : TtlCache) (j : Jose) (rand : ℕ → Text) (error_text : Message → Text) (S : Type 0)
    (s : Server S) (now : ℕ) where
  -- The code seals and shows just that.
  pub input-IsSealedFor :
      (client_id : Text) (k : CheckedRequest) (id_tok : VerifiedId) (input : AuthReqInput)
      → IsSealedFor s.auth_server client_id k id_tok input
        ↔ (input ≡ auth_req_input c j rand error_text S s now client_id k id_tok)
  unfolding auth_req_input
  input-IsSealedFor client_id k id_tok input = (
    λ p. λ i. record {
      client_id = p.client i;
      redirect_uri = p.redirect_uri i;
      code_challenge = p.code_challenge i;
      resource = p.resource i;
      scope = p.scope i;
      state = p.state i;
      sub = p.sub i;
      email = p.email i;
    },
    λ e. record {
      client = ap (λ (x : AuthReqInput). x.client_id) e;
      redirect_uri = ap (λ (x : AuthReqInput). x.redirect_uri) e;
      code_challenge = ap (λ (x : AuthReqInput). x.code_challenge) e;
      resource = ap (λ (x : AuthReqInput). x.resource) e;
      scope = ap (λ (x : AuthReqInput). x.scope) e;
      state = ap (λ (x : AuthReqInput). x.state) e;
      sub = ap (λ (x : AuthReqInput). x.sub) e;
      email = ap (λ (x : AuthReqInput). x.email) e;
    },
  )

  pub page-Shows :
      (client : ClientMetadata) (k : CheckedRequest) (blob : Text × Text) (d : ConsentData)
      → Shows s.auth_server s.brand_color client k blob d
        ↔ (d ≡ with_brand s.brand_color (consent_data c j rand error_text S s now client k blob))
  unfolding consent_data
  page-Shows client k blob d =
      let brand = if_same (is_empty s.brand_color) s.brand_color in
      (
        λ p. λ i. record {
          redirect_host = p.redirect_host i;
          redirect_origin = p.redirect_origin i;
          client_name = p.client_name i;
          client_host = p.client_host i;
          loopback_only = p.loopback_only i;
          resource = p.resource i;
          scopes = p.scopes i;
          auth_req = p.auth_req i;
          csrf = p.csrf i;
          brand_color = (p.brand_color ∙ sym brand) i;
        },
        λ e. record {
          redirect_host = ap (λ (x : ConsentData). x.redirect_host) e;
          redirect_origin = ap (λ (x : ConsentData). x.redirect_origin) e;
          client_name = ap (λ (x : ConsentData). x.client_name) e;
          client_host = ap (λ (x : ConsentData). x.client_host) e;
          loopback_only = ap (λ (x : ConsentData). x.loopback_only) e;
          resource = ap (λ (x : ConsentData). x.resource) e;
          scopes = ap (λ (x : ConsentData). x.scopes) e;
          auth_req = ap (λ (x : ConsentData). x.auth_req) e;
          csrf = ap (λ (x : ConsentData). x.csrf) e;
          brand_color = ap (λ (x : ConsentData). x.brand_color) e ∙ brand;
        },
      )
