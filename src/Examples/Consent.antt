-- ===== src/Examples/Consent.antt =====
-- The authorization endpoint.
mod Fixture
use oidc_proxy.Base.{
  ℕ, ◌+◌, ◌*◌, ◌≤◌, ◌≡◌, ◌≢◌, ◌↔◌, refl, sym, ◌∙◌, all, ltb, ltb→lt, &&-eq-true, Bool, true, false,
  Option, none, some, List, [], ◌∷◌, ◌++◌, Text, arith, codes, String, if◌then◌else◌, Message,
  message, text_eq, Result, ok, err,
}
use oidc_proxy.Http.{Values, Request, get}
use oidc_proxy.TtlCache.Table.{table_cache}
use oidc_proxy.Token.{Verified}
use oidc_proxy.Url.{Url, url_parse}
use oidc_proxy.Url.Values.RoundTrip.{IsBytes}
use oidc_proxy.Url.Values.Encoded.{IsByteValues}
use oidc_proxy.Url.Values.{parse_query}
use oidc_proxy.Mcpauth.Jose.{Object, Jose, JoseLaws, second}
use oidc_proxy.Mcpauth.Claims.{
  use_client, no_claims, AuthReqClaims, object_of_auth_req, object_of_client,
}
use oidc_proxy.Mcpauth.Artifacts.{
  AuthReqInput, auth_req_claims, code_claims, mint_code, mint_auth_req,
}
use oidc_proxy.Mcpauth.RedirectUri.{is_url_client_id}
use oidc_proxy.Mcpauth.Client.{resolve_client}
use oidc_proxy.Web.Session.{read_tokens}
use oidc_proxy.Mcpauth.Cimd.{ClientMetadata, CimdResolver}
use oidc_proxy.Web.Access.{open_to_all}
use oidc_proxy.Web.Response.{ConsentData, with_brand, consent_page, redirect_query}
use oidc_proxy.Web.Authorize.{
  Server, AuthorizeState, VerifiedId, reconstruct_authorize_url, deliver_code,
}
use oidc_proxy.Web.Authorize.Browser.{IsSignedIn}
use oidc_proxy.Web.Authorize.Get.{
  CheckedRequest, handle_authorize_get, auth_req_input, consent_data,
}
use oidc_proxy.Web.Authorize.Get.Checked.{IsChecked}
use oidc_proxy.Web.Authorize.Get.Consent.{IsKnown, AsksConsent, consent_page_iff}
use oidc_proxy.Web.Authorize.Get.Page.{IsSealedFor, Shows}
use oidc_proxy.Web.Authorize.Post.{handle_authorize_post}
use oidc_proxy.Web.Authorize.Post.Approved.{Approves, code_minted_iff}
use oidc_proxy.Web.Authorize.Flow.{IsApproval, IsBoundTo, sealed_claims, consent_page-code}
use oidc_proxy.Web.Authorize.Delivered.{
  IsDelivered, IsByteClaims, AsksFor, deliver_code-IsDelivered, reconstruct_authorize_url-AsksFor,
}
use oidc_proxy.Examples.ToyJose.{toy_jose, toy_laws}
use oidc_proxy.Examples.Tokens.Fixture.{rand, noon, server, plain_jose, consent}
use oidc_proxy.Examples.Consent.Fixture.{
  input, ann, verify_fn, proxy, error_text, jose, laws, query, asking, form, approving, start,
  client, asked, user, page,
}

consent_page_iff_example :
    ((handle_authorize_get table_cache jose rand error_text Unit proxy noon asking start).1.body
      ≡ consent_page page)
    ↔ AsksConsent table_cache jose rand error_text Unit proxy noon asking start page
consent_page_iff_example =
    consent_page_iff table_cache jose rand error_text Unit proxy noon asking start page

code_minted_iff_example :
    ((handle_authorize_post table_cache jose rand Unit proxy noon approving start).0.draws ≢ 0) ↔ (
      (req : AuthReqClaims) × (f : Values) × Approves table_cache jose rand Unit proxy noon
        approving start f req)
code_minted_iff_example = code_minted_iff table_cache jose rand Unit proxy noon approving start

not_url : is_url_client_id (get asking.query "client_id") ≡ false
unfolding is_url_client_id oidc_proxy.Base.contains_text get text_eq
not_url = refl

client_resolved :
    (resolve_client table_cache jose server proxy.resolver noon
      (get asking.query "client_id")
      start.cache).1
    ≡ ok client
unfolding resolve_client get text_eq is_url_client_id oidc_proxy.Base.contains_text
    oidc_proxy.Mcpauth.Artifacts.verify_client_id oidc_proxy.Mcpauth.Artifacts.parse_signed
    oidc_proxy.Mcpauth.Keys.verification_key oidc_proxy.Mcpauth.Keys.find_key
    oidc_proxy.Mcpauth.Keys.key_material oidc_proxy.Mcpauth.Keys.published_key
client_resolved = refl

known : IsKnown table_cache jose rand error_text Unit proxy noon asking start client
known = record {
  let_through = λ e. absurd (ground (arith, e, not_url));
  resolved = client_resolved;
}

challenge_given : codes "v" ≢ []
unfolding codes
challenge_given e = absurd (ground arith)

checked : IsChecked table_cache jose rand error_text Unit proxy noon query client asked
unfolding oidc_proxy.Mcpauth.RedirectUri.match_redirect_uri codes oidc_proxy.Base.contains text_eq
    get oidc_proxy.Mcpauth.Resource.matches_resource url_parse
    oidc_proxy.Mcpauth.Resource.normalize_resource oidc_proxy.Mcpauth.Scope.grant_scope
    oidc_proxy.Base.fields oidc_proxy.Mcpauth.Scope.grant_loop oidc_proxy.Base.join
checked = record {
  matched = refl;
  redirect = refl;
  response_type = refl;
  challenge = refl;
  challenged = challenge_given;
  challenge_method = refl;
  for_resource = refl;
  granted = refl;
  carried = refl;
}

cookie_given : (read_tokens proxy.cookies asking.cookies).id_token ≡ codes "good"
unfolding codes read_tokens oidc_proxy.Web.Session.cookie_value oidc_proxy.Http.first_value text_eq
    oidc_proxy.Web.Session.cookie_name
cookie_given = refl

good_given : codes "good" ≢ []
unfolding codes
good_given e = absurd (ground arith)

cookie_verified : (verify_fn noon (read_tokens proxy.cookies asking.cookies).id_token tt).1 ≡ ok ann
unfolding text_eq read_tokens oidc_proxy.Web.Session.cookie_value oidc_proxy.Http.first_value codes
    oidc_proxy.Web.Session.cookie_name
cookie_verified = refl

signed_in : IsSignedIn Unit proxy noon asking tt user
signed_in = record {
  given = λ e. good_given (sym cookie_given ∙ e);
  user = ann;
  verified = cookie_verified;
  subject = refl;
  email = refl;
}

IsSignedIn-later : IsSignedIn Unit proxy (noon + 60 * second) approving tt user
IsSignedIn-later = record {
  given = λ e. good_given (sym cookie_given ∙ e);
  user = ann;
  verified = cookie_verified;
  subject = refl;
  email = refl;
}

sealed : (mint_auth_req jose rand server noon 0 input).1 ≡ ok (0 ∷ [], 1 ∷ [])
unfolding mint_auth_req oidc_proxy.Mcpauth.Artifacts.encrypt_claims text_eq auth_req_claims codes
sealed = refl

sealed_for : IsSealedFor server (get asking.query "client_id") asked user input
unfolding get text_eq codes
sealed_for = record {
  client = refl;
  redirect_uri = refl;
  code_challenge = refl;
  resource = refl;
  scope = refl;
  state = refl;
  sub = refl;
  email = refl;
}

shown : Shows server proxy.brand_color client asked (0 ∷ [], 1 ∷ []) page
unfolding codes oidc_proxy.Web.Authorize.host_of oidc_proxy.Utils.origin_of
    oidc_proxy.Web.Authorize.cimd_host oidc_proxy.Mcpauth.Cimd.localhost_only oidc_proxy.Base.fields
    url_parse oidc_proxy.Mcpauth.RedirectUri.is_loopback_host oidc_proxy.Url.hostname
    oidc_proxy.Url.strip_port
shown = record {
  redirect_host = refl;
  redirect_origin = refl;
  client_name = refl;
  client_host = refl;
  loopback_only = refl;
  resource = refl;
  scopes = refl;
  auth_req = refl;
  csrf = refl;
  brand_color = refl;
}

abbrev asks : AsksConsent table_cache jose rand error_text Unit proxy noon asking start page
asks = record {
  client = client;
  is_known = known;
  asked = asked;
  is_checked = checked;
  id_tok = user;
  is_signed_in = signed_in;
  is_offered = record {
    admitted = open_to_all refl refl;
    input = input;
    sealed_for = sealed_for;
    blob = (0 ∷ [], 1 ∷ []);
    sealed = sealed;
    shown = shown;
  };
}

carried : laws.IsCarried (
    object_of_auth_req (
      sealed_claims table_cache jose laws rand error_text Unit proxy
        (codes "sk")
        (codes "k1")
        (codes "ek")
        refl
        noon
        asking
        start
        page
        asks))
unfolding auth_req_claims auth_req_input text_eq codes get oidc_proxy.Http.first_value
carried = refl

approval : IsApproval approving form page
unfolding oidc_proxy.Web.Handlers.expected_origin get oidc_proxy.Utils.forwarded_proto text_eq
    oidc_proxy.Utils.forwarded_host
approval = record { own_origin = refl; posted = refl; blob = refl; nonce = refl; approved = refl }

-- What the blob of the page seals.
abbrev consented : AuthReqClaims
consented =
    sealed_claims table_cache jose laws rand error_text Unit proxy (codes "sk") (codes "k1")
      (codes "ek") refl noon asking start page asks

consent_page-code_example :
    ((handle_authorize_get table_cache jose rand error_text Unit proxy noon asking start).1.body
      ≡ consent_page page)
    × ((handle_authorize_post table_cache jose rand Unit proxy
          (noon + 60 * second)
          approving
          start).1
        ≡ deliver_code server consented (0 ∷ []))
    × IsBoundTo asking user page (code_claims jose rand server (noon + 60 * second) 0 consented)
unfolding codes mint_code oidc_proxy.Mcpauth.Artifacts.encrypt_claims text_eq
    oidc_proxy.Mcpauth.Artifacts.code_claims
consent_page-code_example =
    consent_page-code table_cache jose laws rand error_text Unit proxy (codes "sk") (codes "k1")
      (codes "ek") refl noon asking start page asks carried (noon + 60 * second) approving start
      form user (0 ∷ []) (omega arith) (omega arith) approval IsSignedIn-later refl
      (open_to_all refl refl) refl
