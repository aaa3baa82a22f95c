-- ===== src/Web/Authorize/Delivered.antt =====
-- What the client reads from a delivered code or an error, and what a resumed request asks for.
use oidc_proxy.Base.{
  ◌≡◌, ◌≢◌, refl, ◌∙◌, sym, inl, inr, true, false, some, [], ◌∷◌, String, Text, codes, text_eq,
  is_empty, is_empty_sound, is_empty_complete, Bool-cases, all, ltb, ltb→lt, &&-eq-true, ◌++◌,
}
use oidc_proxy.Http.{Values, get, first_value}
use oidc_proxy.Url.{Url, url_parse}
use oidc_proxy.Url.Values.{parse_query, set_value, remove, encode}
use oidc_proxy.Url.Values.RoundTrip.{IsBytes}
use oidc_proxy.Url.Values.Encoded.{IsByteValues}
use oidc_proxy.Url.Values.Lookup.{get-encode, get-set_value, get-set_value_other, set_value-bytes}
use oidc_proxy.Mcpauth.AuthServer.{AuthServer}
use oidc_proxy.Mcpauth.Claims.{AuthReqClaims}
use oidc_proxy.Web.Response.{redirect_query}
use oidc_proxy.Web.Authorize.{
  set_given, resume_query, reconstruct_authorize_url, code_query, deliver_code,
}

bytes_of : (s : Text) → all (λ b. ltb b 256) s ≡ true → IsBytes s
unfolding all
bytes_of [] h = tt
bytes_of (b ∷ s) h =
    let (p, q) = &&-eq-true (ltb b 256) (all (λ b. ltb b 256) s) h in (ltb→lt b 256 p, bytes_of s q)

-- A parameter that is set where its value is given: read back, or as it was before.
get-set_given : (q : Values) (name : String) (v : Text) → v ≢ [] → get (set_given q name v) name ≡ v
get-set_given q name v given = rw (is_empty_complete v given) (get-set_value q name v)

get-set_given_new :
    (q : Values) (name : String) (v : Text) → get q name ≡ [] → get (set_given q name v) name ≡ v
get-set_given_new q name v fresh = elim (Bool-cases (is_empty v)) [
  | inl e ↦ rw e (fresh ∙ sym (is_empty_sound v e))
  | inr given ↦ rw given (get-set_value q name v)
]

get-set_given_other :
    (q : Values) (name other : String) (v : Text)
    → text_eq (codes name) (codes other) ≡ false
    → get (set_given q name v) other ≡ get q other
get-set_given_other q name other v differs = elim (Bool-cases (is_empty v)) [
  | inl e ↦ rw e refl
  | inr given ↦ rw given (get-set_value_other q name other v differs)
]

set_given-bytes :
    (q : Values) (name : String) (v : Text)
    → IsBytes (codes name)
    → IsBytes v
    → IsByteValues q
    → IsByteValues (set_given q name v)
set_given-bytes q name v p b h = elim (Bool-cases (is_empty v)) [
  | inl e ↦ rw e h
  | inr given ↦ rw given (set_value-bytes q name v p b h)
]

-- What the client that follows the redirect reads from its query.
pub record IsDelivered (srv : AuthServer) (req : AuthReqClaims) (code : Text) (u : Url)
    (query : Text) : Type 0 where
  pub code_read : get (parse_query query) "code" ≡ code
  pub issuer_read : get (parse_query query) "iss" ≡ srv.issuer
  pub state_read : req.state ≢ [] → get (parse_query query) "state" ≡ req.state
  pub others_kept :
      (name : String)
      → text_eq (codes "code") (codes name) ≡ false
      → text_eq (codes "iss") (codes name) ≡ false
      → text_eq (codes "state") (codes name) ≡ false
      → get (parse_query query) name ≡ get (parse_query u.raw_query) name

code_query-bytes :
    (srv : AuthServer) (q : Values) (code state : Text)
    → IsBytes code
    → IsBytes srv.issuer
    → IsBytes state
    → IsByteValues q
    → IsByteValues (code_query srv q code state)
unfolding code_query codes all
code_query-bytes srv q code state p i t h =
    set_given-bytes (set_value (set_value q "code" code) "iss" srv.issuer) "state" state
      (bytes_of (codes "state") refl) t
      (set_value-bytes (set_value q "code" code) "iss" srv.issuer (bytes_of (codes "iss") refl) i
        (set_value-bytes q "code" code (bytes_of (codes "code") refl) p h))

-- For a redirect URI that parses, and a redirect URI's query, code, issuer and state of bytes: a
-- code is delivered by a redirect to the redirect URI with a query in which the client reads the
-- code, the issuer, the state if there is one, and for every other name what the redirect URI's own
-- query has.
pub deliver_code-IsDelivered :
    (srv : AuthServer) (req : AuthReqClaims) (code : Text) (u : Url)
    → url_parse req.redirect_uri ≡ some u
    → IsByteValues (parse_query u.raw_query)
    → IsBytes code
    → IsBytes srv.issuer
    → IsBytes req.state
    → (query : Text) × ((deliver_code srv req code).body ≡ redirect_query req.redirect_uri query)
      × IsDelivered srv req code u query
unfolding deliver_code code_query codes text_eq
deliver_code-IsDelivered srv req code u parsed bytes p i t =
    let q0 = parse_query u.raw_query in
    let q1 = set_value q0 "code" code in
    let q2 = set_value q1 "iss" srv.issuer in
    let q = code_query srv q0 code req.state in
    let whole = code_query-bytes srv q0 code req.state p i t bytes in
    (
      encode q,
      rw (parsed, deliver_code) refl,
      record {
        code_read =
            get-encode q "code" whole
            ∙ get-set_given_other q2 "state" "code" req.state refl
            ∙ get-set_value_other q1 "iss" "code" srv.issuer refl
            ∙ get-set_value q0 "code" code;
        issuer_read =
            get-encode q "iss" whole
            ∙ get-set_given_other q2 "state" "iss" req.state refl
            ∙ get-set_value q1 "iss" srv.issuer;
        state_read = λ given. get-encode q "state" whole ∙ get-set_given q2 "state" req.state given;
        others_kept = λ name not_code not_iss not_state.
            get-encode q name whole
            ∙ get-set_given_other q2 "state" name req.state not_state
            ∙ get-set_value_other q1 "iss" name srv.issuer not_iss
            ∙ get-set_value_other q0 "code" name code not_code;
      },
    )

-- The claims of a blob whose texts are all of bytes.
pub record IsByteClaims (a : AuthReqClaims) : Type 0 where
  pub client_id : IsBytes a.client_id
  pub redirect_uri : IsBytes a.redirect_uri
  pub code_challenge : IsBytes a.code_challenge
  pub resource : IsBytes a.resource
  pub scope : IsBytes a.scope
  pub state : IsBytes a.state

-- A request that asks for what the claims of a blob hold.
pub record AsksFor (q : Values) (a : AuthReqClaims) : Type 0 where
  pub client_id : get q "client_id" ≡ a.client_id
  pub redirect_uri : get q "redirect_uri" ≡ a.redirect_uri
  pub response_type : get q "response_type" ≡ codes "code"
  pub code_challenge : get q "code_challenge" ≡ a.code_challenge
  pub challenge_method : get q "code_challenge_method" ≡ codes "S256"
  pub resource : get q "resource" ≡ a.resource
  pub scope : get q "scope" ≡ a.scope
  pub state : get q "state" ≡ a.state

-- The parameters that `reconstructAuthorizeURL` sets in every case.
abbrev required_query : AuthReqClaims → Values
required_query a =
    (codes "client_id", a.client_id)
    ∷ (codes "redirect_uri", a.redirect_uri)
    ∷ (codes "response_type", codes "code")
    ∷ (codes "code_challenge", a.code_challenge)
    ∷ (codes "code_challenge_method", codes "S256")
    ∷ (codes "resource", a.resource)
    ∷ []

abbrev full_query : AuthReqClaims → Values
full_query a = set_given (set_given (required_query a) "scope" a.scope) "state" a.state

resume_query_lem : (a : AuthReqClaims) → resume_query a ≡ full_query a
unfolding resume_query set_value remove codes text_eq
resume_query_lem a = refl

full_query-bytes : (a : AuthReqClaims) → IsByteClaims a → IsByteValues (full_query a)
unfolding codes all
full_query-bytes a p =
    set_given-bytes (set_given (required_query a) "scope" a.scope) "state" a.state
      (bytes_of (codes "state") refl) p.state
      (set_given-bytes (required_query a) "scope" a.scope (bytes_of (codes "scope") refl) p.scope (
        (bytes_of (codes "client_id") refl, p.client_id),
        (
          (bytes_of (codes "redirect_uri") refl, p.redirect_uri),
          (
            (bytes_of (codes "response_type") refl, bytes_of (codes "code") refl),
            (
              (bytes_of (codes "code_challenge") refl, p.code_challenge),
              (
                (bytes_of (codes "code_challenge_method") refl, bytes_of (codes "S256") refl),
                ((bytes_of (codes "resource") refl, p.resource), tt),
              ),
            ),
          ),
        ),
      ))

full_query-AsksFor : (a : AuthReqClaims) → AsksFor (full_query a) a
unfolding codes text_eq first_value get
full_query-AsksFor a =
    let q = required_query a in
    let q' = set_given q "scope" a.scope in
    record {
      client_id = kept "client_id" refl refl;
      redirect_uri = kept "redirect_uri" refl refl;
      response_type = kept "response_type" refl refl;
      code_challenge = kept "code_challenge" refl refl;
      challenge_method = kept "code_challenge_method" refl refl;
      resource = kept "resource" refl refl;
      scope =
          get-set_given_other q' "state" "scope" a.state refl
          ∙ get-set_given_new q "scope" a.scope refl;
      state =
          get-set_given_new q' "state" a.state (get-set_given_other q "scope" "state" a.scope refl);
    }
  where
    kept :
        (name : String)
        → text_eq (codes "scope") (codes name) ≡ false
        → text_eq (codes "state") (codes name) ≡ false
        → get (full_query a) name ≡ get (required_query a) name
    kept name not_scope not_state =
        get-set_given_other (set_given (required_query a) "scope" a.scope) "state" name a.state
          not_state
        ∙ get-set_given_other (required_query a) "scope" name a.scope not_scope

-- For claims of bytes:
-- the URL at which a request resumes after sign-in is the authorization endpoint with a query in which
-- the endpoint reads the client, redirect URI, challenge, resource, scope and state of the claims, and
-- asks for a code with an S256 challenge.
pub reconstruct_authorize_url-AsksFor :
    (a : AuthReqClaims)
    → IsByteClaims a
    → (query : Text) × (reconstruct_authorize_url a ≡ codes "/oauth2/authorize?" ++ query)
      × AsksFor (parse_query query) a
unfolding reconstruct_authorize_url
reconstruct_authorize_url-AsksFor a p =
    let read : (name : String)
        → get (parse_query (encode (full_query a))) name ≡ get (full_query a) name =
      λ name. get-encode (full_query a) name (full_query-bytes a p) in
    let asks = full_query-AsksFor a in
    (
      encode (full_query a),
      rw (resume_query_lem a) refl,
      record {
        client_id = read "client_id" ∙ asks.client_id;
        redirect_uri = read "redirect_uri" ∙ asks.redirect_uri;
        response_type = read "response_type" ∙ asks.response_type;
        code_challenge = read "code_challenge" ∙ asks.code_challenge;
        challenge_method = read "code_challenge_method" ∙ asks.challenge_method;
        resource = read "resource" ∙ asks.resource;
        scope = read "scope" ∙ asks.scope;
        state = read "state" ∙ asks.state;
      },
    )
