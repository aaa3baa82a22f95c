-- ===== src/Mcpauth/Artifacts.antt =====
-- internal/mcpauth/artifacts.go: minting and verifying the five artifacts. Times are in nanoseconds.
-- The identifiers that `randToken` draws come from a stream: `rand n` is the n-th, and a function
-- that draws returns the number of the next one.
pub mod Granted
pub mod Sealing
pub mod Checks
pub mod Lifetime
pub mod Kinds
pub mod Consent
pub mod ClientId
use oidc_proxy.Base.{
  ℕ, ◌+◌, ◌*◌, ◌/◌, Bool, not, Option, none, some, List, [], ◌∷◌, Text, codes, text_eq, is_empty,
  if◌then◌else◌, Message, message, Result, ok, err,
}
use oidc_proxy.Mcpauth.Jose.{
  Registered, Object, Expected, ClaimsError, expired, invalid, second, Jose,
}
use oidc_proxy.Mcpauth.Claims.{
  use_client, use_auth_req, use_code, use_access, use_refresh, no_claims, ClientClaims,
  AuthReqClaims, CodeClaims, AccessClaims, RefreshClaims, object_of_client, object_of_auth_req,
  object_of_code, object_of_access, object_of_refresh, client_of_object, auth_req_of_object,
  code_of_object, access_of_object, refresh_of_object,
}
use oidc_proxy.Mcpauth.Keys.{KeyMaterial, verification_key}
use oidc_proxy.Mcpauth.AuthServer.{AuthServer}

infixl 5 ◌>>=◌
abbrev pub ◌>>=◌ {ℓ κ} : {A : Type ℓ} {B : Type κ} → Result A → (A → Result B) → Result B
ok a >>= f = f a
err e >>= f = err e

abbrev pub clock_skew_leeway : ℕ
clock_skew_leeway = 60 * second

-- `ErrExpired`
abbrev pub err_expired : Message
err_expired = message "expired"

abbrev pub wrong_use : Text → Text → Message
wrong_use got want = record { format = "wrong token_use %q, want %q"; args = got ∷ want ∷ [] }

pub record ClientRegistration : Type 0 where
  pub redirect_uris : List Text
  pub client_name : Text

pub record AuthReqInput : Type 0 where
  pub client_id : Text
  pub redirect_uri : Text
  pub code_challenge : Text
  pub resource : Text
  pub scope : Text
  pub state : Text
  pub sub : Text
  pub email : Text

pub record TokenGrant : Type 0 where
  pub access_token : Text
  pub refresh_token : Text
  -- in seconds
  pub expires_in : ℕ
  pub scope : Text

pub record GrantInput : Type 0 where
  pub sub : Text
  pub email : Text
  pub client_id : Text
  pub resource : Text
  pub scope : Text
  pub family : Text

module _ (j : Jose) where
  unfoldable pub sign_claims : KeyMaterial → Object → Result Text
  sign_claims k o = j.sign k.signing_key k.kid o

  unfoldable pub encrypt_claims : KeyMaterial → Object → Result Text
  encrypt_claims k o = j.encrypt k.enc_key o

  abbrev first_key_id : List Text → Result Text
  first_key_id [] = err (message "signed token has no header")
  first_key_id (kid ∷ kids) = ok kid

  unfoldable pub parse_signed : KeyMaterial → Text → Result Object
  parse_signed k token = do
    tok ← j.parse_signed token
    kid ← first_key_id (j.key_ids tok)
    jwk ← verification_key k kid
    j.verify tok jwk.key

  unfoldable pub parse_encrypted : KeyMaterial → Text → Result Object
  parse_encrypted k token = do tok ← j.parse_encrypted token; j.decrypt tok k.enc_key

  -- `ValidateWithLeeway` as an error value
  abbrev pub validated {ℓ} : {A : Type ℓ} → A → Option ClaimsError → Result A
  validated a none = ok a
  validated a (some expired) = err (message "validation failed, token is expired (exp)")
  validated a (some invalid) = err (message "validation failed")

  -- The same, with `jwt.ErrExpired` turned into `ErrExpired`.
  abbrev pub validated_expiry {ℓ} : {A : Type ℓ} → A → Option ClaimsError → Result A
  validated_expiry a none = ok a
  validated_expiry a (some expired) = err err_expired
  validated_expiry a (some invalid) = err (message "validation failed")

  module _ (rand : ℕ → Text) (srv : AuthServer) (now draws : ℕ) where
    unfoldable pub client_claims : ClientRegistration → ClientClaims
    client_claims reg = record {
      claims = record no_claims { issued_at = some (j.numeric_date now); id = rand draws };
      token_use = use_client;
      redirect_uris = reg.redirect_uris;
      client_name = reg.client_name;
    }

    unfoldable pub mint_client_id : ClientRegistration → ℕ × Result Text
    mint_client_id reg = (draws + 1, sign_claims srv.keys (object_of_client (client_claims reg)))

    -- The claims that `MintAuthReq` seals; the first identifier drawn is the CSRF nonce.
    unfoldable pub auth_req_claims : AuthReqInput → AuthReqClaims
    auth_req_claims input = record {
      claims = record no_claims {
        subject = input.sub;
        issued_at = some (j.numeric_date now);
        expiry = some (j.numeric_date (now + srv.auth_req_ttl));
        id = rand (draws + 1);
      };
      token_use = use_auth_req;
      client_id = input.client_id;
      redirect_uri = input.redirect_uri;
      code_challenge = input.code_challenge;
      resource = input.resource;
      scope = input.scope;
      state = input.state;
      email = input.email;
      csrf = rand draws;
    }

    -- `MintAuthReq`: the blob, and the CSRF nonce
    unfoldable pub mint_auth_req : AuthReqInput → ℕ × Result (Text × Text)
    mint_auth_req input = (
      draws + 2,
      (do
        blob ← encrypt_claims srv.keys (object_of_auth_req (auth_req_claims input))
        ok (blob, rand draws)),
    )

    unfoldable pub code_claims : AuthReqClaims → CodeClaims
    code_claims req = record {
      claims = record no_claims {
        subject = req.claims.subject;
        issued_at = some (j.numeric_date now);
        expiry = some (j.numeric_date (now + srv.code_ttl));
        id = rand draws;
      };
      token_use = use_code;
      client_id = req.client_id;
      redirect_uri = req.redirect_uri;
      code_challenge = req.code_challenge;
      resource = req.resource;
      scope = req.scope;
      email = req.email;
    }

    unfoldable pub mint_code : AuthReqClaims → ℕ × Result Text
    mint_code req = (draws + 1, encrypt_claims srv.keys (object_of_code (code_claims req)))

    unfoldable pub access_claims : GrantInput → AccessClaims
    access_claims input = record {
      claims = record {
        issuer = srv.issuer;
        subject = input.sub;
        audience = input.resource ∷ [];
        expiry = some (j.numeric_date (now + srv.access_ttl));
        issued_at = some (j.numeric_date now);
        not_before = some (j.numeric_date now);
        id = rand draws;
      };
      token_use = use_access;
      scope = input.scope;
      email = input.email;
      client_id = input.client_id;
    }

    -- The claims of the refresh token, for the family and the number of the identifier.
    unfoldable pub refresh_claims : GrantInput → Text → ℕ → RefreshClaims
    refresh_claims input family drawn = record {
      claims = record no_claims {
        subject = input.sub;
        issued_at = some (j.numeric_date now);
        expiry = some (j.numeric_date (now + srv.refresh_ttl));
        id = rand drawn;
      };
      token_use = use_refresh;
      client_id = input.client_id;
      resource = input.resource;
      scope = input.scope;
      email = input.email;
      family = family;
    }

    -- The family of the new refresh token, and the number of the next identifier: an existing
    -- family is carried forward, and an empty one is drawn.
    unfoldable pub grant_family : GrantInput → Text × ℕ
    grant_family input =
        if is_empty input.family then (rand (draws + 1), draws + 2) else (input.family, draws + 1)

    unfoldable pub issue_grant : GrantInput → ℕ × Result TokenGrant
    issue_grant input = elim (sign_claims srv.keys (object_of_access (access_claims input))) [
      | err e ↦ (draws + 1, err e)
      | ok access ↦
          let (family, next) = grant_family input in
          (
            next + 1,
            (do
              refresh ← sign_claims srv.keys (object_of_refresh (refresh_claims input family next))
              ok (record {
                access_token = access;
                refresh_token = refresh;
                expires_in = srv.access_ttl / second;
                scope = input.scope;
              })),
          )
    ]

  module _ (srv : AuthServer) where
    -- `token_use` and, for a client_id, its redirect URIs
    abbrev checked_client : ClientClaims → Result ClientClaims
    checked_client c =
        if not (text_eq c.token_use use_client)
        then err (wrong_use c.token_use use_client)
        else if is_empty c.redirect_uris
        then err (message "client_id has no redirect_uris")
        else ok c

    unfoldable pub verify_client_id : Text → Result ClientClaims
    verify_client_id token = do o ← parse_signed srv.keys token; checked_client (client_of_object o)

  module _ (srv : AuthServer) (now : ℕ) where
    abbrev pub at_now : Expected
    at_now = record { time = now; issuer = []; any_audience = [] }

    abbrev checked_auth_req : AuthReqClaims → Result AuthReqClaims
    checked_auth_req c =
        if not (text_eq c.token_use use_auth_req)
        then err (wrong_use c.token_use use_auth_req)
        else validated c (j.validate c.claims at_now 0)

    unfoldable pub verify_auth_req : Text → Result AuthReqClaims
    verify_auth_req token = do
      o ← parse_encrypted srv.keys token
      checked_auth_req (auth_req_of_object o)

    abbrev checked_code : CodeClaims → Result CodeClaims
    checked_code c =
        if not (text_eq c.token_use use_code)
        then err (wrong_use c.token_use use_code)
        else validated c (j.validate c.claims at_now 0)

    unfoldable pub verify_code : Text → Result CodeClaims
    verify_code token = do o ← parse_encrypted srv.keys token; checked_code (code_of_object o)

    abbrev pub for_resource : Expected
    for_resource = record { time = now; issuer = srv.issuer; any_audience = srv.resource ∷ [] }

    abbrev checked_access : AccessClaims → Result AccessClaims
    checked_access c =
        if not (text_eq c.token_use use_access)
        then err (wrong_use c.token_use use_access)
        else validated c (j.validate c.claims for_resource clock_skew_leeway)

    unfoldable pub verify_access_token : Text → Result AccessClaims
    verify_access_token token = do
      o ← parse_signed srv.keys token
      checked_access (access_of_object o)

    abbrev checked_refresh : RefreshClaims → Result RefreshClaims
    checked_refresh c =
        if not (text_eq c.token_use use_refresh)
        then err (wrong_use c.token_use use_refresh)
        else validated_expiry c (j.validate c.claims at_now clock_skew_leeway)

    unfoldable pub verify_refresh_token : Text → Result RefreshClaims
    verify_refresh_token token = do
      o ← parse_signed srv.keys token
      checked_refresh (refresh_of_object o)
