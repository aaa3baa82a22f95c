-- ===== src/Mcpauth/Cimd.antt =====
-- internal/mcpauth/cimd.go: Client ID Metadata Documents, fetched, validated and cached. The network
-- is outside: a fetch is a parameter that returns what the program reads of the response.
pub mod Duration
pub mod Sound
use oidc_proxy.Base.{
  ℕ, ◌+◌, ◌*◌, ◌-◌, Bool, true, false, not, ◌&&◌, ◌||◌, Option, none, some, List, [], ◌∷◌, ◌++◌,
  Text, codes, text_eq, to_lower, trim_space, cut_prefix, has_prefix, has_suffix, is_empty, ltb,
  leb, ◌==◌, split, if◌then◌else◌, Message, message, Result, ok, err,
}
use oidc_proxy.TtlCache.{Item, TtlCache}
use oidc_proxy.Url.{Url, hostname, url_parse}
use oidc_proxy.Mcpauth.Jose.{second}
use oidc_proxy.Mcpauth.RedirectUri.{validate_redirect_uri, validate_cimd_url, is_loopback_host}
use oidc_proxy.Mcpauth.Cimd.Duration.{cache_ttl, cimd_negative_ttl}

abbrev pub cimd_max_body : ℕ
cimd_max_body = 32 * 1024

pub record ClientMetadata : Type 0 where
  pub client_id : Text
  pub client_name : Text
  pub client_uri : Text
  pub redirect_uris : List Text
  pub cimd : Bool

abbrev all_loopback : List Text → Bool
all_loopback [] = true
all_loopback (uri ∷ uris) =
    let rest = all_loopback uris in
    elim (url_parse uri) [
      | none ↦ false
      | some u ↦ if not (is_loopback_host (hostname u)) then false else rest
    ]

-- `LocalhostOnly()`
unfoldable pub localhost_only : ClientMetadata → Bool
localhost_only c = all_loopback c.redirect_uris && not (is_empty c.redirect_uris)

-- `cimdEntry`: an outcome, good or bad
pub data CimdEntry : Type 0 where
  resolved : ClientMetadata → CimdEntry
  failed : Message → CimdEntry

pub record CimdDocument : Type 0 where
  pub client_id : Text
  pub client_name : Text
  pub client_uri : Text
  pub redirect_uris : List Text
  pub token_endpoint_auth_method : Text

-- What the program reads of a response: `body_length` is that of the whole body, `document` is
-- `none` if the body is not JSON of this shape.
pub record HttpResponse : Type 0 where
  pub status : ℕ
  pub readable : Bool
  pub body_length : ℕ
  pub document : Option CimdDocument
  pub cache_control : Text

-- The loop over the redirect URIs of a document.
unfoldable pub invalid_redirect : List Text → Option Message
invalid_redirect [] = none
invalid_redirect (uri ∷ uris) =
    let rest = invalid_redirect uris in
    elim (validate_redirect_uri uri) [
      | none ↦ rest
      | some e ↦
          some (record { format = "client metadata redirect_uri %q: %w"; args = uri ∷ e.args })
    ]

-- `validate(clientID)`
unfoldable pub validate_document : CimdDocument → Text → Result ClientMetadata
validate_document d client_id =
    if not (text_eq d.client_id client_id)
    then err (message "client_id in metadata does not match the document URL")
    else if is_empty (trim_space d.client_name)
    then err (message "client metadata is missing client_name")
    else if is_empty d.redirect_uris
    then err (message "client metadata is missing redirect_uris")
    else elim (invalid_redirect d.redirect_uris) [
      | some e ↦ err e
      | none ↦
          if not (is_empty d.token_endpoint_auth_method)
            && not (text_eq d.token_endpoint_auth_method (codes "none"))
          then err (record {
            format = "unsupported token_endpoint_auth_method %q";
            args = d.token_endpoint_auth_method ∷ [];
          })
          else ok (record {
            client_id = client_id;
            client_name = d.client_name;
            client_uri = d.client_uri;
            redirect_uris = d.redirect_uris;
            cimd = true;
          })
    ]

-- One entry of the trust policy: a host, or "*." and a domain.
unfoldable pub host_matches : Text → Text → Bool
host_matches host a = elim (cut_prefix a (codes "*.")) [
  | some suffix ↦ has_suffix host (b'.' ∷ suffix) || text_eq host suffix
  | none ↦ text_eq host a
]

-- The loop of `hostAllowed`, on a host in lower case.
unfoldable pub any_host_matches : List Text → Text → Bool
any_host_matches [] host = false
any_host_matches (a ∷ allowed) host =
    let rest = any_host_matches allowed host in if host_matches host a then true else rest

-- `hostAllowed`
unfoldable pub host_allowed : List Text → Text → Bool
host_allowed allowed host =
    if is_empty allowed then true else any_host_matches allowed (to_lower host)

-- `normalizeHosts`
unfoldable pub normalize_hosts : List Text → List Text
normalize_hosts [] = []
normalize_hosts (h ∷ hosts) =
    let rest = normalize_hosts hosts in
    let host = to_lower (trim_space h) in if is_empty host then rest else host ∷ rest

-- The resolver's configuration; its cache is passed beside it. `fetch_url` is the guarded client.
pub record CimdResolver : Type 0 where
  pub fetch_url : ℕ → Text → Result HttpResponse
  pub allowed : List Text
  pub default_ttl : ℕ

-- `fetch`: the metadata and its lifetime
unfoldable pub fetch : CimdResolver → ℕ → Text → Result (ClientMetadata × ℕ)
fetch r now client_id = elim (r.fetch_url now client_id) [
  | err e ↦ err (record { format = "fetch client metadata: %w"; args = e.args })
  | ok response ↦
      if not (response.status == 200)
      then err (message "client metadata returned HTTP %d")
      else if not response.readable
      then err (message "read client metadata: %w")
      else if ltb cimd_max_body response.body_length
      then err (message "client metadata exceeds %d bytes")
      else elim response.document [
        | none ↦ err (message "client metadata is not valid JSON: %w")
        | some d ↦ elim (validate_document d client_id) [
          | err e ↦ err e
          | ok meta ↦ ok (meta, cache_ttl r.default_ttl response.cache_control)
        ]
      ]
]

module _ (c : TtlCache) where
  abbrev pub CimdCache : Type 0
  CimdCache = c.Store CimdEntry

  -- The part of `resolve` behind a cache miss.
  unfoldable pub fetch_and_store :
      CimdResolver → ℕ → Text → CimdCache → CimdCache × Result ClientMetadata
  fetch_and_store r now client_id s = elim (fetch r now client_id) [
    | err e ↦ (c.set CimdEntry now client_id (failed e) cimd_negative_ttl s, err e)
    | ok (meta, ttl) ↦ (c.set CimdEntry now client_id (resolved meta) ttl s, ok meta)
  ]

  abbrev cached : CimdEntry → Result ClientMetadata
  cached (resolved meta) = ok meta
  cached (failed e) = err e

  -- `resolve(clientID)` at the time `now`
  unfoldable pub resolve : CimdResolver → ℕ → Text → CimdCache → CimdCache × Result ClientMetadata
  resolve r now client_id s = elim (validate_cimd_url client_id) [
    | err e ↦ (s, err e)
    | ok u ↦
        if not (host_allowed r.allowed (hostname u))
        then (
          s,
          err (record {
            format = "client_id host %q is not in the CIMD trust policy";
            args = hostname u ∷ [];
          }),
        )
        else let (s', item) = c.get CimdEntry now client_id s in
          elim item [
            | none ↦ fetch_and_store r now client_id s'
            | some i ↦
                if c.is_expired now i.expires_at
                then fetch_and_store r now client_id s'
                else (s', cached i.value)
          ]
  ]
