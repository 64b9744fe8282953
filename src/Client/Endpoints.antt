-- ===== src/Client/Endpoints.antt =====
-- The methods of `RegistryClient` in sdk/src/registry.ts, one for each endpoint of the registry.
use open_agent_hub.Prelude.{
  ℕ, zero, suc, String, Option, none, some, Bool, true, false, not, if◌then◌else◌, List, [], ◌∷◌,
  ◌++◌, eqb, truthy, concat, map, get_or_default, Object, split_on, last,
}
use open_agent_hub.Json.{
  Json, Fields, no_fields, field, null, text, boolean, object, member, as_text,
}
use open_agent_hub.Package.Signature.{SignatureFile}
use open_agent_hub.Client.{
  Method, get, post, put, delete, Body, no_body, json, archive, Response, Failure, plain,
  registry_error, device_auth_pending, Outcome, failed, done, ◌>>>◌, RegistryClient, Platform, Init,
  no_init, request, json_of, field_of,
}
use open_agent_hub.Client.Encoding.{encode_uri_component}
pub mod Paths

-- `/agents/${namespace}/${name}` and `…/versions/${version}`, with the segments encoded
unfoldable pub agent_path : String → String → String
agent_path namespace name =
    concat
      ("/api/v1/agents/" ∷ encode_uri_component namespace ∷ "/" ∷ encode_uri_component name ∷ [])

unfoldable pub version_path : String → String → String → String
version_path namespace name version =
    concat (agent_path namespace name ∷ "/versions/" ∷ encode_uri_component version ∷ [])

abbrev content_type : Object String
content_type = ("Content-Type", "application/json") ∷ []

abbrev with_json : Fields → Init
with_json fs = record { method = post; headers = content_type; body = json fs }

abbrev pub bare : Method → Init
bare m = record { method = m; headers = []; body = no_body }

-- `if (value) params.set(key, value)`
abbrev param : String → Option String → Object String
param key value = if truthy value then (key, get_or_default value "") ∷ [] else []

-- `if (limit) params.set(key, String(limit))`
abbrev number_param : (ℕ → String) → String → Option ℕ → Object String
number_param decimal key none = []
number_param decimal key (some n) = if eqb n 0 then [] else (key, decimal n) ∷ []

pub record SearchOptions : Type 0 where
  pub q : Option String
  pub framework : Option String
  pub tags : Option String
  pub models : Option String
  pub sort : Option String
  pub limit : Option ℕ
  pub offset : Option ℕ

pub record CatalogOptions : Type 0 where
  pub q : Option String
  pub framework : Option String
  pub models : Option String
  pub tags : Option String
  pub review_status : Option String
  pub security_status : Option String
  pub permission : Option String
  pub runtime : Option String
  pub publisher_status : Option String
  pub cursor : Option String
  pub limit : Option ℕ

unfoldable pub search_params : (ℕ → String) → SearchOptions → Object String
search_params decimal o =
    param "q" o.q
    ++ param "framework" o.framework
    ++ param "tags" o.tags
    ++ param "models" o.models
    ++ param "sort" o.sort
    ++ number_param decimal "limit" o.limit
    ++ number_param decimal "offset" o.offset

unfoldable pub catalog_params : (ℕ → String) → CatalogOptions → Object String
catalog_params decimal o =
    param "q" o.q
    ++ param "framework" o.framework
    ++ param "models" o.models
    ++ param "tags" o.tags
    ++ param "review_status" o.review_status
    ++ param "security_status" o.security_status
    ++ param "permission" o.permission
    ++ param "runtime" o.runtime
    ++ param "publisher_status" o.publisher_status
    ++ param "cursor" o.cursor
    ++ number_param decimal "limit" o.limit

-- an optional field of a body, which JSON.stringify leaves out where it is undefined
abbrev optional : String → Option String → Fields → Fields
optional k none rest = rest
optional k (some v) rest = field k (text v) rest

module _ (p : Platform) (c : RegistryClient) where
  -- a request and the JSON of its answer
  unfoldable pub call : String → Init → Outcome Json
  call path init = request p c path init >>> json_of

  -- the same, for one field of the answer
  unfoldable pub call_field : String → String → Init → Outcome (Option Json)
  call_field k path init = call path init >>> field_of k

  -- a request whose answer is not read
  unfoldable pub send : String → Init → Outcome (Unit {0})
  send path init = request p c path init >>> λ res. done tt

  unfoldable pub search : SearchOptions → Outcome (Option Json)
  search o =
      call_field "items"
        (concat ("/api/v1/agents?" ∷ p.encode_query (search_params p.decimal o) ∷ [])) no_init

  unfoldable pub catalog : CatalogOptions → Outcome Json
  catalog o =
      call (concat ("/api/v1/catalog?" ∷ p.encode_query (catalog_params p.decimal o) ∷ [])) no_init

  unfoldable pub get_agent : String → String → Outcome Json
  get_agent namespace name = call (agent_path namespace name) no_init

  unfoldable pub get_version : String → String → String → Outcome Json
  get_version namespace name version = call (version_path namespace name version) no_init

  unfoldable pub list_versions : String → String → Outcome (Option Json)
  list_versions namespace name =
      call_field "versions" (concat (agent_path namespace name ∷ "/versions" ∷ [])) no_init

  unfoldable pub get_download_url : String → String → String → Outcome Json
  get_download_url namespace name version =
      call (concat (version_path namespace name version ∷ "/download-url" ∷ [])) (bare post)

  unfoldable pub publish : String → String → String → String → SignatureFile → Outcome Json
  publish namespace name version content sig =
      let file = concat (name ∷ "-" ∷ version ∷ ".ahb" ∷ []) in
      call (version_path namespace name version)
        (record { method = put; headers = []; body = archive file content sig })

  unfoldable pub trigger_scan : String → String → String → Outcome (Unit {0})
  trigger_scan namespace name version =
      send (concat (version_path namespace name version ∷ "/scan" ∷ [])) (bare post)

  unfoldable pub get_revocations : Outcome (Option Json)
  get_revocations = call_field "items" "/api/v1/revocations" no_init

  unfoldable pub me : Outcome Json
  me = call "/api/v1/me" no_init

  unfoldable pub revoke_public_key : ℕ → Outcome (Unit {0})
  revoke_public_key key_id = send (concat ("/api/v1/keys/" ∷ p.decimal key_id ∷ [])) (bare delete)

  unfoldable pub upload_public_key : String → Option String → Option String → Outcome (Unit {0})
  upload_public_key pem label expires_at =
      call "/api/v1/keys" (
        with_json (
          field "publicKey" (text pem)
            (optional "label" label (optional "expiresAt" expires_at no_fields))))
      >>> λ value. done tt

  unfoldable pub exchange_github_token : String → Outcome Json
  exchange_github_token code =
      call "/api/v1/auth/github" (with_json (field "code" (text code) no_fields))

  unfoldable pub start_device_login : Option String → Outcome Json
  start_device_login client_name =
      call "/api/v1/auth/devices"
        (with_json (field "clientName" (text (get_or_default client_name "cli")) no_fields))

  unfoldable pub my_sessions : Outcome (Option Json)
  my_sessions = call_field "sessions" "/api/v1/sessions" no_init

  unfoldable pub revoke_session : ℕ → Outcome (Unit {0})
  revoke_session session_id =
      send (concat ("/api/v1/sessions/" ∷ p.decimal session_id ∷ [])) (bare delete)

  unfoldable pub logout_me : Outcome (Unit {0})
  logout_me = send "/api/v1/sessions/me" (bare delete)

  unfoldable pub my_agreements : Outcome Json
  my_agreements = call "/api/v1/me/agreements" no_init

  unfoldable pub accept_agreements : Bool → Bool → Bool → Outcome Json
  accept_agreements tos privacy publisher = call "/api/v1/me/agreements" (
      with_json (
        field "tos" (boolean tos)
          (field "privacy" (boolean privacy) (field "publisher" (boolean publisher) no_fields))))

  unfoldable pub logout : Outcome (Unit {0})
  logout = send "/api/v1/logout" (bare post)

  unfoldable pub publisher_overview : Outcome Json
  publisher_overview = call "/api/v1/me/overview" no_init

  unfoldable pub publisher_namespaces : Outcome Json
  publisher_namespaces = call "/api/v1/me/namespaces" no_init

  unfoldable pub publisher_packages : Outcome Json
  publisher_packages = call "/api/v1/me/packages" no_init

  unfoldable pub version_identity : String → String → String → Outcome Json
  version_identity namespace name version =
      call
        (concat (
          "/api/v1/me/packages/"
          ∷ encode_uri_component namespace
          ∷ "/"
          ∷ encode_uri_component name
          ∷ "/versions/"
          ∷ encode_uri_component version
          ∷ []))
        no_init

  unfoldable pub publisher_activity : Outcome (Option Json)
  publisher_activity = call_field "items" "/api/v1/me/activity" no_init

  unfoldable pub review_queue : Outcome (Option Json)
  review_queue = call_field "items" "/api/v1/admin/review-queue" no_init

  unfoldable pub review_version :
      String → String → String → String → String → Option String → Outcome Json
  review_version namespace name version action reason notes =
      call
        (concat (
          "/api/v1/admin/agents/"
          ∷ encode_uri_component namespace
          ∷ "/"
          ∷ encode_uri_component name
          ∷ "/versions/"
          ∷ encode_uri_component version
          ∷ "/review"
          ∷ []))
        (with_json (
          field "action" (text action)
            (field "reason" (text reason) (optional "notes" notes no_fields))))
