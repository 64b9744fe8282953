-- ===== src/Client.antt =====
-- sdk/src/registry.ts: the requests that `RegistryClient` makes and what it does with the answers.
-- `fetch`, the decimal form of a number and URLSearchParams are arguments; the time limit of a
-- request shows as a failed `fetch`.
use open_agent_hub.Prelude.{
  ℕ, String, Option, none, some, Bool, true, false, ◌&&◌, not, if◌then◌else◌, List, [], ◌∷◌, leb,
  ltb, eqb, truthy, concat, join, get_or_default, Object, insert, spread,
}
use open_agent_hub.Json.{
  Json, Fields, null, text, array, object, Items, no_items, item, member, as_text,
}
use open_agent_hub.Package.Signature.{SignatureFile}
pub mod Encoding
pub mod Endpoints
pub mod Download

pub data Method : Type 0 where
  get post put delete : Method

pub data Body : Type 0 where
  no_body : Body
  json : Fields → Body
  archive : String → String → SignatureFile → Body

pub record Request : Type 0 where
  pub method : Method
  pub url : String
  pub headers : Object String
  pub body : Body

-- `body` is what `res.json()` gives, absent where that throws.
pub record Response : Type 0 where
  pub status : ℕ
  pub status_text : String
  pub body : Option Json

pub data Fetched : Type 0 where
  unreachable : String → Fetched
  answered : Response → Fetched

-- An `Error`, a `RegistryError` with its status, or a `DeviceAuthPendingError`, whose status is 400.
pub data Failure : Type 0 where
  plain : String → Failure
  registry_error : String → ℕ → Failure
  device_auth_pending : String → Failure

pub data Outcome {ℓ} (X : Type ℓ) : Type ℓ where
  failed : Failure → Outcome X
  done : X → Outcome X

infixl 5 ◌>>>◌
abbrev pub ◌>>>◌ {ℓ₁ ℓ₂} : {X : Type ℓ₁} {Y : Type ℓ₂} → Outcome X → (X → Outcome Y) → Outcome Y
failed e >>> next = failed e
done x >>> next = next x

pub record RegistryClient : Type 0 where
  pub base_url : String
  pub token : Option String

pub record Platform : Type 0 where
  pub fetch : Request → Fetched
  pub decimal : ℕ → String
  pub encode_query : Object String → String

-- `RequestInit`, with its headers
pub record Init : Type 0 where
  pub method : Method
  pub headers : Object String
  pub body : Body

abbrev pub no_init : Init
no_init = record { method = get; headers = []; body = no_body }

-- the headers of a request: those of the client, then those of the call
unfoldable pub request_headers : RegistryClient → Init → Object String
request_headers c init =
    let token = concat ("Bearer " ∷ get_or_default c.token "" ∷ []) in
    let accept = ("Accept", "application/json") ∷ [] in
    spread (if truthy c.token then insert "Authorization" token accept else accept) init.headers

-- the texts of `body.detail`, which the code declares to be a text or an array of texts
unfoldable pub item_texts : Items → List String
item_texts no_items = []
item_texts (item (text s) rest) = s ∷ item_texts rest
item_texts (item other rest) = item_texts rest

abbrev detail_of_value : String → Option Json → String
detail_of_value other (some (array items)) = join "; " (item_texts items)
detail_of_value other (some (text s)) = s
detail_of_value other value = other

-- `detail`: what the body says, or the text of the status
unfoldable pub error_detail : Response → String
error_detail res = elim res.body [
  | some value ↦ elim value [
    | object fs ↦ detail_of_value res.status_text (member "detail" fs)
    | _ ↦ res.status_text
  ]
  | none ↦ res.status_text
]

-- `res.ok`
abbrev pub is_ok : ℕ → Bool
is_ok status = leb 200 status && leb status 299

unfoldable pub check_response : Platform → String → Fetched → Outcome Response
check_response p path (unreachable e) = failed (plain e)
check_response p path (answered res) =
    if is_ok res.status
    then done res
    else failed (
        registry_error (concat (p.decimal res.status ∷ " " ∷ path ∷ ": " ∷ error_detail res ∷ []))
          res.status)

unfoldable pub request : Platform → RegistryClient → String → Init → Outcome Response
request p c path init = check_response p path (
    p.fetch (record {
      method = init.method;
      url = concat (c.base_url ∷ path ∷ []);
      headers = request_headers c init;
      body = init.body;
    }))

-- `await res.json()`
unfoldable pub json_of : Response → Outcome Json
json_of res = elim res.body [
  | none ↦ failed (plain "Unexpected end of JSON input")
  | some value ↦ done value
]

-- `data.k`, which throws on null
unfoldable pub field_of : String → Json → Outcome (Option Json)
field_of k null = failed (plain "Cannot read properties of null")
field_of k (object fs) = done (member k fs)
field_of k other = done none
