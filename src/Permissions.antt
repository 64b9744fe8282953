-- ===== src/Permissions.antt =====
-- runtime/src/permissions.ts: the saved configuration, with the agents that are installed and what
-- was granted to them. `Store` is the object in memory beside the file that `saveConfig` replaces.
use open_agent_hub.Prelude.{
  String, Option, none, some, Bool, true, false, ◌&&◌, not, if◌then◌else◌, List, [], ◌∷◌, ◌++◌,
  Object, lookup, lookup_in, insert, remove, keys, keep, includes, str_eq, get_or_default, concat,
  is_some,
}
use open_agent_hub.Manifest.{Permission}
use open_agent_hub.Sandbox.Policy.{TrustLevel, SandboxMode, SandboxOverride}
pub mod Grants
pub mod Saved
pub mod View

abbrev pub GrantedPermissions : Type 0
GrantedPermissions = Object Bool

pub record InstalledAgent : Type 0 where
  pub name : String
  pub namespace : String
  pub version : String
  pub author : String
  pub trust : TrustLevel
  pub installed_at : String
  pub source : String
  pub signature_key_id : Option String
  pub review_status : Option String
  pub status_checked_at : Option String
  pub archive_digest : Option String

pub record OpenAgentHubConfig : Type 0 where
  pub registry_url : Option String
  pub token : Option String
  pub installed : Option (Object InstalledAgent)
  pub permissions : Option (Object GrantedPermissions)
  pub secret_grants : Option (Object (List String))
  pub sandbox_overrides : Option (Object SandboxOverride)

abbrev pub empty_config : OpenAgentHubConfig
empty_config = record {
  registry_url = none;
  token = none;
  installed = none;
  permissions = none;
  secret_grants = none;
  sandbox_overrides = none;
}

-- What stands at the configuration's path.
pub data Disk : Type 0 where
  missing unreadable invalid_json : Disk
  json : OpenAgentHubConfig → Disk

pub data Loaded : Type 0 where
  loaded : OpenAgentHubConfig → Loaded
  config_corrupt_error : Loaded

unfoldable pub load_config : Disk → Loaded
load_config missing = loaded empty_config
load_config unreadable = config_corrupt_error
load_config invalid_json = config_corrupt_error
load_config (json c) = loaded c

pub record Store : Type 0 where
  pub config : OpenAgentHubConfig
  pub disk : Disk

unfoldable pub save_config : Store → Store
save_config s = record s { disk = json s.config }

-- `${namespace}/${name}@${version}`
unfoldable pub agent_key : String → String → String → String
agent_key namespace name version = concat (namespace ∷ "/" ∷ name ∷ "@" ∷ version ∷ [])

unfoldable pub record_install : Store → InstalledAgent → Store
unfolding save_config
record_install s agent =
    let key = agent_key agent.namespace agent.name agent.version in
    let installed = insert key agent (get_or_default s.config.installed []) in
    save_config (record s { config = record (s.config) { installed = some installed } })

-- `now` is the time of the call, as `toISOString` writes it.
unfoldable pub record_status_refresh : String → Store → String → Option String → Store
unfolding save_config
record_status_refresh now s key status = elim (lookup_in key s.config.installed) [
  | none ↦ s
  | some agent ↦
      let agent' = record agent { review_status = status; status_checked_at = some now } in
      let installed = insert key agent' (get_or_default s.config.installed []) in
      save_config (record s { config = record (s.config) { installed = some installed } })
]

unfoldable pub granted_permissions : OpenAgentHubConfig → String → GrantedPermissions
granted_permissions c key = get_or_default (lookup_in key c.permissions) []

unfoldable pub save_granted_permissions : Store → String → GrantedPermissions → Store
unfolding save_config
save_granted_permissions s key perms =
    let permissions = insert key perms (get_or_default s.config.permissions []) in
    save_config (record s { config = record (s.config) { permissions = some permissions } })

-- The argument is `manifest.permissions`.
unfoldable pub requested_permissions : Option (List Permission) → List Permission
requested_permissions manifest =
    let perms = get_or_default manifest [] in if includes "none" perms then "none" ∷ [] else perms

-- `requested.length === 1 && requested[0] === "none"`
abbrev pub is_none_only : List Permission → Bool
is_none_only [] = false
is_none_only (p ∷ []) = str_eq p "none"
is_none_only (_ ∷ _ ∷ _) = false

unfoldable pub effective_permissions :
    Option (List Permission) → GrantedPermissions → List Permission
unfolding requested_permissions
effective_permissions manifest saved =
    let requested = requested_permissions manifest in
    if is_none_only requested
    then []
    else keys (keep (λ (e : String × Bool). e.1 && includes e.0 requested) saved)

unfoldable pub unsupported_saved_grants :
    Option (List Permission) → GrantedPermissions → List String
unfolding requested_permissions
unsupported_saved_grants manifest saved =
    let requested = requested_permissions manifest in
    keep (λ k. not (includes k requested)) (keys saved)

abbrev is_true : Option Bool → Bool
is_true none = false
is_true (some b) = b

unfoldable pub network_granted : GrantedPermissions → Bool
network_granted perms = is_true (lookup "network" perms)

unfoldable pub granted_secret_names : String → OpenAgentHubConfig → List String
granted_secret_names key c = get_or_default (lookup_in key c.secret_grants) []

-- `if (!grants.includes(secret)) grants.push(secret)`
unfoldable pub add_grant : String → List String → List String
add_grant secret grants = if includes secret grants then grants else grants ++ secret ∷ []

unfoldable pub save_secret_grant : Store → String → String → Store
unfolding save_config
save_secret_grant s key secret =
    let all_grants = get_or_default s.config.secret_grants [] in
    let grants = get_or_default (lookup key all_grants) [] in
    let grants' = add_grant secret grants in
    save_config (record s {
      config = record (s.config) { secret_grants = some (insert key grants' all_grants) };
    })

unfoldable pub sandbox_override : OpenAgentHubConfig → String → Option SandboxOverride
sandbox_override c key = lookup_in key c.sandbox_overrides

unfoldable pub set_sandbox_override : String → Store → String → SandboxMode → String → Store
unfolding save_config
set_sandbox_override now s key sandbox digest =
    let entry : SandboxOverride = record { sandbox = sandbox; digest = digest; set_at = now } in
    let overrides = insert key entry (get_or_default s.config.sandbox_overrides []) in
    save_config (record s { config = record (s.config) { sandbox_overrides = some overrides } })

unfoldable pub clear_sandbox_override : Store → String → Store × Bool
unfolding save_config
clear_sandbox_override s key =
    let overrides = remove key (get_or_default s.config.sandbox_overrides []) in
    if is_some (lookup_in key s.config.sandbox_overrides)
    then (
      save_config (record s { config = record (s.config) { sandbox_overrides = some overrides } }),
      true,
    )
    else (s, false)
