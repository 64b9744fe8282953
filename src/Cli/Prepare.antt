-- ===== src/Cli/Prepare.antt =====
-- `prepareRunContext` and `executeAgentRun` of cli/src/lib/run-agent.ts. The configuration is read
-- once and kept in memory, while the revocation check reads and saves the file on its own. Notes for
-- the user are left out. What the registry answers, the directory of the agent and its manifest, and
-- the stored secrets are arguments.
use open_agent_hub.Prelude.{
  ℕ, String, Option, none, some, Bool, true, false, ◌&&◌, not, if◌then◌else◌, List, [], ◌∷◌, keep,
  map, keys, includes, is_some, str_eq, lookup, truthy, concat, get_or_default, Object, Result, ok,
  thrown,
}
use open_agent_hub.Manifest.{Manifest, Permission}
use open_agent_hub.Permissions.{
  InstalledAgent, OpenAgentHubConfig, Store, Disk, Loaded, loaded, config_corrupt_error,
  load_config, granted_permissions, granted_secret_names, save_secret_grant, sandbox_override,
}
use open_agent_hub.Sandbox.Policy.{SandboxOverride}
use open_agent_hub.Revocation.{RevocationItem, RevocationCheck, check_revocation_before_run}
use open_agent_hub.Runtime.{Surroundings, RunAgentOptions, InterfaceName, Launch, run_agent}
use open_agent_hub.Cli.Version.{Order}
use open_agent_hub.Cli.Resolve.{InstalledMatch, resolve_installed_or_throw}
pub mod Secrets
pub mod Gated
pub mod Answers
pub mod Environment

pub record ParsedSpec : Type 0 where
  pub namespace : String
  pub name : String
  pub version : Option String

pub record RunContext : Type 0 where
  pub agent_key : String
  pub namespace : String
  pub name : String
  pub version : String
  pub agent_dir : String
  pub manifest : Manifest
  pub installed : InstalledAgent
  pub config : OpenAgentHubConfig
  pub granted : List Permission
  pub exposed_secrets : List String
  pub sandbox_override : Option SandboxOverride
  pub review_status : Option String
  pub status_fresh : Bool

-- `confirm_secrets` answers a list of questions.
pub record PrepareOptions : Type 0 where
  pub allow_secrets : Bool
  pub confirm_secrets : Option (List String → List Bool)

-- What a preparation meets: the time, the registry's answer, the directory that the agent is
-- installed in, whether it is there and what its manifest is, and the secrets of an agent's key.
pub record Setting : Type 0 where
  pub locale_compare : String → String → Order
  pub decimal : ℕ → String
  pub elapsed : String → ℕ
  pub now : String
  pub registry_default : String
  pub answer : Option (List RevocationItem)
  pub agent_dir : String → String → String → String
  pub dir_exists : String → Bool
  pub load_manifest : String → Result Manifest
  pub vault : String → Result (Object String)

-- the requested secrets that are stored and not yet granted
unfoldable pub to_ask : Manifest → Object String → OpenAgentHubConfig → String → List String
to_ask manifest stored config key =
    let granted = granted_secret_names key config in
    keep (λ s. is_some (lookup s stored) && not (includes s granted))
      (get_or_default manifest.secrets [])

-- the elements whose answer, at the same place, is true
unfoldable pub answered_yes : List String → List Bool → List String
answered_yes [] answers = []
answered_yes (s ∷ ss) [] = []
answered_yes (s ∷ ss) (a ∷ answers) =
    let rest = answered_yes ss answers in if a then s ∷ rest else rest

abbrev pub question : String → String → String
question agent s = concat ("expose stored secret '" ∷ s ∷ "' to " ∷ agent ∷ "?" ∷ [])

abbrev confirmed : String → List String → Option (List String → List Bool) → List String
confirmed agent names none = []
confirmed agent names (some confirm) = answered_yes names (confirm (map (question agent) names))

-- the secrets that this run grants
unfoldable pub newly_granted : PrepareOptions → String → List String → List String
newly_granted opts agent names =
    if opts.allow_secrets then names else confirmed agent names opts.confirm_secrets

-- `saveSecretGrant` for each
unfoldable pub save_secret_grants : Store → String → List String → Store
save_secret_grants s key [] = s
save_secret_grants s key (secret ∷ rest) =
    save_secret_grants (save_secret_grant s key secret) key rest

unfoldable pub granted_list : OpenAgentHubConfig → String → List Permission
granted_list config key =
    keep (λ k. not (str_eq k "none"))
      (keys (keep (λ (e : String × Bool). e.1) (granted_permissions config key)))

unfoldable pub context_of :
    ParsedSpec → InstalledMatch → String → Manifest → OpenAgentHubConfig → Bool → RunContext
context_of spec match_ dir manifest config fresh = record {
  agent_key = match_.key;
  namespace = spec.namespace;
  name = spec.name;
  version = match_.record_.version;
  agent_dir = dir;
  manifest = manifest;
  installed = match_.record_;
  config = config;
  granted = granted_list config match_.key;
  exposed_secrets =
      keep (λ s. includes s (granted_secret_names match_.key config))
        (get_or_default manifest.secrets []);
  sandbox_override = sandbox_override config match_.key;
  review_status = match_.record_.review_status;
  status_fresh = fresh;
}

-- the secrets and the context, with the configuration that was read at the start
unfoldable pub expose :
    PrepareOptions
    → ParsedSpec
    → InstalledMatch
    → String
    → Manifest
    → Store
    → Object String
    → Bool
    → Disk × Result RunContext
expose opts spec match_ dir manifest s stored fresh =
    let names = to_ask manifest stored s.config match_.key in
    let s' = save_secret_grants s match_.key (newly_granted opts manifest.name names) in
    (s'.disk, ok (context_of spec match_ dir manifest s'.config fresh))

unfoldable pub with_secrets :
    PrepareOptions
    → ParsedSpec
    → InstalledMatch
    → String
    → Manifest
    → Store
    → Bool
    → Result (Object String)
    → Disk × Result RunContext
with_secrets opts spec match_ dir manifest s fresh (thrown e) = (s.disk, thrown e)
with_secrets opts spec match_ dir manifest s fresh (ok stored) =
    expose opts spec match_ dir manifest s stored fresh

-- what follows the revocation check
unfoldable pub after_check :
    Setting
    → PrepareOptions
    → ParsedSpec
    → InstalledMatch
    → String
    → Manifest
    → OpenAgentHubConfig
    → Disk
    → Result (Disk × RevocationCheck)
    → Disk × Result RunContext
after_check at opts spec match_ dir manifest config disk (thrown e) = (disk, thrown e)
after_check at opts spec match_ dir manifest config disk (ok (disk', check)) =
    if truthy check.blocked
    then (disk', thrown (concat ("blocked: " ∷ get_or_default check.blocked "" ∷ [])))
    else with_secrets opts spec match_ dir manifest (record { config = config; disk = disk' })
        check.status_fresh (at.vault match_.key)

abbrev pub registry_of : Setting → OpenAgentHubConfig → String
registry_of at config = get_or_default config.registry_url at.registry_default

unfoldable pub with_manifest :
    Setting
    → PrepareOptions
    → ParsedSpec
    → InstalledMatch
    → String
    → OpenAgentHubConfig
    → Disk
    → Result Manifest
    → Disk × Result RunContext
with_manifest at opts spec match_ dir config disk (thrown e) = (disk, thrown e)
with_manifest at opts spec match_ dir config disk (ok manifest) =
    after_check at opts spec match_ dir manifest config disk (
      check_revocation_before_run at.elapsed at.now disk match_.key match_.record_
        (registry_of at config) at.answer)

unfoldable pub with_match :
    Setting
    → PrepareOptions
    → ParsedSpec
    → OpenAgentHubConfig
    → Disk
    → Result InstalledMatch
    → Disk × Result RunContext
with_match at opts spec config disk (thrown e) = (disk, thrown e)
with_match at opts spec config disk (ok match_) =
    let dir = at.agent_dir spec.namespace spec.name match_.record_.version in
    if at.dir_exists dir
    then with_manifest at opts spec match_ dir config disk (at.load_manifest dir)
    else (
      disk,
      thrown (
          concat (
            "agent directory missing for " ∷ match_.key ∷ " (reinstall with: openagenthub install "
            ∷ spec.namespace ∷ "/" ∷ spec.name ∷ "@" ∷ match_.record_.version ∷ ")" ∷ [])),
    )

unfoldable pub with_config :
    Setting → PrepareOptions → ParsedSpec → Disk → Loaded → Disk × Result RunContext
with_config at opts spec disk config_corrupt_error = (disk, thrown "the configuration is corrupt")
with_config at opts spec disk (loaded config) = with_match at opts spec config disk (
    resolve_installed_or_throw at.locale_compare at.decimal config spec.namespace spec.name
      spec.version)

unfoldable pub prepare_run_context :
    Setting → PrepareOptions → ParsedSpec → Disk → Disk × Result RunContext
prepare_run_context at opts spec disk = with_config at opts spec disk (load_config disk)

pub record ExecuteOptions : Type 0 where
  pub interface_name : InterfaceName
  pub input : Option String
  pub timeout_ms : Option ℕ
  pub interactive : Option Bool
  pub model : Option String
  pub run_id : Option String
  pub stream_output : Option Bool
  pub usage_file_path : Option String

-- `opts.input === "" ? undefined : opts.input`
abbrev non_empty : Option String → Option String
non_empty none = none
non_empty (some s) = if str_eq s "" then none else some s

unfoldable pub run_options : RunContext → ExecuteOptions → RunAgentOptions
run_options ctx opts = record {
  agent_dir = ctx.agent_dir;
  manifest = ctx.manifest;
  agent_key = ctx.agent_key;
  interface_name = some opts.interface_name;
  input = non_empty opts.input;
  granted = ctx.granted;
  trust_level = ctx.installed.trust;
  model = opts.model;
  extra_secrets = none;
  timeout_ms = opts.timeout_ms;
  interactive = opts.interactive;
  stream_output = opts.stream_output;
  review_status = ctx.review_status;
  status_fresh = some ctx.status_fresh;
  sandbox_override = ctx.sandbox_override;
  archive_digest = ctx.installed.archive_digest;
  run_id = opts.run_id;
  usage_file_path = opts.usage_file_path;
}

-- `vault` is what the runtime's own look into the vault gives.
unfoldable pub execute_agent_run :
    Surroundings → RunContext → ExecuteOptions → Result (Object String) → Result Launch
unfolding run_options
execute_agent_run around ctx opts vault = run_agent around (run_options ctx opts) vault
