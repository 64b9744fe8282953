-- ===== src/Runtime.antt =====
-- runtime/src/runtime.ts: `AgentRuntime.runAgent` up to the start of the agent. The result names the
-- sandbox, what it is told, and the command; the sandboxes themselves are in `Sandbox`.
use open_agent_hub.Prelude.{
  String, Option, none, some, Bool, true, false, ◌&&◌, not, if◌then◌else◌, List, [], ◌∷◌, ℕ, ltb,
  eqb, length, map, keep, includes, first, Object, insert, join, concat, truthy, is_some,
  get_or_default, spread, Result, ok, thrown, ◌>>=◌, ◌>>◌, throw_if,
}
use open_agent_hub.Manifest.{Manifest, ModelProvider, Permission, Dependencies}
use open_agent_hub.Models.{ModelConfig, pick_model, build_agent_env, provider_name}
use open_agent_hub.Permissions.{effective_permissions}
use open_agent_hub.Sandbox.Policy.{
  TrustLevel, trusted, local, untrusted, unknown, SandboxMode, container, process, SandboxOverride,
  SandboxPolicyInput, SandboxDecision, effective_sandbox,
}
use open_agent_hub.Sandbox.Spec.{SandboxSpec, RunOptions}
pub mod Gates
pub mod Secrets

pub data InterfaceName : Type 0 where
  cli mcp http : InterfaceName

pub record RunAgentOptions : Type 0 where
  pub agent_dir : String
  pub manifest : Manifest
  pub agent_key : String
  pub interface_name : Option InterfaceName
  pub input : Option String
  pub granted : List Permission
  pub trust_level : TrustLevel
  pub model : Option String
  pub extra_secrets : Option (Object String)
  pub timeout_ms : Option ℕ
  pub interactive : Option Bool
  pub stream_output : Option Bool
  pub review_status : Option String
  pub status_fresh : Option Bool
  pub sandbox_override : Option SandboxOverride
  pub archive_digest : Option String
  pub run_id : Option String
  pub usage_file_path : Option String

-- What the runtime reads from its surroundings: whether docker answers, the hint that it prints
-- otherwise, and two variables.
pub record Surroundings : Type 0 where
  pub docker_available : Bool
  pub docker_install_hint : String
  pub user : String
  pub hostname : String

-- An agent about to start, or a remote endpoint that is only named.
pub data Launch : Type 0 where
  remote : Option ModelProvider → String → Launch
  start : SandboxMode → SandboxSpec → RunOptions → ModelConfig → Launch

abbrev interface_text : InterfaceName → String
interface_text cli = "cli"
interface_text mcp = "mcp"
interface_text http = "http"

abbrev present : Option String → String → Result String
present none message = thrown message
present (some s) message = ok s

-- `commandFor`
unfoldable pub command_for : Manifest → InterfaceName → Result String
command_for m cli = present m.interfaces.cli_command "manifest has no cli interface"
command_for m mcp = present m.interfaces.mcp_entrypoint "manifest has no mcp interface"
command_for m http = thrown "http interface is handled by the CLI, not the local runtime"

-- `TrustLevel` as the text that the agent reads
unfoldable pub trust_text : TrustLevel → String
trust_text trusted = "trusted"
trust_text untrusted = "untrusted"
trust_text unknown = "unknown"
trust_text local = "local"

-- the environment of the agent: the model, then the stored secrets, then what the runtime fixes
unfoldable pub agent_env :
    RunAgentOptions → List Permission → ModelConfig → Object String → Object String
agent_env opts effective model secrets =
    let named = build_agent_env model opts.manifest.name opts.manifest.version in
    let env = insert "AGENT_GRANTED_PERMISSIONS" (join "," effective) (
      insert "AGENT_HOME" opts.agent_dir
        (insert "AGENT_TRUST" (trust_text opts.trust_level) (spread named secrets))) in
    if truthy opts.usage_file_path
    then insert "AGENT_USAGE_FILE" (get_or_default opts.usage_file_path "") env
    else env

-- `Object.fromEntries(granted.map((p) => [p, true]))`
abbrev as_granted : List Permission → Object Bool
as_granted granted = spread [] (map (λ p. (p, true)) granted)

abbrev has_system : Option Dependencies → Bool
has_system none = false
has_system (some d) = elim d.system [ none ↦ false | some xs ↦ ltb 0 (length xs) ]

abbrev is_container : SandboxMode → Bool
is_container container = true
is_container process = false

unfoldable pub policy_input : RunAgentOptions → SandboxPolicyInput
policy_input opts = record {
  trust = opts.trust_level;
  manifest = opts.manifest;
  review_status = opts.review_status;
  status_fresh = opts.status_fresh;
  override = opts.sandbox_override;
  archive_digest = opts.archive_digest;
}

-- `if (policy.blocked) throw new Error(policy.blocked)`
abbrev check_blocked : Option String → Result (Unit {0})
check_blocked blocked = throw_if (truthy blocked) (get_or_default blocked "")

abbrev may_run_plain : TrustLevel → Bool
may_run_plain trusted = true
may_run_plain local = true
may_run_plain _ = false

-- The grants that are in effect; a grant that the manifest does not name is refused.
unfoldable pub check_grants : RunAgentOptions → Result (List Permission)
check_grants opts =
    let effective = effective_permissions opts.manifest.permissions (as_granted opts.granted) in
    let dropped = keep (λ p. not (includes p effective)) opts.granted in
    do
      throw_if (not (eqb (length effective) (length opts.granted)))
          (concat ("refusing grants absent from the manifest: " ∷ join ", " dropped ∷ []))
      ok effective

-- The sandbox that the policy chooses, if it may be used here.
unfoldable pub check_policy : Surroundings → RunAgentOptions → Result SandboxMode
unfolding policy_input
check_policy at opts =
    let policy = effective_sandbox (policy_input opts) in
    do
      check_blocked policy.blocked
      throw_if (is_container policy.mode && not at.docker_available) at.docker_install_hint
      ok policy.mode

-- the part of `runAgent` that builds the sandbox and finds the command
launch :
    Surroundings
    → RunAgentOptions
    → InterfaceName
    → List Permission
    → SandboxMode
    → ModelConfig
    → Object String
    → Result Launch
launch at opts iface effective mode model secrets = do
  throw_if (not (is_container mode) && not (may_run_plain opts.trust_level))
      "internal error: process sandbox chosen for non-trusted agent"
  command ← command_for opts.manifest iface
  ok (
      start mode
        (record {
          agent_dir = opts.agent_dir;
          manifest = opts.manifest;
          granted = effective;
          env = agent_env opts effective model secrets;
          network = includes "network" effective;
          user = at.user;
          host = at.hostname;
          run_id = opts.run_id;
          interface_name = if is_container mode then some (interface_text iface) else none;
          package_digest = opts.archive_digest;
        })
        (record {
          command = command;
          input = opts.input;
          timeout_ms = opts.timeout_ms;
          stream_output = opts.stream_output;
        })
        model)

-- the branch of `runAgent` for an interface that runs here; `vault` is what `vault.get` gave
pub run_local :
    Surroundings → RunAgentOptions → InterfaceName → Result (Object String) → Result Launch
run_local at opts iface vault = do
  throw_if (has_system opts.manifest.dependencies)
      "dependencies.system is not supported by OpenAgentHub yet"
  effective ← check_grants opts
  mode ← check_policy at opts
  stored ← vault
  let secrets = spread stored (get_or_default opts.extra_secrets [])
  model ← pick_model opts.manifest opts.model stored opts.agent_key
  launch at opts iface effective mode model secrets

-- the branch for a remote endpoint
run_remote : RunAgentOptions → Result Launch
run_remote opts =
    let endpoint = get_or_default opts.manifest.interfaces.http_endpoint "" in
    if truthy opts.manifest.interfaces.http_endpoint
    then ok (remote (first opts.manifest.models_supported) endpoint)
    else thrown "manifest has no http interface"

pub run_on : Surroundings → RunAgentOptions → Result (Object String) → InterfaceName → Result Launch
run_on at opts vault http = run_remote opts
run_on at opts vault cli = run_local at opts cli vault
run_on at opts vault mcp = run_local at opts mcp vault

unfoldable pub run_agent : Surroundings → RunAgentOptions → Result (Object String) → Result Launch
unfolding run_on run_local run_remote launch
run_agent at opts vault = run_on at opts vault (get_or_default opts.interface_name cli)
