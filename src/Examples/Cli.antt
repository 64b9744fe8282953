-- ===== src/Examples/Cli.antt =====
-- The run command at concrete inputs: requests, the choice of a version, a run with its secrets.
use open_agent_hub.Prelude.{
  lookup, ℕ, String, Option, none, some, Bool, true, false, ◌≡◌, ◌≢◌, refl, sym, subst, ap, arith,
  inl, inr, List, [], ◌∷◌, Object, In, Result, ok, truthy, eq_iff,
}
use open_agent_hub.Manifest.{Permission}
use open_agent_hub.Permissions.{
  InstalledAgent, OpenAgentHubConfig, empty_config, Disk, json, loaded, load_config, agent_key,
  granted_permissions,
}
use open_agent_hub.Permissions.Grants.{named}
use open_agent_hub.Sandbox.Policy.{TrustLevel, SandboxMode}
use open_agent_hub.Sandbox.Policy.Laws.{IsBlocked}
use open_agent_hub.Sandbox.Spec.{SandboxSpec}
use open_agent_hub.Runtime.{InterfaceName, start, agent_env}
use open_agent_hub.Runtime.Gates.{IsGated}
use open_agent_hub.Cli.Version
use open_agent_hub.Cli.Version.{Order}
use open_agent_hub.Cli.Version.Highest.{IsRelease}
use open_agent_hub.Cli.Version.{is_greater}
use open_agent_hub.Cli.Resolve.{InstalledMatch, compare_matches, resolve_installed_or_throw}
use open_agent_hub.Cli.Resolve.Matches.{IsVersionOf, resolve_installed_or_throw_highest}
use open_agent_hub.Cli.Prepare.{
  ParsedSpec, RunContext, PrepareOptions, Setting, prepare_run_context, ExecuteOptions, run_options,
  execute_agent_run,
}
use open_agent_hub.Cli.Prepare.Gated.{execute_agent_run-IsGated}
use open_agent_hub.Cli.Prepare.Secrets.{
  IsExposedRightly, prepare_run_context-exposed, prepare_run_context_forgets,
}
use open_agent_hub.Cli.Spec.{parse_spec}
use open_agent_hub.Cli.Spec.Names.{parse_spec-agent_key}
use open_agent_hub.Examples.Data.{
  weather, laptop, vault, openai_model, started_spec, started_options,
}

parse_spec-agent_key_example :
    parse_spec (agent_key "acme" "weather_bot" "1.2.0")
    ≡ ok (record { namespace = "acme"; name = "weather_bot"; version = some "1.2.0" })
unfolding open_agent_hub.Cli.Spec.is_word open_agent_hub.Cli.Spec.in_namespace
    open_agent_hub.Cli.Spec.is_letter_or_digit open_agent_hub.Cli.Spec.in_name
    open_agent_hub.Cli.Spec.is_line_end
parse_spec-agent_key_example =
    parse_spec-agent_key "acme" "weather_bot" "1.2.0" refl refl refl
      (λ e. ground (arith, eq_iff "1.2.0" ""))

-- texts are not compared, as all versions are numbers
abbrev no_order : String → String → Order
no_order a b = Version.same

abbrev no_digits : ℕ → String
no_digits n = ""

abbrev installed_weather : String → InstalledAgent
installed_weather version = record {
  name = "weather";
  namespace = "acme";
  version = version;
  author = "acme";
  trust = TrustLevel.trusted;
  installed_at = "2026-01-01";
  source = "dir:/weather";
  signature_key_id = none;
  review_status = some "verified";
  status_checked_at = none;
  archive_digest = none;
}

abbrev two_versions : OpenAgentHubConfig
two_versions = record empty_config {
  installed = some (
      ("acme/weather@1.10.0", installed_weather "1.10.0")
      ∷ ("acme/weather@1.2.0", installed_weather "1.2.0")
      ∷ []);
}

abbrev older : InstalledMatch
older = record { key = "acme/weather@1.2.0"; record_ = installed_weather "1.2.0" }

older_installed : IsVersionOf no_order no_digits two_versions "acme" "weather" older
unfolding open_agent_hub.Prelude.concat
older_installed = (inr (inl refl), refl)

releases :
    (w : InstalledMatch)
    → IsVersionOf no_order no_digits two_versions "acme" "weather" w
    → IsRelease w.record_.version
unfolding Version.split_core open_agent_hub.Prelude.split_on Version.cut Version.part_of
    Version.all_digits Version.read_digits
releases w (inl e, t) =
    subst (λ (x : String × InstalledAgent). IsRelease x.1.version) e (1 ∷ 10 ∷ 0 ∷ [], refl)
releases w (inr (inl e), t) =
    subst (λ (x : String × InstalledAgent). IsRelease x.1.version) e (1 ∷ 2 ∷ 0 ∷ [], refl)
releases w (inr (inr z), t) = absurd z

resolve_installed_or_throw_highest_example :
    (top : InstalledMatch) × (resolve_installed_or_throw no_order no_digits two_versions "acme"
        "weather" none
      ≡ ok top)
    × IsVersionOf no_order no_digits two_versions "acme" "weather" top
    × ((w : InstalledMatch)
        → IsVersionOf no_order no_digits two_versions "acme" "weather" w
        → is_greater (compare_matches no_order no_digits w top) ≡ false)
resolve_installed_or_throw_highest_example =
    resolve_installed_or_throw_highest no_order no_digits two_versions "acme" "weather" none older
      refl older_installed releases

abbrev key : String
key = "acme/weather@1.2.0"

abbrev saved : OpenAgentHubConfig
saved = record empty_config {
  installed = some ((key, installed_weather "1.2.0") ∷ []);
  permissions = some ((key, ("network", true) ∷ ("filesystem", false) ∷ []) ∷ []);
}

abbrev granted_later : OpenAgentHubConfig
granted_later = record saved { secret_grants = some ((key, "OPENAI_API_KEY" ∷ []) ∷ []) }

abbrev offline : Setting
offline = record {
  locale_compare = no_order;
  decimal = no_digits;
  elapsed = λ t. 0;
  now = "2026-02-01";
  registry_default = "";
  answer = none;
  agent_dir = λ namespace name version. "/agents/weather";
  dir_exists = λ path. true;
  load_manifest = λ path. ok weather;
  vault = λ k. ok vault;
}

abbrev allowing : PrepareOptions
allowing = record { allow_secrets = true; confirm_secrets = none }

abbrev request : ParsedSpec
request = record { namespace = "acme"; name = "weather"; version = none }

abbrev context : RunContext
context = record {
  agent_key = key;
  namespace = "acme";
  name = "weather";
  version = "1.2.0";
  agent_dir = "/agents/weather";
  manifest = weather;
  installed = installed_weather "1.2.0";
  config = granted_later;
  granted = "network" ∷ [];
  exposed_secrets = "OPENAI_API_KEY" ∷ [];
  sandbox_override = none;
  review_status = some "verified";
  status_fresh = false;
}

prepared :
    prepare_run_context offline allowing request (json saved) ≡ (json granted_later, ok context)
unfolding prepare_run_context open_agent_hub.Cli.Prepare.with_config load_config
    open_agent_hub.Cli.Prepare.with_match resolve_installed_or_throw
    open_agent_hub.Cli.Resolve.choose open_agent_hub.Cli.Resolve.installed_matches Version.sort
    open_agent_hub.Prelude.concat Version.insert_sorted open_agent_hub.Cli.Prepare.with_manifest
    open_agent_hub.Cli.Prepare.after_check open_agent_hub.Revocation.check_revocation_before_run
    open_agent_hub.Cli.Prepare.with_secrets open_agent_hub.Cli.Prepare.expose
    open_agent_hub.Cli.Prepare.save_secret_grants open_agent_hub.Cli.Prepare.context_of
    open_agent_hub.Cli.Prepare.newly_granted open_agent_hub.Cli.Prepare.granted_list
    open_agent_hub.Permissions.granted_secret_names open_agent_hub.Permissions.sandbox_override
    open_agent_hub.Cli.Prepare.to_ask open_agent_hub.Permissions.add_grant granted_permissions
    open_agent_hub.Permissions.save_config open_agent_hub.Permissions.save_secret_grant
    open_agent_hub.Prelude.insert open_agent_hub.Prelude.lookup
prepared = refl

abbrev execution : ExecuteOptions
execution = record {
  interface_name = InterfaceName.cli;
  input = some "";
  timeout_ms = none;
  interactive = none;
  model = none;
  run_id = none;
  stream_output = none;
  usage_file_path = none;
}

abbrev ran_spec : SandboxSpec
ran_spec = record started_spec {
  env = agent_env (run_options context execution) ("network" ∷ []) openai_model vault;
}

executed :
    execute_agent_run laptop context execution (ok vault)
    ≡ ok (start SandboxMode.process ran_spec started_options openai_model)
unfolding execute_agent_run run_options open_agent_hub.Runtime.run_agent
    open_agent_hub.Runtime.check_grants open_agent_hub.Permissions.effective_permissions
    open_agent_hub.Prelude.spread open_agent_hub.Prelude.insert open_agent_hub.Runtime.check_policy
    open_agent_hub.Sandbox.Policy.effective_sandbox open_agent_hub.Sandbox.Policy.is_blocked
    open_agent_hub.Prelude.is_text open_agent_hub.Models.pick_model open_agent_hub.Models.is_usable
    open_agent_hub.Models.key_env open_agent_hub.Models.api_key open_agent_hub.Prelude.lookup
    open_agent_hub.Runtime.command_for
executed = refl

execute_agent_run-IsGated_example :
    IsGated laptop (run_options context execution) SandboxMode.process ran_spec
    × (¬ (IsBlocked context.installed.review_status))
    × ((p : Permission)
        → In p ran_spec.granted
        → In p (named context.manifest.permissions)
          × In (p, true) (granted_permissions saved context.agent_key)
          × (p ≢ "none"))
unfolding load_config
execute_agent_run-IsGated_example =
    execute_agent_run-IsGated offline allowing request (json saved) (json granted_later) context
      saved laptop execution (ok vault) SandboxMode.process ran_spec started_options openai_model
      refl prepared executed

prepare_run_context-exposed_example : IsExposedRightly allowing saved vault "OPENAI_API_KEY" context
unfolding load_config
prepare_run_context-exposed_example =
    prepare_run_context-exposed offline allowing request (json saved) (json granted_later) context
      saved vault "OPENAI_API_KEY" refl refl prepared

prepare_run_context_forgets_example :
    (after : OpenAgentHubConfig) × (load_config (json granted_later) ≡ loaded after)
    × (after.installed ≡ saved.installed)
unfolding load_config open_agent_hub.Permissions.granted_secret_names open_agent_hub.Prelude.lookup
prepare_run_context_forgets_example =
    prepare_run_context_forgets offline allowing request (json saved) (json granted_later) context
      saved "OPENAI_API_KEY" refl prepared (inl refl) (λ z. z)
