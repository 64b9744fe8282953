-- ===== src/Examples/Data.antt =====
-- Inputs that the examples share: a manifest, options of a run, records of runs.
use open_agent_hub.Prelude.{
  String, Option, none, some, true, false, [], ◌∷◌, ℕ, pos, Object, str_eq,
}
use open_agent_hub.Manifest
use open_agent_hub.Manifest.{Manifest, ModelProvider, RuntimeSpec}
use open_agent_hub.Sandbox.Policy.{TrustLevel, SandboxMode, SandboxOverride, SandboxPolicyInput}
use open_agent_hub.Sandbox.Spec.{SandboxSpec, RunOptions}
use open_agent_hub.Models.{ModelConfig}
use open_agent_hub.Runtime.{RunAgentOptions, Surroundings, agent_env}
use open_agent_hub.Package.Signature.{Crypto}
use open_agent_hub.Usage.Tables
use open_agent_hub.Usage.Tables.{UsageStore, RunFacts, UsageSample, ExternalUsageRow, empty_store}
use open_agent_hub.Supervisor.Record
use open_agent_hub.Supervisor.Record.{RunRecord, RunState, RunFile, record_file, World}

abbrev pub weather : Manifest
weather = record {
  name = "acme/weather";
  version = "1.2.0";
  author = "acme";
  license = "MIT";
  runtime = record {
    language = Manifest.python;
    python = none;
    node = none;
    sandbox = some Manifest.isolated_process;
  };
  models_supported = ModelProvider.openai ∷ ModelProvider.ollama ∷ [];
  interfaces = record {
    cli_command = some "python main.py";
    mcp_entrypoint = none;
    http_endpoint = none;
  };
  permissions = some ("network" ∷ "filesystem" ∷ []);
  dependencies = none;
  secrets = some ("OPENAI_API_KEY" ∷ []);
}

abbrev pub weather_options : RunAgentOptions
weather_options = record {
  agent_dir = "/agents/weather";
  manifest = weather;
  agent_key = "acme/weather@1.2.0";
  interface_name = none;
  input = none;
  granted = "network" ∷ [];
  trust_level = TrustLevel.trusted;
  model = none;
  extra_secrets = none;
  timeout_ms = none;
  interactive = none;
  stream_output = none;
  review_status = some "verified";
  status_fresh = some true;
  sandbox_override = none;
  archive_digest = none;
  run_id = none;
  usage_file_path = none;
}

abbrev pub laptop : Surroundings
laptop = record {
  docker_available = false;
  docker_install_hint = "install docker";
  user = "ada";
  hostname = "laptop";
}

abbrev pub vault : Object String
vault = ("OPENAI_API_KEY", "sk-1") ∷ ("GITHUB_TOKEN", "gh-1") ∷ []

abbrev pub for_this_archive : SandboxOverride
for_this_archive = record { sandbox = SandboxMode.process; digest = "d1"; set_at = "2026-01-01" }

abbrev pub policy_case : SandboxPolicyInput
policy_case = record {
  trust = TrustLevel.trusted;
  manifest = weather;
  review_status = some "pending";
  status_fresh = some true;
  override = some for_this_archive;
  archive_digest = some "d1";
}

abbrev pub revoked_case : SandboxPolicyInput
revoked_case = record policy_case { review_status = some "revoked" }

abbrev pub offline_spec : SandboxSpec
offline_spec = record {
  agent_dir = "/agents/weather";
  manifest = weather;
  granted = [];
  env = ("AGENT_NAME", "weather") ∷ ("OPENAI_API_KEY", "sk-1") ∷ [];
  network = false;
  user = "ada";
  host = "laptop";
  run_id = none;
  interface_name = none;
  package_digest = none;
}

-- a row of the usage database
abbrev pub run_row : String → String → String → RunFacts
run_row id state created = record {
  run_id = id;
  agent_key = "acme/weather@1.2.0";
  version = "1.2.0";
  interface_name = "cli";
  sandbox = "process";
  state = state;
  health = "unknown";
  exit_code = none;
  exit_reason = none;
  model_provider = none;
  model_name = none;
  container_id = none;
  created_at = created;
  started_at = created;
  ended_at = none;
}

abbrev pub three_runs : UsageStore
three_runs = record empty_store {
  runs =
      run_row "r-1" "exited" "2026-01-01"
      ∷ run_row "r-2" "running" "2026-01-02"
      ∷ run_row "r-3" "failed" "2026-01-03"
      ∷ [];
}

abbrev pub observation : ExternalUsageRow
observation = record {
  provider = Tables.codex;
  source = "session.jsonl";
  session_id = some "s-1";
  model = some "gpt-5";
  tokens_in = pos 12;
  tokens_out = pos 7;
  cache_read = none;
  cache_write = none;
  cost_exact = none;
  cost_estimated = none;
  occurred_at = "2026-01-01";
  event_key = "4|4";
}

-- a record of the supervisor
abbrev pub managed : RunState → Option ℕ → RunRecord
managed state pid = record {
  run_id = "r-9";
  agent_key = "acme/weather@1.2.0";
  version = "1.2.0";
  interface_name = Record.cli;
  sandbox = Record.process;
  state = state;
  pid = pid;
  container_id = none;
  port = none;
  health = Record.unknown;
  timeout_ms = none;
  restart_policy = Record.always;
  created_at = "2026-01-01";
  started_at = "2026-01-01";
  ended_at = none;
  exit_code = none;
  exit_reason = none;
  digest = none;
  model_provider = none;
  model_name = none;
}

abbrev pub world_of : RunRecord → World
world_of r = record {
  files = (r.run_id, record_file r) ∷ [];
  usage = empty_store;
  usage_fails = false;
}

abbrev pub openai_model : ModelConfig
openai_model = record {
  provider = ModelProvider.openai;
  model = "gpt-4o-mini";
  base_url = some "https://api.openai.com/v1";
  api_key = some "sk-1";
}

-- what starts for the options above
abbrev pub started_spec : SandboxSpec
started_spec = record {
  agent_dir = "/agents/weather";
  manifest = weather;
  granted = "network" ∷ [];
  env = agent_env weather_options ("network" ∷ []) openai_model vault;
  network = true;
  user = "ada";
  host = "laptop";
  run_id = none;
  interface_name = none;
  package_digest = none;
}

abbrev pub started_options : RunOptions
started_options = record {
  command = "python main.py";
  input = none;
  timeout_ms = none;
  stream_output = none;
}

-- A toy scheme: the checksum of a text is the text, and a signature is the payload behind the key.
abbrev pub toy : Crypto
toy = record {
  sha256_hex = λ archive. archive;
  fingerprint = λ key. key;
  public_of = λ key. key;
  sign_payload = λ payload key. payload;
  verify_payload = λ payload signature key. str_eq payload signature;
}
