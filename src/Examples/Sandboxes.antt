-- ===== src/Examples/Sandboxes.antt =====
-- The policy, the gates, the sandboxes and the environment of an agent at concrete inputs.
use open_agent_hub.Prelude.{
  String, Option, none, some, Bool, true, false, ◌≡◌, ◌≢◌, ◌↔◌, ◌⊎◌, inl, inr, refl, arith, List,
  [], ◌∷◌, ℕ, Object, In, Result, ok, thrown, lookup, lookup_last, join, truthy, any_code, find,
  get_or_default, first, split_on, eq_iff,
}
use open_agent_hub.Manifest.{ModelProvider}
use open_agent_hub.Sandbox.Policy.{
  SandboxPolicyInput, TrustLevel, SandboxMode, effective_sandbox, is_blocked,
}
use open_agent_hub.Sandbox.Policy.Laws.{process_iff, MayRunAsProcess, IsBlocked}
use open_agent_hub.Requirements.{decide_sandbox, isolated_process}
use open_agent_hub.Requirements.Met.{decide_sandbox_iff}
use open_agent_hub.Sandbox.Process.{
  ProcessSandbox, unprepared, split_command, words, is_metacharacter, prepare, new_process_sandbox,
}
use open_agent_hub.Sandbox.Process.Words.{split_command_sound, IsWord, visible, visible_all}
use open_agent_hub.Sandbox.Container.{Host, run, secret_entries, assignment}
use open_agent_hub.Sandbox.Container.Environment.{container_environment}
use open_agent_hub.Models.{ModelConfig, pick_model, is_usable, provider_name}
use open_agent_hub.Models.Laws.{pick_model-IsSound, IsSound}
use open_agent_hub.Runtime.{run_agent, start, agent_env, trust_text}
use open_agent_hub.Runtime.Gates.{run_agent-IsGated, IsGated}
use open_agent_hub.Examples.Data.{
  weather, weather_options, laptop, vault, policy_case, offline_spec, openai_model, started_spec,
  started_options,
}

process_iff_example :
    ((effective_sandbox policy_case).mode ≡ SandboxMode.process) ↔ MayRunAsProcess policy_case
process_iff_example = process_iff policy_case

picked : pick_model weather none vault "acme/weather@1.2.0" ≡ ok openai_model
unfolding pick_model is_usable open_agent_hub.Models.key_env open_agent_hub.Models.api_key lookup
picked = refl

pick_model-IsSound_example :
    IsSound weather vault openai_model
    × (truthy none ≡ true
        → (is_usable vault ModelProvider.openai ≡ true)
          × (provider_name ModelProvider.openai
              ≡ get_or_default (first (split_on b':' (get_or_default none ""))) ""))
    × (truthy none ≡ false
        → (is_usable vault ModelProvider.openai ≡ true)
          ⊎ ((p : ModelProvider) → In p weather.models_supported → is_usable vault p ≡ false))
pick_model-IsSound_example =
    pick_model-IsSound weather none vault "acme/weather@1.2.0" openai_model picked

started :
    run_agent laptop weather_options (ok vault)
    ≡ ok (start SandboxMode.process started_spec started_options openai_model)
unfolding run_agent open_agent_hub.Runtime.check_grants
    open_agent_hub.Permissions.effective_permissions open_agent_hub.Prelude.spread
    open_agent_hub.Prelude.insert open_agent_hub.Runtime.check_policy effective_sandbox is_blocked
    open_agent_hub.Prelude.is_text pick_model is_usable open_agent_hub.Models.key_env
    open_agent_hub.Models.api_key lookup open_agent_hub.Runtime.command_for
started = refl

run_agent-IsGated_example : IsGated laptop weather_options SandboxMode.process started_spec
run_agent-IsGated_example =
    run_agent-IsGated laptop weather_options (ok vault) SandboxMode.process started_spec
      started_options openai_model started

abbrev two_words : List String
two_words = "python" ∷ "main.py" ∷ []

split : split_command "python  main.py" ≡ ok two_words
unfolding split_command words open_agent_hub.Prelude.split_where
    open_agent_hub.Sandbox.Process.is_space open_agent_hub.Prelude.prepend
    open_agent_hub.Sandbox.Process.is_nonempty is_metacharacter
split = refl

split_command_sound_example :
    (two_words ≢ [])
    × ((w : String) → In w two_words → IsWord w × (any_code is_metacharacter w ≡ false))
    × (visible_all two_words ≡ visible "python  main.py")
split_command_sound_example = split_command_sound "python  main.py" two_words split

abbrev build_host : Host
build_host = record {
  image_digest_python = none;
  image_digest_node = none;
  runtime_version = none;
  sha256_prefix = λ bytes. "0123456789abcdef";
  env_file_path = "/tmp/env";
}

container_environment_example :
    (secret_entries offline_spec.env ≡ []
      → (e : String × String) → In e offline_spec.env
      → In (assignment e) (run build_host offline_spec "python main.py").0)
    × (secret_entries offline_spec.env ≢ []
        → run build_host
            (record offline_spec { env = secret_entries offline_spec.env })
            "python main.py"
          ≡ run build_host offline_spec "python main.py")
container_environment_example = container_environment build_host offline_spec "python main.py"

abbrev without_override : SandboxPolicyInput
without_override = record policy_case { override = none }

decide_sandbox_iff_example : ((effective_sandbox without_override).mode ≡ SandboxMode.process) ↔ (
    ((decide_sandbox weather TrustLevel.trusted).mode ≡ isolated_process)
    × (¬ (IsBlocked without_override.review_status))
    × ((without_override.review_status ≡ none)
        ⊎ (without_override.review_status ≡ some "verified")
        ⊎ (without_override.status_fresh ≡ some true)))
decide_sandbox_iff_example = decide_sandbox_iff without_override refl
