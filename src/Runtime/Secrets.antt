-- ===== src/Runtime/Secrets.antt =====
-- What the environment of an agent holds.
use open_agent_hub.Prelude.{
  String, none, some, ◌≡◌, ◌≢◌, arith, List, Object, lookup, lookup_last, insert, lookup-insert,
  lookup-spread, lookup-insert_ne, join, truthy, Bool-cases, ok, bind-eq-ok, throw_if, not, ◌&&◌,
  [], inl, inr, spread, get_or_default,
}
use open_agent_hub.Manifest.{Permission}
use open_agent_hub.Models.{ModelConfig, build_agent_env, pick_model}
use open_agent_hub.Sandbox.Policy.{SandboxMode}
use open_agent_hub.Sandbox.Spec.{SandboxSpec, RunOptions}
use open_agent_hub.Runtime.{
  RunAgentOptions, Surroundings, InterfaceName, cli, agent_env, trust_text, start, run_agent,
  run_local, launch, check_grants, check_policy, command_for, is_container, may_run_plain,
  has_system,
}
use open_agent_hub.Runtime.Gates.{run_on_local}

-- A variable that the runtime does not set after the secrets.
abbrev pub IsFree : String → Type 0
IsFree k =
    (k ≢ "AGENT_TRUST")
    × (k ≢ "AGENT_HOME")
    × (k ≢ "AGENT_GRANTED_PERMISSIONS")
    × (k ≢ "AGENT_USAGE_FILE")

module _ (opts : RunAgentOptions) (effective : List Permission) (model : ModelConfig)
    (secrets : Object String) where
  -- No secret can stand in for what the runtime tells the agent of its trust, its directory and its
  -- permissions, whatever the secrets are named.
  pub agent_env_fixed :
      (lookup "AGENT_TRUST" (agent_env opts effective model secrets)
        ≡ some (trust_text opts.trust_level))
      × (lookup "AGENT_HOME" (agent_env opts effective model secrets) ≡ some opts.agent_dir)
      × (lookup "AGENT_GRANTED_PERMISSIONS" (agent_env opts effective model secrets)
          ≡ some (join "," effective))
  unfolding agent_env
  agent_env_fixed = elim (Bool-cases (truthy opts.usage_file_path)) [
    | inl e ↦ rw e (simp lookup-insert, simp lookup-insert, simp lookup-insert)
    | inr e ↦ rw e (simp lookup-insert, simp lookup-insert, simp lookup-insert)
  ]

  -- Any other variable has the value of the secret of its name, if there is one.
  pub agent_env_free :
      (k : String)
      → IsFree k
      → lookup k (agent_env opts effective model secrets) ≡ elim (lookup_last k secrets) [
        | some v ↦ some v
        | none ↦ lookup k (build_agent_env model opts.manifest.name opts.manifest.version)
      ]
  unfolding agent_env
  agent_env_free k (trust, home, permissions, usage) =
      let named = build_agent_env model opts.manifest.name opts.manifest.version in
      let below = spread named secrets in
      let with_trust = insert "AGENT_TRUST" (trust_text opts.trust_level) below in
      let with_home = insert "AGENT_HOME" opts.agent_dir with_trust in
      let with_permissions = insert "AGENT_GRANTED_PERMISSIONS" (join "," effective) with_home in
      let path = get_or_default opts.usage_file_path "" in
      ground (
        arith,
        lookup-spread k named secrets,
        lookup-insert_ne "AGENT_TRUST" k (trust_text opts.trust_level) below trust,
        lookup-insert_ne "AGENT_HOME" k opts.agent_dir with_trust home,
        lookup-insert_ne "AGENT_GRANTED_PERMISSIONS" k (join "," effective) with_home permissions,
        lookup-insert_ne "AGENT_USAGE_FILE" k path with_permissions usage,
      )

module _ (at : Surroundings) (opts : RunAgentOptions) (stored : Object String) where
  launch_env :
      (iface : InterfaceName) (effective : List Permission) (chosen mode : SandboxMode)
      (picked model : ModelConfig) (secrets : Object String) (spec : SandboxSpec) (o : RunOptions)
      → launch at opts iface effective chosen picked secrets ≡ ok (start mode spec o model)
      → spec.env ≡ agent_env opts effective model secrets
  unfolding launch
  launch_env iface effective chosen mode picked model secrets spec o h =
      let (u, plain, h1) =
        bind-eq-ok (throw_if (not (is_container chosen) && not (may_run_plain opts.trust_level)) _)
          _ h in
      let (command, found, h2) = bind-eq-ok (command_for opts.manifest iface) _ h1 in
      ground (arith, h2)

  run_local_env :
      (iface : InterfaceName) (mode : SandboxMode) (spec : SandboxSpec) (o : RunOptions)
      (model : ModelConfig)
      → run_local at opts iface (ok stored) ≡ ok (start mode spec o model)
      → (effective : List Permission) × (spec.env
          ≡ agent_env opts effective model (spread stored (get_or_default opts.extra_secrets [])))
  unfolding run_local
  run_local_env iface mode spec o model h =
      let (u, no_system, h1) =
        bind-eq-ok (throw_if (has_system opts.manifest.dependencies) _) _ h in
      let (effective, granted, h2) = bind-eq-ok (check_grants opts) _ h1 in
      let (chosen, policy, h3) = bind-eq-ok (check_policy at opts) _ h2 in
      let (picked, choice, h5) =
        bind-eq-ok (pick_model opts.manifest opts.model stored opts.agent_key) _ h3 in
      (effective, launch_env iface effective chosen mode picked model _ spec o h5)

  -- the environment of an agent that the runtime starts
  pub run_agent_env :
      (mode : SandboxMode) (spec : SandboxSpec) (o : RunOptions) (model : ModelConfig)
      → run_agent at opts (ok stored) ≡ ok (start mode spec o model)
      → (effective : List Permission) × (spec.env
          ≡ agent_env opts effective model (spread stored (get_or_default opts.extra_secrets [])))
  unfolding run_agent
  run_agent_env mode spec o model h =
      let iface = get_or_default opts.interface_name cli in
      run_local_env iface mode spec o model (run_on_local at opts (ok stored) iface h)
