-- ===== src/Runtime/Gates.antt =====
-- What holds of every agent that the runtime starts. Of the sandboxes only the container reads the
-- network flag.
use open_agent_hub.Prelude.{
  String, true, false, ◌≡◌, ◌↔◌, inl, inr, arith, refl, sym, subst, List, [], ◌∷◌, ◌&&◌, not, In,
  In-of_includes, includes_of_In, includes, Object, Result, ok, bind-eq-ok, throw_if,
  throw_if-eq-ok, get_or_default, spread, truthy, map, keys, ap, ◌∙◌, In-of_spread, In-keys,
}
use open_agent_hub.Manifest.{Permission}
use open_agent_hub.Models.{ModelConfig, pick_model}
use open_agent_hub.Permissions.{effective_permissions}
use open_agent_hub.Permissions.Grants.{named, effective_permissions_iff}
use open_agent_hub.Sandbox.Policy.{SandboxMode, container, process, effective_sandbox}
use open_agent_hub.Sandbox.Policy.Laws.{IsBlocked, MayRunAsProcess, process_iff, blocked-truthy}
use open_agent_hub.Sandbox.Spec.{SandboxSpec, RunOptions}
use open_agent_hub.Runtime.{
  Surroundings, RunAgentOptions, InterfaceName, start, run_agent, run_on, run_local, run_remote,
  launch, check_grants, check_policy, policy_input, as_granted, command_for, agent_env,
  is_container, may_run_plain, check_blocked, has_system, cli, mcp, http,
}

-- The gates that a start has passed.
pub record IsGated (at : Surroundings) (opts : RunAgentOptions) (mode : SandboxMode)
    (spec : SandboxSpec) : Type 0 where
  pub allowed : ¬ (IsBlocked opts.review_status)
  pub docker : mode ≡ container → at.docker_available ≡ true
  pub plain : mode ≡ process → MayRunAsProcess (policy_input opts)
  pub granted :
      (p : Permission)
      → In p spec.granted
      → In p (named opts.manifest.permissions) × In p opts.granted
  pub network : (spec.network ≡ true) ↔ In "network" spec.granted

check_policy_ok :
    (at : Surroundings) (opts : RunAgentOptions) (mode : SandboxMode)
    → check_policy at opts ≡ ok mode
    → ((effective_sandbox (policy_input opts)).mode ≡ mode)
      × (truthy (effective_sandbox (policy_input opts)).blocked ≡ false)
      × (mode ≡ container → at.docker_available ≡ true)
unfolding check_policy
check_policy_ok at opts mode h =
    let policy = effective_sandbox (policy_input opts) in
    let (u, free, h1) = bind-eq-ok (check_blocked policy.blocked) _ h in
    let (v, docker, h2) =
      bind-eq-ok (throw_if (is_container policy.mode && not at.docker_available) _) _ h1 in
    let here = throw_if-eq-ok (is_container policy.mode && not at.docker_available) _ docker in
    (ground arith, throw_if-eq-ok (truthy policy.blocked) _ free, ground arith)

launch_ok :
    (at : Surroundings) (opts : RunAgentOptions) (iface : InterfaceName)
    (effective : List Permission) (chosen mode : SandboxMode) (picked model : ModelConfig)
    (secrets : Object String) (spec : SandboxSpec) (o : RunOptions)
    → launch at opts iface effective chosen picked secrets ≡ ok (start mode spec o model)
    → (mode ≡ chosen)
      × (spec.granted ≡ effective)
      × (spec.network ≡ includes "network" effective)
      × (spec.env ≡ agent_env opts effective picked secrets)
      × (command_for opts.manifest iface ≡ ok o.command)
unfolding launch
launch_ok at opts iface effective chosen mode picked model secrets spec o h =
    let (u, plain, h1) =
      bind-eq-ok (throw_if (not (is_container chosen) && not (may_run_plain opts.trust_level)) _) _
        h in
    let (command, found, h2) = bind-eq-ok (command_for opts.manifest iface) _ h1 in
    (ground arith, ground arith, ground arith, ground arith, ground arith)

check_grants_ok :
    (opts : RunAgentOptions) (effective : List Permission)
    → check_grants opts ≡ ok effective
    → effective ≡ effective_permissions opts.manifest.permissions (as_granted opts.granted)
unfolding check_grants
check_grants_ok opts effective h = ground arith

keys-as_granted : (granted : List Permission) → keys (map (λ p. (p, true)) granted) ≡ granted
keys-as_granted [] = refl
keys-as_granted (p ∷ ps) = ap (λ r. p ∷ r) (keys-as_granted ps)

In-of_as_granted :
    (granted : List Permission) (p : Permission) → In (p, true) (as_granted granted) → In p granted
In-of_as_granted granted p h =
    elim (In-of_spread [] (map (λ q. (q, true)) granted) p
      (In-keys p true (as_granted granted) h)) [
        | inl z ↦ absurd z
        | inr m ↦ subst (In p) (keys-as_granted granted) m
      ]

run_local-IsGated :
    (at : Surroundings) (opts : RunAgentOptions) (iface : InterfaceName)
    (vault : Result (Object String)) (mode : SandboxMode) (spec : SandboxSpec) (o : RunOptions)
    (model : ModelConfig)
    → run_local at opts iface vault ≡ ok (start mode spec o model)
    → IsGated at opts mode spec
unfolding run_local policy_input
run_local-IsGated at opts iface vault mode spec o model h =
    let (u, no_system, h1) = bind-eq-ok (throw_if (has_system opts.manifest.dependencies) _) _ h in
    let (effective, granted, h2) = bind-eq-ok (check_grants opts) _ h1 in
    let (chosen, policy, h3) = bind-eq-ok (check_policy at opts) _ h2 in
    let (stored, opened, h4) = bind-eq-ok vault _ h3 in
    let (picked, choice, h5) =
      bind-eq-ok (pick_model opts.manifest opts.model stored opts.agent_key) _ h4 in
    let secrets = spread stored (get_or_default opts.extra_secrets []) in
    let (same_mode, same_granted, same_network, same_env, command) =
      launch_ok at opts iface effective chosen mode picked model secrets spec o h5 in
    let (decided, free, docker) = check_policy_ok at opts chosen policy in
    let same_effective = check_grants_ok opts effective granted in
    record {
      allowed = λ blocked. let t = blocked-truthy (policy_input opts) blocked in cc;
      docker = λ e. docker (cc);
      plain = λ e. (process_iff (policy_input opts)).0 (cc);
      granted = λ p m.
          let m' : In p
              (effective_permissions opts.manifest.permissions (as_granted opts.granted)) =
            subst (In p) (same_granted ∙ same_effective) m in
          let (declared, open_list, held) =
            (effective_permissions_iff opts.manifest.permissions (as_granted opts.granted) p).0
              m' in
          (declared, In-of_as_granted opts.granted p held);
      network = (
        (λ e. subst (In "network") (sym same_granted) (In-of_includes "network" effective (cc))),
        (λ m.
            same_network
            ∙ includes_of_In "network" effective (subst (In "network") same_granted m)),
      );
    }

pub run_on_local :
    (at : Surroundings) (opts : RunAgentOptions) (vault : Result (Object String))
    (iface : InterfaceName) {mode : SandboxMode} {spec : SandboxSpec} {o : RunOptions}
    {model : ModelConfig}
    → run_on at opts vault iface ≡ ok (start mode spec o model)
    → run_local at opts iface vault ≡ ok (start mode spec o model)
unfolding run_on run_remote
run_on_local at opts vault cli h = h
run_on_local at opts vault mcp h = h
run_on_local at opts vault http h = ground arith

-- Every agent that starts has a version that is neither rejected nor revoked; docker answers if it
-- starts in a container, and it may run as a process if it does not; it is told only permissions that
-- were granted and that its manifest names; and the network flag of what its sandbox is given is set
-- exactly if that permission is among them.
pub run_agent-IsGated :
    (at : Surroundings) (opts : RunAgentOptions) (vault : Result (Object String))
    (mode : SandboxMode) (spec : SandboxSpec) (o : RunOptions) (model : ModelConfig)
    → run_agent at opts vault ≡ ok (start mode spec o model)
    → IsGated at opts mode spec
unfolding run_agent
run_agent-IsGated at opts vault mode spec o model h =
    let iface = get_or_default opts.interface_name cli in
    run_local-IsGated at opts iface vault mode spec o model (run_on_local at opts vault iface h)
