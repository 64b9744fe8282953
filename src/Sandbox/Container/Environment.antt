-- ===== src/Sandbox/Container/Environment.antt =====
-- Which variables of the environment reach an agent in a container.
use open_agent_hub.Prelude.{
  String, Option, none, some, ◌≡◌, ◌≢◌, inl, inr, arith, refl, ap, sym, ◌∙◌, List, [], ◌∷◌, Object,
  In, keep_idempotent, List-cases, subst, map, join, In-append_left, In-append_right, ok, true, not,
  throw_if, throw_if-eq-ok, bind-eq-ok, get_or_default,
}
use open_agent_hub.Manifest.{Dependencies}
use open_agent_hub.Sandbox.Spec.{SandboxSpec}
use open_agent_hub.Sandbox.Container.{
  Host, base_flags, deps_volume_name, assignment, env_flags, env_flags_of, build_run_args,
  is_secret_name, secret_entries, write_env_file, run, install_args, install_work, install_command,
  install_run_args, no_dependencies,
}

In-env_flags_of :
    (e : String × String) (env : Object String) → In e env → In (assignment e) (env_flags_of env)
unfolding env_flags_of
In-env_flags_of e [] h = absurd h
In-env_flags_of e (x ∷ env) (inl same) = inr (inl (ap assignment same))
In-env_flags_of e (x ∷ env) (inr m) = inr (inr (In-env_flags_of e env m))

In-build_run_args :
    (host : Host) (spec : SandboxSpec) (command : String) (e : String × String)
    → In e spec.env
    → In (assignment e) (build_run_args host spec command none)
unfolding build_run_args env_flags
In-build_run_args host spec command e m = inr (
    inr (
      In-append_right (assignment e) (base_flags host spec) _
        (In-append_left (assignment e) (env_flags_of spec.env) _ (In-env_flags_of e spec.env m))))

run_of_none :
    (host : Host) (spec : SandboxSpec) (command : String)
    → secret_entries spec.env ≡ []
    → run host spec command ≡ (build_run_args host spec command none, none)
unfolding run
run_of_none host spec command e = rw (e, write_env_file)

module _ (host : Host) (command : String) (s : String × String) (ss : Object String) where
  -- the arguments beside a file of secrets do not read the environment
  run_of_entries :
      (spec : SandboxSpec)
      → secret_entries spec.env ≡ s ∷ ss
      → run host spec command ≡ (
        build_run_args host spec command (some host.env_file_path),
        some (host.env_file_path, join "\n" (map assignment (s ∷ ss))),
      )
  unfolding run
  run_of_entries spec e = rw (e, write_env_file)

  args_without_env :
      (spec : SandboxSpec) (env : Object String)
      → build_run_args host (record spec { env = env }) command (some host.env_file_path)
        ≡ build_run_args host spec command (some host.env_file_path)
  unfolding build_run_args base_flags deps_volume_name
  args_without_env spec env = refl

  run_of_secrets :
      (spec : SandboxSpec)
      → secret_entries spec.env ≡ s ∷ ss
      → run host (record spec { env = secret_entries spec.env }) command ≡ run host spec command
  run_of_secrets spec e =
      let again : secret_entries (secret_entries spec.env) ≡ s ∷ ss =
        keep_idempotent (λ (x : String × String). is_secret_name x.0) spec.env ∙ e in
      run_of_entries (record spec { env = secret_entries spec.env }) again
      ∙ ap (λ args. (args, some (host.env_file_path, join "\n" (map assignment (s ∷ ss)))))
          (args_without_env spec (secret_entries spec.env))
      ∙ sym (run_of_entries spec e)

-- Without a variable whose name looks like a secret, every variable stands on the command line of
-- `docker run`. With one, the command and the file beside it are what they would be if the
-- environment held the secret-looking variables alone: no other variable reaches the agent.
pub container_environment :
    (host : Host) (spec : SandboxSpec) (command : String)
    → (secret_entries spec.env ≡ []
        → (e : String × String) → In e spec.env
        → In (assignment e) (run host spec command).0)
      × (secret_entries spec.env ≢ []
          → run host (record spec { env = secret_entries spec.env }) command
            ≡ run host spec command)
container_environment host spec command = (
  (λ bare e m.
      subst (λ (r : List String × Option (String × String)). In (assignment e) r.0)
        (sym (run_of_none host spec command bare)) (In-build_run_args host spec command e m)),
  (λ some_secret. elim (List-cases (secret_entries spec.env)) [
    | inl bare ↦ absurd (some_secret bare)
    | inr (s, ss, e) ↦ run_of_secrets host command s ss spec e
  ]),
)

In-install_run_args :
    (host : Host) (spec : SandboxSpec) (cmd : String) (e : String × String)
    → In e spec.env
    → In (assignment e) (install_run_args host spec cmd)
unfolding install_run_args env_flags
In-install_run_args host spec cmd e m = inr (
    In-append_right (assignment e) (base_flags host spec) _
      (In-append_left (assignment e) (env_flags_of spec.env) _ (In-env_flags_of e spec.env m)))

install_work_ok :
    (host : Host) (spec : SandboxSpec) (deps : Dependencies) (args : List String)
    → install_work host spec deps ≡ ok (some args)
    → (spec.network ≡ true) × (cmd : String) × (args ≡ install_run_args host spec cmd)
unfolding install_work
install_work_ok host spec deps args h =
    let (u, online, h1) = bind-eq-ok (throw_if (not spec.network) _) _ h in
    let (cmd, made, h2) = bind-eq-ok (install_command spec deps) _ h1 in
    (ground (arith, throw_if-eq-ok (not spec.network) _ online), cmd, ground arith)

-- Installing the dependencies needs the network permission, and it puts every variable of the
-- environment on the command line of `docker run`, those with secret-looking names included.
pub install_args_env :
    (host : Host) (spec : SandboxSpec) (args : List String) (e : String × String)
    → install_args host spec ≡ ok (some args)
    → In e spec.env
    → In (assignment e) args × (spec.network ≡ true)
unfolding install_args
install_args_env host spec args e h m =
    let deps = get_or_default spec.manifest.dependencies no_dependencies in
    let (online, cmd, same) = install_work_ok host spec deps args (ground arith) in
    (subst (In (assignment e)) (sym same) (In-install_run_args host spec cmd e m), online)
