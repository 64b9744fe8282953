-- ===== src/Cli/Install/Failing.antt =====
-- What an installation that fails leaves in the configuration file.
use open_agent_hub.Prelude.{
  String, Option, none, some, ◌≡◌, ◌∙◌, ◌⊎◌, inl, inr, refl, sym, ap, subst, arith, ◌&&◌, not, [],
  str_eq, get_or_default, lookup_in, lookup-insert_self, Result, ok, thrown, throw_if, bind-eq-ok,
}
use open_agent_hub.Permissions.{
  OpenAgentHubConfig, Disk, Loaded, loaded, config_corrupt_error, load_config, record_install,
  agent_key,
}
use open_agent_hub.Cli.Prepare.{ParsedSpec}
use open_agent_hub.Cli.Spec.{parse_spec}
use open_agent_hub.Cli.Source.{Machine, ResolvedPackage, PackageSource, resolve_package}
use open_agent_hub.Cli.Install.{
  InstallOptions, Plan, World, full_name, already, read_config, check_package, check_requirements,
  plan_install, installed_record, save_first, save_second, finish_install, carry_out, install_agent,
}
use open_agent_hub.Cli.Install.Recorded.{key_of}

-- The agent of a plan is recorded in the file, and no permissions were saved since it was read.
abbrev pub IsHalfSaved : Machine → Plan → Disk → Type 0
IsHalfSaved m plan disk =
    (saved : OpenAgentHubConfig) × (load_config disk ≡ loaded saved)
    × (lookup_in (key_of plan) saved.installed ≡ some (installed_record m plan))
    × (saved.permissions ≡ plan.config.permissions)

read_config_ok :
    (read : Loaded) (config : OpenAgentHubConfig)
    → read_config read ≡ ok config
    → read ≡ loaded config
read_config_ok (loaded c) config h = ground arith
read_config_ok config_corrupt_error config h = ground arith

module _ (m : Machine) (opts : InstallOptions) (source : PackageSource) where
  check_package-config :
      (config : OpenAgentHubConfig) (found : ResolvedPackage) (parsed : ParsedSpec) (plan : Plan)
      → check_package m opts config found parsed ≡ ok plan
      → plan.config ≡ config
  unfolding check_package
  check_package-config config found parsed plan h =
      let (u, named, h1) =
        bind-eq-ok (throw_if (not (str_eq found.manifest.name (full_name parsed))) _) _ h in
      let (v, fresh, h2) =
        bind-eq-ok
          (throw_if
            (already config (agent_key parsed.namespace parsed.name found.manifest.version)
              && not opts.force)
            _)
          _ h1 in
      let (x, able, h3) = bind-eq-ok (check_requirements m opts found.manifest) _ h2 in
      ground (arith, h3)

  plan_install-config :
      (spec : String) (disk : Disk) (plan : Plan)
      → plan_install m opts spec source disk ≡ ok plan
      → load_config disk ≡ loaded plan.config
  unfolding plan_install
  plan_install-config spec disk plan h =
      let (config, read, h1) = bind-eq-ok (read_config (load_config disk)) _ h in
      let (found, resolving, h2) = bind-eq-ok (resolve_package m spec source _) _ h1 in
      let (parsed, parsing, h3) = bind-eq-ok (parse_spec spec) _ h2 in
      read_config_ok (load_config disk) config read
      ∙ ap (λ c. loaded c) (sym (check_package-config config found parsed plan h3))

  half_saved :
      (plan : Plan) (w after : World) (e e' : String)
      → save_second m plan w (some e') ≡ (after, thrown e)
      → IsHalfSaved m plan after.disk
  unfolding save_second record_install load_config installed_record
  half_saved plan w after e e' h =
      let same : (save_second m plan w (some e')).0.disk ≡ after.disk =
        ap (λ (r : World × Result (Unit {0})). r.0.disk) h in
      (
        _,
        ap load_config (sym same),
        lookup-insert_self (key_of plan) _ (get_or_default plan.config.installed []),
        refl,
      )

  second_error :
      (plan : Plan) (w after : World) (e e' : String)
      → save_second m plan w (some e') ≡ (after, thrown e)
      → e' ≡ e
  unfolding save_second
  second_error plan w after e e' h = ground arith

  second_passes :
      (plan : Plan) (w after : World) (e : String)
      → ¬ (save_second m plan w none ≡ (after, thrown e))
  unfolding save_second
  second_passes plan w after e h = ground arith

  save_first_fails :
      (plan : Plan) (w after : World) (first second : Option String) (e : String)
      → m.second_save ≡ second
      → save_first m plan w first ≡ (after, thrown e)
      → (after.disk ≡ w.disk) ⊎ ((m.second_save ≡ some e) × IsHalfSaved m plan after.disk)
  unfolding save_first
  save_first_fails plan w after (some e') second e q h = inl (ground arith)
  save_first_fails plan w after none (some e') e q h =
      let k : save_second m plan w (some e') ≡ (after, thrown e) =
        subst (λ x. save_second m plan w x ≡ (after, thrown e)) q h in
      inr (q ∙ ap (λ x. some x) (second_error plan w after e e' k), half_saved plan w after e e' k)
  save_first_fails plan w after none none e q h =
      let k : save_second m plan w none ≡ (after, thrown e) =
        subst (λ x. save_second m plan w x ≡ (after, thrown e)) q h in
      absurd (second_passes plan w after e k)

  finish_fails :
      (plan : Plan) (w after : World) (r : Result (Unit {0})) (e : String)
      → finish_install m plan w r ≡ (after, thrown e)
      → (after.disk ≡ w.disk) ⊎ ((m.second_save ≡ some e) × IsHalfSaved m plan after.disk)
  unfolding finish_install
  finish_fails plan w after (thrown e') e h = inl (ground arith)
  finish_fails plan w after (ok u) e h =
      save_first_fails plan w after m.first_save m.second_save e refl h

  carry_out_fails :
      (spec : String) (w after : World) (r : Result Plan) (e : String)
      → plan_install m opts spec source w.disk ≡ r
      → carry_out m source w r ≡ (after, thrown e)
      → (after.disk ≡ w.disk)
        ⊎ ((plan : Plan) × (load_config w.disk ≡ loaded plan.config)
            × (m.second_save ≡ some e)
            × IsHalfSaved m plan after.disk)
  unfolding carry_out
  carry_out_fails spec w after (thrown e') e q h = inl (ground arith)
  carry_out_fails spec w after (ok plan) e q h = elim (finish_fails plan _ after _ e h) [
    | inl same ↦ inl same
    | inr (failed, half) ↦ inr (plan, plan_install-config spec w.disk plan q, failed, half)
  ]

  -- An installation that fails leaves the configuration file as it was, except where its second save
  -- fails: then the file has the record of the agent under its key, and the permissions of all agents
  -- are as they were read, so that those granted for this agent are not saved.
  pub install_agent_fails :
      (spec : String) (w after : World) (e : String)
      → install_agent m opts spec source w ≡ (after, thrown e)
      → (after.disk ≡ w.disk)
        ⊎ ((plan : Plan) × (load_config w.disk ≡ loaded plan.config)
            × (m.second_save ≡ some e)
            × IsHalfSaved m plan after.disk)
  unfolding install_agent
  install_agent_fails spec w after e h = carry_out_fails spec w after _ e refl h
