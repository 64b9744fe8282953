-- ===== src/Cli/Install/Required.antt =====
-- What the machine must have for an installation, by the checks of sdk/src/runtime.ts.
use open_agent_hub.Prelude.{
  String, some, true, false, ◌≡◌, ◌∙◌, sym, arith, inl, inr, [], List-cases, ok,
}
use open_agent_hub.Manifest
use open_agent_hub.Manifest.{Manifest}
use open_agent_hub.Requirements.{DetectedRuntime, system_of, check_agent_requirements}
use open_agent_hub.Requirements.Met.{
  HasLanguage, check_agent_requirements_iff, satisfied_of_missing,
}
use open_agent_hub.Cli.Source.{Machine, PackageSource, resolve_package}
use open_agent_hub.Cli.Install.{InstallOptions, Plan, World, check_requirements, install_agent}
use open_agent_hub.Cli.Install.Recorded.{install_agent_checks}

module _ (m : Machine) (opts : InstallOptions) (d : DetectedRuntime) where
  nothing_missing :
      (manifest : Manifest)
      → opts.force_yes ≡ false
      → ((question : String) → m.confirm question ≡ false)
      → check_requirements m opts manifest ≡ ok tt
      → m.missing_requirements manifest ≡ []
  unfolding check_requirements
  nothing_missing manifest unforced declines h =
      elim (List-cases (m.missing_requirements manifest)) [
        | inl e ↦ e
        | inr (x, xs, e) ↦ let no = rw (e, unforced, declines _) at h in ground arith
      ]

  -- Where the check of the machine is the one of the SDK: an installation without force, by a user who
  -- declines every question, that succeeds is of a package whose language, if it is Python or Node,
  -- was found in a version that fits the manifest (other languages are not looked for); docker is
  -- there if the manifest asks for a container, and it has no system dependencies.
  pub install_agent_meets :
      (source : PackageSource) (spec : String) (w after : World)
      → ((manifest : Manifest)
          → m.missing_requirements manifest ≡ (check_agent_requirements manifest d).missing)
      → opts.force_yes ≡ false
      → ((question : String) → m.confirm question ≡ false)
      → install_agent m opts spec source w ≡ (after, ok tt)
      → (plan : Plan) × ((url : String) × (resolve_package m spec source url ≡ ok plan.resolved))
        × HasLanguage plan.resolved.manifest d plan.resolved.manifest.runtime.language
        × (plan.resolved.manifest.runtime.sandbox ≡ some Manifest.container → d.docker ≡ true)
        × (system_of plan.resolved.manifest.dependencies ≡ [])
  install_agent_meets source spec w after checks unforced declines h =
      let (plan, resolved, able) = install_agent_checks m opts source spec w after h in
      let manifest = plan.resolved.manifest in
      let none_missing = nothing_missing manifest unforced declines able in
      let all_there = satisfied_of_missing manifest d (sym (checks manifest) ∙ none_missing) in
      let met = (check_agent_requirements_iff manifest d).0 all_there in
      (plan, resolved, met.0, met.1, met.2)
