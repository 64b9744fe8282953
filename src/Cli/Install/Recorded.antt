-- ===== src/Cli/Install/Recorded.antt =====
-- What an installation leaves behind, and what it does not touch when it fails.
use open_agent_hub.Prelude.{
  String, Option, none, some, true, ◌↔◌, In, lookup, ◌≡◌, ◌∙◌, refl, sym, ap, arith, ◌&&◌, not, [],
  str_eq, eq_iff, get_or_default, lookup_in, lookup-insert_self, Result, ok, thrown, throw_if,
  throw_if-eq-ok, bind-eq-ok,
}
use open_agent_hub.Permissions.{
  OpenAgentHubConfig, Disk, loaded, load_config, agent_key, granted_permissions, record_install,
  save_granted_permissions, requested_permissions,
}
use open_agent_hub.Manifest.{Permission}
use open_agent_hub.Cli.Install.Granted.{IsAgreed, grant_permissions_iff}
use open_agent_hub.Cli.Prepare.{ParsedSpec}
use open_agent_hub.Cli.Spec.{parse_spec}
use open_agent_hub.Cli.Source.{Machine, ResolvedPackage, PackageSource, resolve_package}
use open_agent_hub.Cli.Install.{
  InstallOptions, Plan, World, full_name, already, read_config, check_package, check_requirements,
  grant_permissions, plan_install, place_files, installed_record, record_plan, save_first,
  save_second, finish_install, carry_out, install_agent,
}

abbrev pub key_of : Plan → String
key_of plan = agent_key plan.spec.namespace plan.spec.name plan.resolved.manifest.version

record_plan_lem :
    (m : Machine) (plan : Plan) (disk : Disk)
    → (load_config (record_plan m plan disk).disk ≡ loaded (record_plan m plan disk).config)
      × (lookup_in (key_of plan) (record_plan m plan disk).config.installed
          ≡ some (installed_record m plan))
      × (granted_permissions (record_plan m plan disk).config (key_of plan) ≡ plan.granted)
unfolding record_plan record_install save_granted_permissions granted_permissions load_config
    installed_record
record_plan_lem m plan disk = (
  refl,
  lookup-insert_self (key_of plan) _ (get_or_default plan.config.installed []),
  rw (lookup-insert_self (key_of plan) plan.granted (get_or_default plan.config.permissions []))
      refl,
)

module _ (m : Machine) (opts : InstallOptions) (source : PackageSource) where
  save_first_ok :
      (plan : Plan) (w after : World) (first second : Option String)
      → m.second_save ≡ second
      → save_first m plan w first ≡ (after, ok tt)
      → after.disk ≡ (record_plan m plan w.disk).disk
  unfolding save_first save_second
  save_first_ok plan w after (some e) second q h = ground arith
  save_first_ok plan w after none (some e) q h = let k = rw q at h in ground arith
  save_first_ok plan w after none none q h = let k = rw q at h in ground arith

  finish_ok :
      (plan : Plan) (w after : World) (r : Result (Unit {0}))
      → finish_install m plan w r ≡ (after, ok tt)
      → (r ≡ ok tt) × (after.disk ≡ (record_plan m plan w.disk).disk)
  unfolding finish_install
  finish_ok plan w after (thrown e) h = ground arith
  finish_ok plan w after (ok u) h =
      (refl, save_first_ok plan w after m.first_save m.second_save refl h)

  carry_out_ok :
      (w after : World) (r : Result Plan)
      → carry_out m source w r ≡ (after, ok tt)
      → (plan : Plan) × (r ≡ ok plan)
        × ((place_files m source plan.resolved).1 ≡ ok tt)
        × (after.disk ≡ (record_plan m plan w.disk).disk)
  unfolding carry_out
  carry_out_ok w after (thrown e) h = ground arith
  carry_out_ok w after (ok plan) h =
      let (placed, disk) = finish_ok plan _ after _ h in (plan, refl, placed, disk)

  check_package_ok :
      (config : OpenAgentHubConfig) (found : ResolvedPackage) (parsed : ParsedSpec) (plan : Plan)
      → check_package m opts config found parsed ≡ ok plan
      → (found.manifest.name ≡ full_name parsed)
        × (plan.spec ≡ parsed)
        × (plan.resolved ≡ found)
        × (plan.granted
            ≡ grant_permissions m opts found.manifest
                (requested_permissions found.manifest.permissions))
        × (check_requirements m opts found.manifest ≡ ok tt)
  unfolding check_package
  check_package_ok config found parsed plan h =
      let (u, named, h1) =
        bind-eq-ok (throw_if (not (str_eq found.manifest.name (full_name parsed))) _) _ h in
      let (v, fresh, h2) =
        bind-eq-ok
          (throw_if
            (already config (agent_key parsed.namespace parsed.name found.manifest.version)
              && not opts.force)
            _)
          _ h1 in
      let (x, able, h3) = bind-eq-ok (check_requirements m opts found.manifest) _ h2 in
      let same = throw_if-eq-ok (not (str_eq found.manifest.name (full_name parsed))) _ named in
      (
        ground (arith, same, eq_iff found.manifest.name (full_name parsed)),
        ground (arith, h3),
        ground (arith, h3),
        ground (arith, h3),
        able,
      )

  plan_install_ok :
      (spec : String) (disk : Disk) (plan : Plan)
      → plan_install m opts spec source disk ≡ ok plan
      → (url : String) × (resolve_package m spec source url ≡ ok plan.resolved)
        × (parse_spec spec ≡ ok plan.spec)
        × (plan.resolved.manifest.name ≡ full_name plan.spec)
        × (plan.granted
            ≡ grant_permissions m opts plan.resolved.manifest
                (requested_permissions plan.resolved.manifest.permissions))
        × (check_requirements m opts plan.resolved.manifest ≡ ok tt)
  unfolding plan_install
  plan_install_ok spec disk plan h =
      let (config, read, h1) = bind-eq-ok (read_config (load_config disk)) _ h in
      let (found, resolving, h2) = bind-eq-ok (resolve_package m spec source _) _ h1 in
      let (parsed, parsing, h3) = bind-eq-ok (parse_spec spec) _ h2 in
      let (named, same_spec, same, granted, able) = check_package_ok config found parsed plan h3 in
      (
        _,
        resolving ∙ ap (λ f. ok f) (sym same),
        parsing ∙ ap (λ f. ok f) (sym same_spec),
        ap (λ (f : ResolvedPackage). f.manifest.name) same ∙ named ∙ ap full_name (sym same_spec),
        granted
            ∙ ap
                (λ (f : ResolvedPackage).
                  grant_permissions m opts f.manifest
                    (requested_permissions f.manifest.permissions))
                (sym same),
        ap (λ (f : ResolvedPackage). check_requirements m opts f.manifest) same ∙ able,
      )

  -- the check of the machine that a successful installation has passed
  pub install_agent_checks :
      (spec : String) (w after : World)
      → install_agent m opts spec source w ≡ (after, ok tt)
      → (plan : Plan) × ((url : String) × (resolve_package m spec source url ≡ ok plan.resolved))
        × (check_requirements m opts plan.resolved.manifest ≡ ok tt)
  unfolding install_agent
  install_agent_checks spec w after h =
      let (plan, planned, placed, disk) = carry_out_ok w after _ h in
      let (url, resolving, parsing, named, granted, able) =
        plan_install_ok spec w.disk plan planned in
      (plan, (url, resolving), able)

  -- An installation that succeeds resolved a package whose manifest has the name that was asked for,
  -- and placed its files without an error. The configuration that is saved has under the agent's key
  -- the record of this package. Of the permissions it holds those that the manifest asks for, each as
  -- granted exactly if "none" alone is asked for, or permissions are not switched off and the user has
  -- agreed to all or says yes to the question for it.
  pub install_agent_records :
      (spec : String) (w after : World)
      → install_agent m opts spec source w ≡ (after, ok tt)
      → (plan : Plan) × (saved : OpenAgentHubConfig) × (parse_spec spec ≡ ok plan.spec)
        × ((url : String) × (resolve_package m spec source url ≡ ok plan.resolved))
        × (plan.resolved.manifest.name ≡ full_name plan.spec)
        × ((place_files m source plan.resolved).1 ≡ ok tt)
        × (load_config after.disk ≡ loaded saved)
        × (lookup_in (key_of plan) saved.installed ≡ some (installed_record m plan))
        × ((p : Permission)
            → ((lookup p (granted_permissions saved (key_of plan)) ≡ some true) ↔ (
                In p (requested_permissions plan.resolved.manifest.permissions)
                × IsAgreed m opts plan.resolved.manifest.name
                    (requested_permissions plan.resolved.manifest.permissions)
                    p))
              × ((lookup p (granted_permissions saved (key_of plan)) ≡ none)
                  ↔ (¬ (In p (requested_permissions plan.resolved.manifest.permissions)))))
  unfolding install_agent
  install_agent_records spec w after h =
      let (plan, planned, placed, disk) = carry_out_ok w after _ h in
      let (url, resolving, parsing, named, granted, able) =
        plan_install_ok spec w.disk plan planned in
      let (read, recorded, held) = record_plan_lem m plan w.disk in
      (
        plan,
        (record_plan m plan w.disk).config,
        parsing,
        (url, resolving),
        named,
        placed,
        ap load_config disk ∙ read,
        recorded,
        (λ p. rw (held ∙ granted) (grant_permissions_iff m opts plan.resolved.manifest _ p)),
      )
