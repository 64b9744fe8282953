-- ===== src/Examples/Installs.antt =====
-- Installing an agent from the registry at a concrete input, with the toy scheme of signatures.
use open_agent_hub.Prelude.{
  String, Option, none, some, Bool, true, false, ◌≡◌, refl, [], ◌∷◌, List, Object, Result, ok,
  thrown, lookup_in,
}
use open_agent_hub.Permissions.{
  InstalledAgent, OpenAgentHubConfig, empty_config, Disk, json, loaded, load_config,
  granted_permissions, requested_permissions,
}
use open_agent_hub.Package.Signature.{SignatureFile, sign_archive}
use open_agent_hub.Sandbox.Policy.{TrustLevel}
use open_agent_hub.Cli.Prepare.{ParsedSpec}
use open_agent_hub.Cli.Source.{AgentVersionDetail, PackageSource, Machine, resolve_package}
use open_agent_hub.Cli.Spec.{parse_spec}
use open_agent_hub.Cli.Install.{
  InstallOptions, Plan, World, install_agent, installed_record, record_plan, place_files,
  grant_permissions, full_name,
}
use open_agent_hub.Cli.Install.Recorded.{key_of, install_agent_records}
use open_agent_hub.Cli.Install.Failing.{IsHalfSaved, install_agent_fails}
use open_agent_hub.Cli.Install.Granted.{IsAgreed}
use open_agent_hub.Manifest.{Permission}
use open_agent_hub.Prelude.{◌↔◌, ◌⊎◌, In, lookup}
use open_agent_hub.Permissions.{record_install}
use open_agent_hub.Cli.Install.Signed.{IsVerified, install_agent-IsVerified}
use open_agent_hub.Manifest
use open_agent_hub.Requirements.{DetectedRuntime, system_of, check_agent_requirements}
use open_agent_hub.Requirements.Met.{HasLanguage}
use open_agent_hub.Cli.Install.Required.{install_agent_meets}
use open_agent_hub.Examples.Data.{weather, toy}

abbrev detail : AgentVersionDetail
detail = record {
  manifest = weather;
  trust = some TrustLevel.trusted;
  security = some "clean";
  review_status = some "verified";
  review_reason = none;
}

abbrev sent : SignatureFile
sent = sign_archive toy "acme/weather" "1.2.0" "archive" "secret"

-- network is granted, and every answer is yes
abbrev machine : Machine
machine = record {
  crypto = toy;
  now = "2026-02-01";
  registry_default = "https://registry.example";
  get_version = λ namespace name version. ok detail;
  download_archive = λ namespace name version. ok ("archive", sent);
  read_archive = λ path. thrown "no such file";
  read_signature_file = λ path. thrown "no such file";
  load_manifest = λ path. thrown "no such file";
  unpack = λ archive. ok weather;
  unpack_into = λ archive. ("agent.yaml" ∷ "main.py" ∷ [], ok tt);
  project_files = λ path. thrown "no such directory";
  missing_requirements = λ m. [];
  confirm = λ question. true;
  agent_dir = λ namespace name version. "/agents/weather";
  first_save = none;
  second_save = none;
}

abbrev options : InstallOptions
options = record { force_yes = false; no_permissions = false; registry_url = none; force = false }

abbrev fresh : World
fresh = record { disk = Disk.missing; directories = [] }

abbrev plan : Plan
plan = record {
  config = empty_config;
  spec = record { namespace = "acme"; name = "weather"; version = none };
  resolved = record {
    manifest = weather;
    archive_path = some "archive";
    signature = some sent;
    trust = TrustLevel.trusted;
    source = "https://registry.example/api/v1/agents/acme/weather/versions/1.2.0/archive";
    review_status = some "verified";
    status_checked_at = some "2026-02-01";
  };
  granted = ("network", true) ∷ ("filesystem", true) ∷ [];
}

abbrev installed_world : World
installed_world = record {
  disk = (record_plan machine plan Disk.missing).disk;
  directories =
      ("/agents/weather", "agent.yaml" ∷ "main.py" ∷ "signature.sig.json" ∷ "archive.ahb" ∷ [])
      ∷ [];
}

installed :
    install_agent machine options "acme/weather" PackageSource.registry fresh
    ≡ (installed_world, ok tt)
unfolding install_agent open_agent_hub.Cli.Install.carry_out open_agent_hub.Cli.Install.plan_install
    load_config resolve_package open_agent_hub.Cli.Source.resolve_from_registry parse_spec
    open_agent_hub.Cli.Version.cut open_agent_hub.Cli.Spec.is_word
    open_agent_hub.Cli.Spec.in_namespace open_agent_hub.Cli.Spec.is_letter_or_digit
    open_agent_hub.Cli.Spec.in_name open_agent_hub.Package.Signature.verify_signature_file_strict
    sign_archive open_agent_hub.Package.Signature.signature_payload open_agent_hub.Prelude.concat
    open_agent_hub.Cli.Install.check_package open_agent_hub.Cli.Install.check_requirements
    open_agent_hub.Cli.Install.finish_install open_agent_hub.Cli.Install.save_first
    open_agent_hub.Cli.Install.save_second grant_permissions place_files
    open_agent_hub.Cli.Source.registry_trust open_agent_hub.Permissions.agent_key
    requested_permissions open_agent_hub.Prelude.insert open_agent_hub.Prelude.lookup
    open_agent_hub.Prelude.spread
installed = refl

install_agent_records_example :
    (plan : Plan) × (saved : OpenAgentHubConfig) × (parse_spec "acme/weather" ≡ ok plan.spec)
    × ((url : String) × (resolve_package machine "acme/weather" PackageSource.registry url
          ≡ ok plan.resolved))
    × (plan.resolved.manifest.name ≡ full_name plan.spec)
    × ((place_files machine PackageSource.registry plan.resolved).1 ≡ ok tt)
    × (load_config installed_world.disk ≡ loaded saved)
    × (lookup_in (key_of plan) saved.installed ≡ some (installed_record machine plan))
    × ((p : Permission)
        → ((lookup p (granted_permissions saved (key_of plan)) ≡ some true) ↔ (
            In p (requested_permissions plan.resolved.manifest.permissions)
            × IsAgreed machine options plan.resolved.manifest.name
                (requested_permissions plan.resolved.manifest.permissions)
                p))
          × ((lookup p (granted_permissions saved (key_of plan)) ≡ none)
              ↔ (¬ (In p (requested_permissions plan.resolved.manifest.permissions)))))
install_agent_records_example =
    install_agent_records machine options PackageSource.registry "acme/weather" fresh
      installed_world installed

install_agent-IsVerified_example :
    (parsed : ParsedSpec) × (detail : AgentVersionDetail) × (archive : String)
    × (sig : SignatureFile) × (key : String) × (saved : OpenAgentHubConfig)
    × (agent : InstalledAgent) × (parse_spec "acme/weather" ≡ ok parsed)
    × (load_config installed_world.disk ≡ loaded saved)
    × (lookup_in key saved.installed ≡ some agent)
    × IsVerified machine parsed detail archive sig agent
install_agent-IsVerified_example =
    install_agent-IsVerified machine options "acme/weather" fresh installed_world installed

-- the disk is full at the second save
abbrev full_machine : Machine
full_machine = record machine { second_save = some "disk full" }

abbrev left_world : World
left_world = record installed_world {
  disk =
      (record_install (record { config = empty_config; disk = Disk.missing })
        (installed_record full_machine plan)).disk;
}

refused :
    install_agent full_machine options "acme/weather" PackageSource.registry fresh
    ≡ (left_world, thrown "disk full")
unfolding install_agent open_agent_hub.Cli.Install.carry_out open_agent_hub.Cli.Install.plan_install
    load_config resolve_package open_agent_hub.Cli.Source.resolve_from_registry parse_spec
    open_agent_hub.Cli.Version.cut open_agent_hub.Cli.Spec.is_word
    open_agent_hub.Cli.Spec.in_namespace open_agent_hub.Cli.Spec.is_letter_or_digit
    open_agent_hub.Cli.Spec.in_name open_agent_hub.Package.Signature.verify_signature_file_strict
    sign_archive open_agent_hub.Package.Signature.signature_payload open_agent_hub.Prelude.concat
    open_agent_hub.Cli.Install.check_package open_agent_hub.Cli.Install.check_requirements
    open_agent_hub.Cli.Install.finish_install open_agent_hub.Cli.Install.save_first
    open_agent_hub.Cli.Install.save_second grant_permissions place_files
    open_agent_hub.Cli.Source.registry_trust open_agent_hub.Permissions.agent_key
    requested_permissions open_agent_hub.Prelude.insert open_agent_hub.Prelude.lookup
    open_agent_hub.Prelude.spread
refused = refl

install_agent_fails_example :
    (left_world.disk ≡ fresh.disk)
    ⊎ ((plan : Plan) × (load_config fresh.disk ≡ loaded plan.config)
        × (full_machine.second_save ≡ some "disk full")
        × IsHalfSaved full_machine plan left_world.disk)
install_agent_fails_example =
    install_agent_fails full_machine options PackageSource.registry "acme/weather" fresh left_world
      "disk full" refused

abbrev found : DetectedRuntime
found = record {
  python = some "Python 3.12.1";
  node = none;
  docker = false;
  docker_version = none;
  ollama = false;
  uv = false;
  git = true;
}

-- a machine that is asked by the SDK, and a user who declines
abbrev declining : Machine
declining = record machine {
  missing_requirements = λ manifest. (check_agent_requirements manifest found).missing;
  confirm = λ question. false;
}

abbrev declined_plan : Plan
declined_plan = record plan { granted = ("network", false) ∷ ("filesystem", false) ∷ [] }

abbrev declined_world : World
declined_world = record installed_world {
  disk = (record_plan declining declined_plan Disk.missing).disk;
}

declined :
    install_agent declining options "acme/weather" PackageSource.registry fresh
    ≡ (declined_world, ok tt)
unfolding install_agent open_agent_hub.Cli.Install.carry_out open_agent_hub.Cli.Install.plan_install
    load_config resolve_package open_agent_hub.Cli.Source.resolve_from_registry parse_spec
    open_agent_hub.Cli.Version.cut open_agent_hub.Cli.Spec.is_word
    open_agent_hub.Cli.Spec.in_namespace open_agent_hub.Cli.Spec.is_letter_or_digit
    open_agent_hub.Cli.Spec.in_name open_agent_hub.Package.Signature.verify_signature_file_strict
    sign_archive open_agent_hub.Package.Signature.signature_payload open_agent_hub.Prelude.concat
    open_agent_hub.Cli.Install.check_package open_agent_hub.Cli.Install.check_requirements
    open_agent_hub.Cli.Install.finish_install open_agent_hub.Cli.Install.save_first
    open_agent_hub.Cli.Install.save_second grant_permissions place_files
    open_agent_hub.Cli.Source.registry_trust open_agent_hub.Permissions.agent_key
    requested_permissions open_agent_hub.Prelude.insert open_agent_hub.Prelude.lookup
    open_agent_hub.Prelude.spread check_agent_requirements
    open_agent_hub.Requirements.check_language open_agent_hub.Requirements.check_python
    open_agent_hub.Requirements.check_version open_agent_hub.Requirements.check_docker
    open_agent_hub.Requirements.check_system open_agent_hub.Requirements.Versions.version_satisfies
    open_agent_hub.Requirements.Versions.remove_first open_agent_hub.Requirements.Versions.after
declined = refl

install_agent_meets_example :
    (plan : Plan) × ((url : String) × (resolve_package declining "acme/weather"
          PackageSource.registry url
        ≡ ok plan.resolved))
    × HasLanguage plan.resolved.manifest found plan.resolved.manifest.runtime.language
    × (plan.resolved.manifest.runtime.sandbox ≡ some Manifest.container → found.docker ≡ true)
    × (system_of plan.resolved.manifest.dependencies ≡ [])
install_agent_meets_example =
    install_agent_meets declining options found PackageSource.registry "acme/weather" fresh
      declined_world (λ manifest. refl) refl (λ question. refl) declined
