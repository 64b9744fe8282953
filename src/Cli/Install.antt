-- ===== src/Cli/Install.antt =====
-- `installAgent` of cli/src/lib/installer.ts: an agent is checked, unpacked and recorded. What is
-- printed is left out.
use open_agent_hub.Prelude.{
  ℕ, String, Option, none, some, Bool, true, false, ◌&&◌, ◌||◌, not, if◌then◌else◌, List, [], ◌∷◌,
  ◌++◌, map, includes, is_some, str_eq, lookup_in, lookup, insert, spread, truthy, concat, join,
  get_or_default, Object, Result, ok, thrown, throw_if, ◌>>=◌, ◌>>◌,
}
use open_agent_hub.Manifest.{Manifest, Permission}
use open_agent_hub.Permissions.{
  GrantedPermissions, InstalledAgent, OpenAgentHubConfig, Store, Disk, Loaded, loaded,
  config_corrupt_error, load_config, agent_key, record_install, save_granted_permissions,
  requested_permissions, is_none_only,
}
use open_agent_hub.Package.Signature.{Crypto, SignatureFile, verify_signature_file_strict}
use open_agent_hub.Sandbox.Policy.{TrustLevel, trusted, local, untrusted, unknown}
use open_agent_hub.Cli.Prepare.{ParsedSpec}
use open_agent_hub.Cli.Spec.{parse_spec}
use open_agent_hub.Cli.Source.{
  Machine, ResolvedPackage, PackageSource, registry, file, dir, resolve_package,
}
pub mod Recorded
pub mod Signed
pub mod Required
pub mod Granted
pub mod Failing

pub record InstallOptions : Type 0 where
  pub force_yes : Bool
  pub no_permissions : Bool
  pub registry_url : Option String
  pub force : Bool

abbrev pub is_empty : List Permission → Bool
is_empty [] = true
is_empty (_ ∷ _) = false

abbrev pub grant_question : String → Permission → String
grant_question agent p = concat ("grant '" ∷ p ∷ "' permission to " ∷ agent ∷ "?" ∷ [])

-- `granted`, filled in the order of the permissions
unfoldable pub grant_permissions :
    Machine → InstallOptions → Manifest → List Permission → GrantedPermissions
grant_permissions m opts manifest perms =
    let answer : Permission → Bool =
      λ p. opts.force_yes || m.confirm (grant_question manifest.name p) in
    let granted : Permission → Bool = λ p.
      if is_empty perms || is_none_only perms
      then true
      else if opts.no_permissions
      then false
      else answer p in
    spread [] (map (λ p. (p, granted p)) perms)

unfoldable pub check_requirements : Machine → InstallOptions → Manifest → Result (Unit {0})
check_requirements m opts manifest =
    let missing = m.missing_requirements manifest in
    let question =
      concat ("missing runtime components (" ∷ join ", " missing ∷ "). install anyway?" ∷ []) in
    throw_if (not (is_empty missing) && not opts.force_yes && not (m.confirm question))
      "aborted: missing runtime requirements"

-- What is to be installed, and the configuration that was read at the start.
pub record Plan : Type 0 where
  pub config : OpenAgentHubConfig
  pub spec : ParsedSpec
  pub resolved : ResolvedPackage
  pub granted : GrantedPermissions

abbrev pub read_config : Loaded → Result OpenAgentHubConfig
read_config config_corrupt_error = thrown "the configuration is corrupt"
read_config (loaded config) = ok config

abbrev pub full_name : ParsedSpec → String
full_name spec = concat (spec.namespace ∷ "/" ∷ spec.name ∷ [])

abbrev pub already : OpenAgentHubConfig → String → Bool
already config key = is_some (lookup_in key config.installed)

-- the checks on a resolved package
unfoldable pub check_package :
    Machine → InstallOptions → OpenAgentHubConfig → ResolvedPackage → ParsedSpec → Result Plan
check_package m opts config resolved spec =
    let manifest = resolved.manifest in
    let key = agent_key spec.namespace spec.name manifest.version in
    do
      throw_if (not (str_eq manifest.name (full_name spec))) (
          concat (
            "manifest name '"
            ∷ manifest.name
            ∷ "' does not match requested spec '"
            ∷ full_name spec
            ∷ "'"
            ∷ []))
      throw_if (already config key && not opts.force) (
          concat (
            key ∷ " is already installed (reinstall with: openagenthub install " ∷ key ∷ " --force)"
            ∷ []))
      check_requirements m opts manifest
      ok (record {
        config = config;
        spec = spec;
        resolved = resolved;
        granted = grant_permissions m opts manifest (requested_permissions manifest.permissions);
      })

-- `installAgent` up to the first change
unfoldable pub plan_install : Machine → InstallOptions → String → PackageSource → Disk → Result Plan
plan_install m opts spec source disk = read_config (load_config disk) >>= λ config.
    resolve_package m spec source
      (get_or_default opts.registry_url (get_or_default config.registry_url m.registry_default))
    >>= λ resolved. parse_spec spec >>= λ parsed. check_package m opts config resolved parsed

-- The configuration file, and the files of each agent's directory.
pub record World : Type 0 where
  pub disk : Disk
  pub directories : Object (List String)

-- the files that end up in the directory of the agent
abbrev extra_files : Option SignatureFile → List String
extra_files none = []
extra_files (some sig) = "signature.sig.json" ∷ "archive.ahb" ∷ []

abbrev with_extra :
    List String × Result (Unit {0}) → Option SignatureFile → List String × Result (Unit {0})
with_extra (files, thrown e) sig = (files, thrown e)
with_extra (files, ok nothing) sig = (files ++ extra_files sig, ok nothing)

abbrev copied : Result (List String) → List String × Result (Unit {0})
copied (thrown e) = ([], thrown e)
copied (ok files) = (files, ok tt)

-- A package without an archive comes from a directory; the path is what follows `dir:`.
unfoldable pub place_files :
    Machine → PackageSource → ResolvedPackage → List String × Result (Unit {0})
place_files m source resolved = elim resolved.archive_path [
  | some archive ↦ with_extra (m.unpack_into archive) resolved.signature
  | none ↦ elim source [
    | dir path ↦ copied (m.project_files path)
    | registry ↦ ([], ok tt)
    | file path ↦ ([], ok tt)
  ]
]

abbrev key_id : Option SignatureFile → Option String
key_id none = none
key_id (some sig) = some sig.public_key_id

abbrev digest_of : Crypto → Option String → Option String
digest_of crypto none = none
digest_of crypto (some archive) = some (crypto.sha256_hex archive)

unfoldable pub installed_record : Machine → Plan → InstalledAgent
installed_record m plan = record {
  name = plan.spec.name;
  namespace = plan.spec.namespace;
  version = plan.resolved.manifest.version;
  author = plan.resolved.manifest.author;
  trust = plan.resolved.trust;
  installed_at = m.now;
  source = plan.resolved.source;
  signature_key_id = key_id plan.resolved.signature;
  review_status = plan.resolved.review_status;
  status_checked_at = plan.resolved.status_checked_at;
  archive_digest = digest_of m.crypto plan.resolved.archive_path;
}

-- `recordInstall` and `saveGrantedPermissions`
unfoldable pub record_plan : Machine → Plan → Disk → Store
record_plan m plan disk =
    let s =
      record_install (record { config = plan.config; disk = disk }) (installed_record m plan) in
    save_granted_permissions s
      (agent_key plan.spec.namespace plan.spec.name plan.resolved.manifest.version) plan.granted

-- `saveGrantedPermissions`, unless it throws; the agent is recorded already
unfoldable pub save_second : Machine → Plan → World → Option String → World × Result (Unit {0})
save_second m plan w (some e) = (
  record w {
    disk =
        (record_install (record { config = plan.config; disk = w.disk })
          (installed_record m plan)).disk;
  },
  thrown e,
)
save_second m plan w none = (record w { disk = (record_plan m plan w.disk).disk }, ok tt)

-- `recordInstall`, unless it throws, and what follows
unfoldable pub save_first : Machine → Plan → World → Option String → World × Result (Unit {0})
save_first m plan w (some e) = (w, thrown e)
save_first m plan w none = save_second m plan w m.second_save

unfoldable pub finish_install :
    Machine → Plan → World → Result (Unit {0}) → World × Result (Unit {0})
finish_install m plan w (thrown e) = (w, thrown e)
finish_install m plan w (ok nothing) = save_first m plan w m.first_save

-- the directory is emptied and filled, and the agent recorded
unfoldable pub carry_out : Machine → PackageSource → World → Result Plan → World × Result (Unit {0})
carry_out m source w (thrown e) = (w, thrown e)
carry_out m source w (ok plan) =
    let dest = m.agent_dir plan.spec.namespace plan.spec.name plan.resolved.manifest.version in
    let (files, done) = place_files m source plan.resolved in
    finish_install m plan (record w { directories = insert dest files w.directories }) done

unfoldable pub install_agent :
    Machine → InstallOptions → String → PackageSource → World → World × Result (Unit {0})
install_agent m opts spec source w = carry_out m source w (plan_install m opts spec source w.disk)
