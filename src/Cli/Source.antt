-- ===== src/Cli/Source.antt =====
-- Where an agent to be installed comes from: `resolveFromRegistry`, `resolveFromFile` and
-- `resolveFromDir` of cli/src/lib/installer.ts. The registry's answers, the files of archives,
-- manifests and projects, the check of what the machine has and the user's answers are arguments. An
-- archive is a text, as for its signature.
use open_agent_hub.Prelude.{
  String, Option, none, some, Bool, if◌then◌else◌, List, [], ◌∷◌, includes, str_eq, concat,
  get_or_default, Result, ok, thrown, throw_if, ◌>>=◌, ◌>>◌,
}
use open_agent_hub.Manifest.{Manifest}
use open_agent_hub.Package.Signature.{Crypto, SignatureFile, verify_signature_file_strict}
use open_agent_hub.Sandbox.Policy.{TrustLevel, local, untrusted, unknown}
use open_agent_hub.Cli.Prepare.{ParsedSpec}
use open_agent_hub.Cli.Spec.{parse_spec}

-- `archive_path` stands for the archive at that path.
pub record ResolvedPackage : Type 0 where
  pub manifest : Manifest
  pub archive_path : Option String
  pub signature : Option SignatureFile
  pub trust : TrustLevel
  pub source : String
  pub review_status : Option String
  pub status_checked_at : Option String

-- what `getVersion` answers
pub record AgentVersionDetail : Type 0 where
  pub manifest : Manifest
  pub trust : Option TrustLevel
  pub security : Option String
  pub review_status : Option String
  pub review_reason : Option String

pub data PackageSource : Type 0 where
  registry : PackageSource
  file dir : String → PackageSource

-- What an installation meets. `first_save` and `second_save` are the errors of `saveConfig`, at its
-- first and at its second call, if it throws there. `unpack` gives the manifest of an archive, `unpack_into` the files that
-- it leaves in the directory and whether it ends without an error.
pub record Machine : Type 0 where
  pub crypto : Crypto
  pub now : String
  pub registry_default : String
  pub get_version : String → String → String → Result AgentVersionDetail
  pub download_archive : String → String → String → Result (String × SignatureFile)
  pub read_archive : String → Result String
  pub read_signature_file : String → Result SignatureFile
  pub load_manifest : String → Result Manifest
  pub unpack : String → Result Manifest
  pub unpack_into : String → List String × Result (Unit {0})
  pub project_files : String → Result (List String)
  pub missing_requirements : Manifest → List String
  pub confirm : String → Bool
  pub agent_dir : String → String → String → String
  pub first_save : Option String
  pub second_save : Option String

-- `["rejected", "revoked"].includes(detail.reviewStatus ?? "")`
abbrev pub is_blocked_status : Option String → Bool
is_blocked_status status = includes (get_or_default status "") ("rejected" ∷ "revoked" ∷ [])

-- `detail.security?.status === "flagged" ? "untrusted" : (detail.trust ?? "unknown")`
unfoldable pub registry_trust : AgentVersionDetail → TrustLevel
registry_trust detail =
    if str_eq (get_or_default detail.security "") "flagged"
    then untrusted
    else get_or_default detail.trust unknown

unfoldable pub blocked_message : ParsedSpec → AgentVersionDetail → String
blocked_message spec detail = concat (
    "version "
    ∷ spec.namespace
    ∷ "/"
    ∷ spec.name
    ∷ "@"
    ∷ detail.manifest.version
    ∷ " is "
    ∷ get_or_default detail.review_status ""
    ∷ " by the registry: "
    ∷ get_or_default detail.review_reason "no reason recorded"
    ∷ [])

-- the checks on what the registry sent, and the package
unfoldable pub registry_package :
    Machine
    → String
    → ParsedSpec
    → AgentVersionDetail
    → String × SignatureFile
    → Result ResolvedPackage
registry_package m registry_url spec detail (archive, sig) = do
  verify_signature_file_strict m.crypto sig archive
  throw_if (is_blocked_status detail.review_status) (blocked_message spec detail)
  ok (record {
    manifest = detail.manifest;
    archive_path = some archive;
    signature = some sig;
    trust = registry_trust detail;
    source = concat (
        registry_url ∷ "/api/v1/agents/" ∷ spec.namespace ∷ "/" ∷ spec.name ∷ "/versions/"
        ∷ detail.manifest.version ∷ "/archive" ∷ []);
    review_status = detail.review_status;
    status_checked_at = some m.now;
  })

unfoldable pub resolve_from_registry : Machine → String → String → Result ResolvedPackage
unfolding registry_package
resolve_from_registry m spec registry_url = do
  parsed ← parse_spec spec
  detail ← m.get_version parsed.namespace parsed.name (get_or_default parsed.version "latest")
  sent ← m.download_archive parsed.namespace parsed.name detail.manifest.version
  registry_package m registry_url parsed detail sent

-- the signature file beside an archive, if it is there and passes the strict check
abbrev checked_signature : Crypto → Result SignatureFile → String → Option SignatureFile
checked_signature crypto (thrown e) archive = none
checked_signature crypto (ok sig) archive = elim (verify_signature_file_strict crypto sig archive) [
  | thrown e ↦ none
  | ok nothing ↦ some sig
]

unfoldable pub resolve_from_file : Machine → String → Result ResolvedPackage
resolve_from_file m path = m.read_archive path >>= λ archive. m.unpack archive >>= λ manifest.
    ok (record {
      manifest = manifest;
      archive_path = some archive;
      signature =
          checked_signature m.crypto (m.read_signature_file (concat (path ∷ ".sig.json" ∷ [])))
            archive;
      trust = unknown;
      source = concat ("file:" ∷ path ∷ []);
      review_status = none;
      status_checked_at = none;
    })

unfoldable pub resolve_from_dir : Machine → String → Result ResolvedPackage
resolve_from_dir m path = m.load_manifest path >>= λ manifest. ok (record {
  manifest = manifest;
  archive_path = none;
  signature = none;
  trust = local;
  source = concat ("dir:" ∷ path ∷ []);
  review_status = none;
  status_checked_at = none;
})

unfoldable pub resolve_package : Machine → String → PackageSource → String → Result ResolvedPackage
resolve_package m spec registry url = resolve_from_registry m spec url
resolve_package m spec (file path) url = resolve_from_file m path
resolve_package m spec (dir path) url = resolve_from_dir m path
