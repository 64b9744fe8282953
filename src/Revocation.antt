-- ===== src/Revocation.antt =====
-- cli/src/lib/revocation.ts: the review status of an installed agent is refreshed before a run. The
-- registry's answer is an argument, absent where the registry cannot be reached; the time since a
-- check, in milliseconds, is a function of the text that records it.
use open_agent_hub.Prelude.{
  String, Option, none, some, Bool, true, false, ◌&&◌, ◌||◌, if◌then◌else◌, List, [], ◌∷◌, ℕ, ◌*◌,
  ltb, find, str_eq, is_text, truthy, get_or_default, concat, Result, ok, thrown,
}
use open_agent_hub.Permissions.{
  InstalledAgent, OpenAgentHubConfig, Store, Disk, loaded, config_corrupt_error, load_config,
  record_status_refresh,
}
pub mod Refreshing

pub record RevocationItem : Type 0 where
  pub namespace : String
  pub name : String
  pub version : String
  pub digest : String
  pub reason : String
  pub review_status : String

pub record RevocationCheck : Type 0 where
  pub blocked : Option String
  pub stale_warning : Option String
  pub status_fresh : Bool

unfoldable pub installed_is_fresh : (String → ℕ) → InstalledAgent → Bool
installed_is_fresh elapsed installed =
    if truthy installed.status_checked_at
    then ltb (elapsed (get_or_default installed.status_checked_at "")) (60 * 60 * 1000)
    else false

unfoldable pub concerns : InstalledAgent → RevocationItem → Bool
concerns installed i =
    str_eq i.namespace installed.namespace
    && str_eq i.name installed.name
    && (str_eq i.version installed.version || is_text installed.archive_digest i.digest)

abbrev unchecked : Bool → Option String → RevocationCheck
unchecked fresh warning = record { blocked = none; stale_warning = warning; status_fresh = fresh }

-- what is saved and answered once the registry has answered
unfoldable pub refresh_from :
    String → Store → String → InstalledAgent → Option RevocationItem → Disk × RevocationCheck
refresh_from now s key installed (some i) = (
  (record_status_refresh now s key (some i.review_status)).disk,
  record {
    blocked = some (concat ("agent was " ∷ i.review_status ∷ " by the registry: " ∷ i.reason ∷ []));
    stale_warning = none;
    status_fresh = true;
  },
)
refresh_from now s key installed none =
    ((record_status_refresh now s key installed.review_status).disk, unchecked true none)

unfoldable pub check_revocation_before_run :
    (String → ℕ)
    → String
    → Disk
    → String
    → InstalledAgent
    → String
    → Option (List RevocationItem)
    → Result (Disk × RevocationCheck)
check_revocation_before_run elapsed now disk key installed registry_url answer =
    if str_eq registry_url ""
    then ok (disk, unchecked false none)
    else if installed_is_fresh elapsed installed
    then ok (disk, unchecked true none)
    else elim answer [
      | none ↦ ok (
        disk,
        unchecked false (
            some (
              concat (
                "cannot reach "
                ∷ registry_url
                ∷ " to refresh status; last known review status is '"
                ∷ get_or_default installed.review_status "unknown"
                ∷ "'"
                ∷ []))),
      )
      | some items ↦ elim (load_config disk) [
        | config_corrupt_error ↦ thrown "the configuration is corrupt"
        | loaded config ↦ ok (
            refresh_from now (record { config = config; disk = disk }) key installed
              (find (concerns installed) items))
      ]
    ]
