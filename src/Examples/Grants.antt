-- ===== src/Examples/Grants.antt =====
-- Permissions, secrets and overrides of agents at concrete inputs.
use open_agent_hub.Prelude.{
  ok, String, Option, none, some, Bool, true, false, ◌≡◌, ◌≢◌, ◌↔◌, ◌⊎◌, inl, inr, refl, arith,
  List, [], ◌∷◌, In, Distinct, lookup_in, str_eq, if◌then◌else◌, is_some,
}
use open_agent_hub.Sandbox.Policy.{TrustLevel}
use open_agent_hub.Permissions.{
  Disk, loaded, GrantedPermissions, InstalledAgent, OpenAgentHubConfig, json, load_config, Store,
  empty_config, effective_permissions,
}
use open_agent_hub.Permissions.Grants.{effective_permissions_iff, named}
use open_agent_hub.Permissions.Saved.{
  Change, install, refresh, grant, grant_secret, clear, apply_all, IsSaved, refreshed,
}
use open_agent_hub.Permissions.View.{View, Shows, change_all, apply_all-Shows}
use open_agent_hub.Prelude.{includes}
use open_agent_hub.Permissions.{granted_secret_names, granted_permissions, sandbox_override}
use open_agent_hub.Revocation.{
  RevocationItem, RevocationCheck, installed_is_fresh, check_revocation_before_run,
}
use open_agent_hub.Revocation.Refreshing.{IsListed, check_revocation_before_run_lem}
use open_agent_hub.Examples.Data.{weather}

abbrev saved_grants : GrantedPermissions
saved_grants = ("network", true) ∷ ("filesystem", false) ∷ []

effective_permissions_iff_example :
    In "network" (effective_permissions weather.permissions saved_grants) ↔ (
      In "network" (named weather.permissions)
      × (¬ (In "none" (named weather.permissions)))
      × In {A = String × Bool} ("network", true) saved_grants)
effective_permissions_iff_example =
    effective_permissions_iff weather.permissions saved_grants "network"

abbrev agent : InstalledAgent
agent = record {
  name = "weather";
  namespace = "acme";
  version = "1.2.0";
  author = "acme";
  trust = TrustLevel.trusted;
  installed_at = "2026-01-01";
  source = "registry";
  signature_key_id = none;
  review_status = some "pending";
  status_checked_at = none;
  archive_digest = none;
}

abbrev config : OpenAgentHubConfig
config = record empty_config {
  installed = some (("acme/weather@1.2.0", agent) ∷ []);
  secret_grants = some (("acme/weather@1.2.0", "OPENAI_API_KEY" ∷ []) ∷ []);
}

abbrev store : Store
store = record { config = config; disk = json config }

saved : IsSaved store
unfolding load_config
saved = refl

abbrev changes : List Change
changes =
    install agent
    ∷ refresh "2026-02-01" "acme/weather@1.2.0" (some "revoked")
    ∷ grant "acme/weather@1.2.0" (("network", true) ∷ [])
    ∷ grant_secret "acme/weather@1.2.0" "GITHUB_TOKEN"
    ∷ clear "acme/weather@1.2.0"
    ∷ []

-- what the configuration says
abbrev view : View
view = record {
  installed = λ j. lookup_in j config.installed;
  permissions = granted_permissions config;
  has_secret = λ j s. includes s (granted_secret_names j config);
  overrides = sandbox_override config;
}

shown : Shows config view
shown = record {
  installed = λ j. refl;
  permissions = λ j. refl;
  secrets = λ j s. refl;
  overrides = λ j. refl;
}

apply_all-Shows_example :
    (c : OpenAgentHubConfig) × (load_config (apply_all store changes).disk ≡ loaded c)
    × Shows c (change_all view changes)
apply_all-Shows_example = apply_all-Shows store view changes saved shown

abbrev listed : List RevocationItem
listed =
    record {
      namespace = "acme";
      name = "weather";
      version = "1.2.0";
      digest = "d1";
      reason = "steals tokens";
      review_status = "revoked";
    }
    ∷ []

unchecked_agent : installed_is_fresh (λ t. 0) agent ≡ false
unfolding installed_is_fresh
unchecked_agent = refl

installed_agent : lookup_in "acme/weather@1.2.0" config.installed ≡ some agent
unfolding open_agent_hub.Prelude.lookup
installed_agent = refl

check_revocation_before_run_lem_example :
    (disk : Disk) × (check : RevocationCheck) × (check_revocation_before_run
        (λ t. 0)
        "2026-02-01"
        (json config)
        "acme/weather@1.2.0"
        agent
        "https://registry.example"
        (some listed)
      ≡ ok (disk, check))
    × ((check.blocked ≢ none) ↔ IsListed agent listed)
    × (check.status_fresh ≡ true)
    × ((after : OpenAgentHubConfig) × (load_config disk ≡ loaded after)
        × ((status : Option String) × (lookup_in "acme/weather@1.2.0" after.installed
              ≡ some (refreshed "2026-02-01" status agent))
            × ((status ≡ agent.review_status)
                ⊎ ((i : RevocationItem) × In i listed × (status ≡ some i.review_status)))))
check_revocation_before_run_lem_example =
    check_revocation_before_run_lem (λ t. 0) "2026-02-01" "acme/weather@1.2.0"
      "https://registry.example" config agent listed refl unchecked_agent installed_agent
