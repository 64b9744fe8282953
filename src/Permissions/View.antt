-- ===== src/Permissions/View.antt =====
-- What a configuration says of each agent, and what each change to it is meant to do: an abstract
-- view of runtime/src/permissions.ts that the operations implement.
use open_agent_hub.Prelude.{
  String, Option, none, some, Bool, ◌&&◌, ◌||◌, ◌≡◌, refl, arith, List, [], ◌∷◌, ◌++◌, lookup,
  lookup_in, lookup-insert, lookup-get_or_default, includes, str_eq, if◌then◌else◌, eq_iff,
  get_or_default,
}
use mathlib.Core.Option
use open_agent_hub.Sandbox.Policy.{SandboxMode, SandboxOverride}
use open_agent_hub.Permissions.{
  GrantedPermissions, InstalledAgent, OpenAgentHubConfig, loaded, load_config, Store, agent_key,
  add_grant, record_install, record_status_refresh, save_granted_permissions, save_secret_grant,
  granted_permissions, granted_secret_names, sandbox_override, set_sandbox_override,
  clear_sandbox_override,
}
use open_agent_hub.Permissions.Saved.{
  Change, install, refresh, grant, grant_secret, override, clear, apply, apply_all, IsSaved,
  apply-IsSaved, refreshed, lookup-record_status_refresh, sandbox_override_laws,
}

pub record View : Type 0 where
  pub installed : String → Option InstalledAgent
  pub permissions : String → GrantedPermissions
  pub has_secret : String → String → Bool
  pub overrides : String → Option SandboxOverride

-- a function with another value at one key
abbrev pub update : {A : Type 0} → String → A → (String → A) → String → A
update key a f j = if str_eq key j then a else f j

abbrev pub change : View → Change → View
change v (install agent) = record v {
  installed = update (agent_key agent.namespace agent.name agent.version) (some agent) v.installed;
}
change v (refresh now key status) = record v {
  installed = update key (Option.map (refreshed now status) (v.installed key)) v.installed;
}
change v (grant key perms) = record v { permissions = update key perms v.permissions }
change v (grant_secret key secret) = record v {
  has_secret = λ j s. (str_eq key j && str_eq secret s) || v.has_secret j s;
}
change v (override now key sandbox digest) = record v {
  overrides =
      update key (some (record { sandbox = sandbox; digest = digest; set_at = now })) v.overrides;
}
change v (clear key) = record v { overrides = update key none v.overrides }

abbrev pub change_all : View → List Change → View
change_all v [] = v
change_all v (c ∷ cs) = change_all (change v c) cs

-- The configuration says what the view says, of every agent.
pub record Shows (c : OpenAgentHubConfig) (v : View) : Type 0 where
  pub installed : (j : String) → lookup_in j c.installed ≡ v.installed j
  pub permissions : (j : String) → granted_permissions c j ≡ v.permissions j
  pub secrets : (j s : String) → includes s (granted_secret_names j c) ≡ v.has_secret j s
  pub overrides : (j : String) → sandbox_override c j ≡ v.overrides j

includes-append :
    (k : String) (xs ys : List String) → includes k (xs ++ ys) ≡ (includes k xs || includes k ys)
includes-append k [] ys = refl
includes-append k (x ∷ xs) ys = ground (arith, includes-append k xs ys)

includes-add_grant :
    (secret k : String) (grants : List String)
    → includes k (add_grant secret grants) ≡ (str_eq secret k || includes k grants)
unfolding add_grant
includes-add_grant secret k grants =
    ground (arith, includes-append k grants (secret ∷ []), eq_iff secret k)

-- each operation, for a view that the configuration shows
module _ (s : Store) (v : View) (h : Shows s.config v) where
  install-Shows :
      (agent : InstalledAgent) → Shows (record_install s agent).config (change v (install agent))
  unfolding record_install granted_permissions granted_secret_names sandbox_override
  install-Shows agent =
      let key = agent_key agent.namespace agent.name agent.version in
      record {
        installed = λ j. ground (
          arith,
          lookup-insert key j agent (get_or_default s.config.installed []),
          lookup-get_or_default j s.config.installed,
          h.installed j,
        );
        permissions = h.permissions;
        secrets = h.secrets;
        overrides = h.overrides;
      }

  grant-Shows :
      (key : String) (perms : GrantedPermissions)
      → Shows (save_granted_permissions s key perms).config (change v (grant key perms))
  unfolding save_granted_permissions granted_permissions granted_secret_names sandbox_override
  grant-Shows key perms = record {
    installed = h.installed;
    permissions = λ j. ground (
      arith,
      lookup-insert key j perms (get_or_default s.config.permissions []),
      lookup-get_or_default j s.config.permissions,
      h.permissions j,
    );
    secrets = h.secrets;
    overrides = h.overrides;
  }

  kept_by_refresh :
      (now key : String) (status : Option String)
      → let c = (record_status_refresh now s key status).config in
        (c.permissions ≡ s.config.permissions)
        × (c.secret_grants ≡ s.config.secret_grants)
        × (c.sandbox_overrides ≡ s.config.sandbox_overrides)
  unfolding record_status_refresh
  kept_by_refresh now key status = ground arith

  refresh-Shows :
      (now key : String) (status : Option String)
      → Shows (record_status_refresh now s key status).config (change v (refresh now key status))
  unfolding granted_permissions granted_secret_names sandbox_override
  refresh-Shows now key status =
      let (same_permissions, same_secrets, same_overrides) = kept_by_refresh now key status in
      record {
        installed = λ j. ground (
          arith,
          lookup-record_status_refresh now key j s status,
          h.installed j,
          h.installed key,
          eq_iff key j,
        );
        permissions = λ j. ground (arith, same_permissions, h.permissions j);
        secrets = λ j k. ground (arith, same_secrets, h.secrets j k);
        overrides = λ j. ground (arith, same_overrides, h.overrides j);
      }

  secret-Shows :
      (key secret : String)
      → Shows (save_secret_grant s key secret).config (change v (grant_secret key secret))
  unfolding save_secret_grant granted_permissions granted_secret_names sandbox_override
  secret-Shows key secret =
      let all_grants = get_or_default s.config.secret_grants [] in
      let grants = get_or_default (lookup key all_grants) [] in
      record {
        installed = h.installed;
        permissions = h.permissions;
        secrets = λ j k. ground (
          arith,
          lookup-insert key j (add_grant secret grants) all_grants,
          lookup-get_or_default j s.config.secret_grants,
          includes-add_grant secret k grants,
          h.secrets j k,
          eq_iff key j,
        );
        overrides = h.overrides;
      }

  override-Shows :
      (now key : String) (mode : SandboxMode) (digest : String)
      → Shows
          (set_sandbox_override now s key mode digest).config
          (change v (override now key mode digest))
  unfolding set_sandbox_override granted_permissions granted_secret_names
  override-Shows now key mode digest = record {
    installed = h.installed;
    permissions = h.permissions;
    secrets = h.secrets;
    overrides =
        λ j. ground (arith, (sandbox_override_laws now key j digest s mode).0, h.overrides j);
  }

  kept_by_clear :
      (key : String)
      → let c = (clear_sandbox_override s key).0.config in
        (c.installed ≡ s.config.installed)
        × (c.permissions ≡ s.config.permissions)
        × (c.secret_grants ≡ s.config.secret_grants)
  unfolding clear_sandbox_override
  kept_by_clear key = ground arith

  clear-Shows :
      (key : String) → Shows (clear_sandbox_override s key).0.config (change v (clear key))
  unfolding granted_permissions granted_secret_names
  clear-Shows key =
      let (same_installed, same_permissions, same_secrets) = kept_by_clear key in
      record {
        installed = λ j. ground (arith, same_installed, h.installed j);
        permissions = λ j. ground (arith, same_permissions, h.permissions j);
        secrets = λ j k. ground (arith, same_secrets, h.secrets j k);
        overrides = λ j.
            ground
              (arith, (sandbox_override_laws "" key j "" s SandboxMode.process).2, h.overrides j);
      }

apply-Shows :
    (s : Store) (v : View) (c : Change) → Shows s.config v → Shows (apply s c).config (change v c)
unfolding apply
apply-Shows s v (install agent) h = install-Shows s v h agent
apply-Shows s v (refresh now key status) h = refresh-Shows s v h now key status
apply-Shows s v (grant key perms) h = grant-Shows s v h key perms
apply-Shows s v (grant_secret key secret) h = secret-Shows s v h key secret
apply-Shows s v (override now key mode digest) h = override-Shows s v h now key mode digest
apply-Shows s v (clear key) h = clear-Shows s v h key

-- Any sequence of changes to a configuration that agrees with its file leaves in the file exactly what
-- it is meant to: for every agent, the record, permissions, secrets and override that are read back
-- are those of the view that each change updates at its own key alone.
pub apply_all-Shows :
    (s : Store) (v : View) (cs : List Change)
    → IsSaved s
    → Shows s.config v
    → (c : OpenAgentHubConfig) × (load_config (apply_all s cs).disk ≡ loaded c)
      × Shows c (change_all v cs)
unfolding apply_all
apply_all-Shows s v [] saved h = (s.config, saved, h)
apply_all-Shows s v (c ∷ cs) saved h =
    apply_all-Shows (apply s c) (change v c) cs (apply-IsSaved s c saved) (apply-Shows s v c h)
