-- ===== src/Permissions/Saved.antt =====
-- The file agrees with the object in memory, and each change concerns its own agent alone.
use open_agent_hub.Prelude.{
  String, Option, none, some, ◌≡◌, arith, refl, List, [], ◌∷◌, lookup_in, lookup-insert,
  lookup-remove, lookup-get_or_default, is_some, str_eq, if◌then◌else◌, eq_iff, Option-cases, inl,
  inr, get_or_default,
}
use mathlib.Core.Option
use open_agent_hub.Sandbox.Policy.{SandboxMode}
use open_agent_hub.Permissions.{
  GrantedPermissions, InstalledAgent, loaded, load_config, Store, record_install,
  record_status_refresh, save_granted_permissions, save_secret_grant, sandbox_override,
  set_sandbox_override, clear_sandbox_override,
}

-- The calls that change the configuration; texts named `now` are the time of the call.
pub data Change : Type 0 where
  install : InstalledAgent → Change
  refresh : (now key : String) → Option String → Change
  grant : String → GrantedPermissions → Change
  grant_secret : (key secret : String) → Change
  override : (now key : String) → SandboxMode → String → Change
  clear : String → Change

unfoldable pub apply : Store → Change → Store
apply s (install agent) = record_install s agent
apply s (refresh now key status) = record_status_refresh now s key status
apply s (grant key perms) = save_granted_permissions s key perms
apply s (grant_secret key secret) = save_secret_grant s key secret
apply s (override now key sandbox digest) = set_sandbox_override now s key sandbox digest
apply s (clear key) = (clear_sandbox_override s key).0

unfoldable pub apply_all : Store → List Change → Store
apply_all s [] = s
apply_all s (c ∷ cs) = apply_all (apply s c) cs

-- Reading the file gives back the object in memory.
abbrev pub IsSaved : Store → Type 0
IsSaved s = load_config s.disk ≡ loaded s.config

pub apply-IsSaved : (s : Store) (c : Change) → IsSaved s → IsSaved (apply s c)
unfolding apply record_install record_status_refresh save_granted_permissions save_secret_grant
    set_sandbox_override clear_sandbox_override load_config
apply-IsSaved s (install agent) h = refl
apply-IsSaved s (refresh now key status) h = ground arith
apply-IsSaved s (grant key perms) h = refl
apply-IsSaved s (grant_secret key secret) h = refl
apply-IsSaved s (override now key sandbox digest) h = refl
apply-IsSaved s (clear key) h = ground arith

-- After any changes the file agrees with the configuration in memory, if it did before.
pub apply_all-IsSaved : (s : Store) (cs : List Change) → IsSaved s → IsSaved (apply_all s cs)
unfolding apply_all
apply_all-IsSaved s [] h = h
apply_all-IsSaved s (c ∷ cs) h = apply_all-IsSaved (apply s c) cs (apply-IsSaved s c h)

-- the record that a refresh leaves for an agent
abbrev pub refreshed : String → Option String → InstalledAgent → InstalledAgent
refreshed now status agent = record agent { review_status = status; status_checked_at = some now }

-- Refreshing a status changes the review status and the time of the check of that agent, and
-- nothing for any other; an agent that is not installed is not added.
pub lookup-record_status_refresh :
    (now key j : String) (s : Store) (status : Option String)
    → lookup_in j (record_status_refresh now s key status).config.installed ≡ (
        if str_eq key j
        then Option.map (refreshed now status) (lookup_in j s.config.installed)
        else lookup_in j s.config.installed)
unfolding record_status_refresh
lookup-record_status_refresh now key j s status =
    elim (Option-cases (lookup_in key s.config.installed)) [
      | inl absent ↦ rw (absent, record_status_refresh) (ground (arith, eq_iff key j))
      | inr (agent, found) ↦
          let agent' = refreshed now status agent in
          rw (found, record_status_refresh)
            (ground (
              arith,
              found,
              eq_iff key j,
              lookup-get_or_default j s.config.installed,
              lookup-insert key j agent' (get_or_default s.config.installed []),
            ))
    ]

-- An override that was set is found again, bound to its digest; clearing it reports whether there
-- was one, and leaves none. Overrides of other agents stay as they were in both cases.
pub sandbox_override_laws :
    (now key j digest : String) (s : Store) (mode : SandboxMode)
    → (sandbox_override (set_sandbox_override now s key mode digest).config j ≡ (
        if str_eq key j
        then some (record { sandbox = mode; digest = digest; set_at = now })
        else sandbox_override s.config j))
      × ((clear_sandbox_override s key).1 ≡ is_some (sandbox_override s.config key))
      × (sandbox_override (clear_sandbox_override s key).0.config j
          ≡ (if str_eq key j then none else sandbox_override s.config j))
unfolding sandbox_override set_sandbox_override clear_sandbox_override
sandbox_override_laws now key j digest s mode = (
  simp (lookup-insert, lookup-get_or_default),
  ground arith,
  ground (
    arith,
    eq_iff key j,
    lookup-get_or_default j s.config.sandbox_overrides,
    lookup-remove key j (get_or_default s.config.sandbox_overrides []),
  ),
)
