-- ===== src/Cli/Prepare/Gated.antt =====
-- What a prepared run has passed, and what the runtime then starts.
use open_agent_hub.Prelude.{
  String, ◌≡◌, ◌≢◌, refl, sym, subst, ap, arith, inl, inr, Bool, true, false, not, List, [], ◌∷◌,
  keep, In, In-of_keep, In-of_keys, Bool-cases, eq_iff, str_eq, truthy, Object, Result, ok, thrown,
}
use open_agent_hub.Manifest.{Manifest, Permission}
use open_agent_hub.Models.{ModelConfig}
use open_agent_hub.Permissions.{
  OpenAgentHubConfig, Store, Disk, Loaded, loaded, config_corrupt_error, load_config,
  granted_permissions, save_secret_grant,
}
use open_agent_hub.Permissions.Grants.{named}
use open_agent_hub.Revocation.{RevocationCheck, check_revocation_before_run}
use open_agent_hub.Sandbox.Policy.{SandboxMode}
use open_agent_hub.Sandbox.Policy.Laws.{IsBlocked}
use open_agent_hub.Sandbox.Spec.{SandboxSpec, RunOptions}
use open_agent_hub.Runtime.{Surroundings, start}
use open_agent_hub.Runtime.Gates.{IsGated, run_agent-IsGated}
use open_agent_hub.Cli.Resolve.{InstalledMatch, resolve_installed_or_throw}
use open_agent_hub.Cli.Prepare.{
  ParsedSpec, RunContext, PrepareOptions, Setting, to_ask, newly_granted, save_secret_grants,
  granted_list, context_of, expose, with_secrets, after_check, registry_of, with_manifest,
  with_match, with_config, prepare_run_context, ExecuteOptions, run_options, execute_agent_run,
}

-- The way a preparation that succeeds went.
pub record WentThrough (at : Setting) (opts : PrepareOptions) (spec : ParsedSpec)
    (before after : Disk) (ctx : RunContext) : Type 0 where
  pub config : OpenAgentHubConfig
  pub match_ : InstalledMatch
  pub manifest : Manifest
  pub between : Disk
  pub check : RevocationCheck
  pub stored : Object String
  pub read : load_config before ≡ loaded config
  pub resolved :
      resolve_installed_or_throw at.locale_compare at.decimal config spec.namespace spec.name
        spec.version
      ≡ ok match_
  pub declared :
      at.load_manifest (at.agent_dir spec.namespace spec.name match_.record_.version) ≡ ok manifest
  pub checked :
      check_revocation_before_run at.elapsed at.now before match_.key match_.record_
        (registry_of at config)
        at.answer
      ≡ ok (between, check)
  pub free : truthy check.blocked ≡ false
  pub opened : at.vault match_.key ≡ ok stored
  pub exposed :
      expose opts spec match_
        (at.agent_dir spec.namespace spec.name match_.record_.version)
        manifest
        (record { config = config; disk = between })
        stored
        check.status_fresh
      ≡ (after, ok ctx)

module _ (at : Setting) (opts : PrepareOptions) (spec : ParsedSpec) (before after : Disk)
    (ctx : RunContext) where
  -- each step that may throw, by its result
  with_secrets_ok :
      (m : InstalledMatch) (dir : String) (manifest : Manifest) (s : Store) (fresh : Bool)
      (vault : Result (Object String))
      → with_secrets opts spec m dir manifest s fresh vault ≡ (after, ok ctx)
      → (stored : Object String) × (vault ≡ ok stored)
        × (expose opts spec m dir manifest s stored fresh ≡ (after, ok ctx))
  unfolding with_secrets
  with_secrets_ok m dir manifest s fresh (thrown e) h = ground arith
  with_secrets_ok m dir manifest s fresh (ok stored) h = (stored, refl, h)

  after_check_ok :
      (m : InstalledMatch) (dir : String) (manifest : Manifest) (config : OpenAgentHubConfig)
      (answer : Result (Disk × RevocationCheck))
      → after_check at opts spec m dir manifest config before answer ≡ (after, ok ctx)
      → (between : Disk) × (check : RevocationCheck) × (answer ≡ ok (between, check))
        × (truthy check.blocked ≡ false)
        × (with_secrets opts spec m dir manifest
              (record { config = config; disk = between })
              check.status_fresh
              (at.vault m.key)
            ≡ (after, ok ctx))
  unfolding after_check
  after_check_ok m dir manifest config (thrown e) h = ground arith
  after_check_ok m dir manifest config (ok (between, check)) h =
      elim (Bool-cases (truthy check.blocked)) [
        | inl e ↦ absurd (ground arith)
        | inr e ↦ (between, check, refl, e, rw e at h)
      ]

  with_manifest_ok :
      (m : InstalledMatch) (dir : String) (config : OpenAgentHubConfig) (found : Result Manifest)
      → with_manifest at opts spec m dir config before found ≡ (after, ok ctx)
      → (manifest : Manifest) × (found ≡ ok manifest)
        × (after_check at opts spec m dir manifest config before (
              check_revocation_before_run at.elapsed at.now before m.key m.record_
                (registry_of at config)
                at.answer)
            ≡ (after, ok ctx))
  unfolding with_manifest
  with_manifest_ok m dir config (thrown e) h = ground arith
  with_manifest_ok m dir config (ok manifest) h = (manifest, refl, h)

  with_match_ok :
      (config : OpenAgentHubConfig) (found : Result InstalledMatch)
      → with_match at opts spec config before found ≡ (after, ok ctx)
      → (m : InstalledMatch) × (found ≡ ok m)
        × (with_manifest at opts spec m
              (at.agent_dir spec.namespace spec.name m.record_.version)
              config
              before
              (at.load_manifest (at.agent_dir spec.namespace spec.name m.record_.version))
            ≡ (after, ok ctx))
  unfolding with_match
  with_match_ok config (thrown e) h = ground arith
  with_match_ok config (ok m) h =
      elim (Bool-cases (at.dir_exists (at.agent_dir spec.namespace spec.name m.record_.version))) [
        | inl e ↦ (m, refl, rw e at h)
        | inr e ↦ absurd (ground arith)
      ]

  with_config_ok :
      (found : Loaded)
      → with_config at opts spec before found ≡ (after, ok ctx)
      → (config : OpenAgentHubConfig) × (found ≡ loaded config)
        × (with_match at opts spec config before (
              resolve_installed_or_throw at.locale_compare at.decimal config spec.namespace
                spec.name spec.version)
            ≡ (after, ok ctx))
  unfolding with_config
  with_config_ok config_corrupt_error h = ground arith
  with_config_ok (loaded config) h = (config, refl, h)

  -- A preparation that succeeds read the configuration, resolved the request, found the manifest,
  -- passed the revocation check unblocked, opened the vault and exposed the secrets.
  pub prepare_run_context_went :
      prepare_run_context at opts spec before ≡ (after, ok ctx)
      → WentThrough at opts spec before after ctx
  unfolding prepare_run_context
  prepare_run_context_went h =
      let (config, read, h1) = with_config_ok (load_config before) h in
      let (m, resolved, h2) = with_match_ok config _ h1 in
      let dir = at.agent_dir spec.namespace spec.name m.record_.version in
      let (manifest, declared, h3) = with_manifest_ok m dir config _ h2 in
      let (between, check, checked, free, h4) = after_check_ok m dir manifest config _ h3 in
      let (stored, opened, h5) = with_secrets_ok m dir manifest _ check.status_fresh _ h4 in
      record {
        config = config;
        match_ = m;
        manifest = manifest;
        between = between;
        check = check;
        stored = stored;
        read = read;
        resolved = resolved;
        declared = declared;
        checked = checked;
        free = free;
        opened = opened;
        exposed = h5;
      }

granted_permissions-save_secret_grants :
    (names : List String) (s : Store) (key k : String)
    → granted_permissions (save_secret_grants s key names).config k ≡ granted_permissions s.config k
unfolding save_secret_grants granted_permissions save_secret_grant
granted_permissions-save_secret_grants [] s key k = refl
granted_permissions-save_secret_grants (n ∷ names) s key k =
    granted_permissions-save_secret_grants names (save_secret_grant s key n) key k

In-of_granted_list :
    (config : OpenAgentHubConfig) (key : String) (p : Permission)
    → In p (granted_list config key)
    → In (p, true) (granted_permissions config key) × (p ≢ "none")
unfolding granted_list
In-of_granted_list config key p h =
    let (m, t) = In-of_keep (λ k. not (str_eq k "none")) _ h in
    let (v, k) =
      In-of_keys p (keep (λ (e : String × Bool). e.1) (granted_permissions config key)) m in
    let (i, u) = In-of_keep (λ (e : String × Bool). e.1) (granted_permissions config key) k in
    (subst (λ b. In (p, b) (granted_permissions config key)) u i, ground (arith, eq_iff p "none"))

module _ (at : Setting) (opts : PrepareOptions) (spec : ParsedSpec) (before after : Disk)
    (ctx : RunContext) where
  -- the store with the secrets of this run
  abbrev pub exposed_store : WentThrough at opts spec before after ctx → Store
  exposed_store w =
      save_secret_grants (record { config = w.config; disk = w.between }) w.match_.key
        (newly_granted opts w.manifest.name (to_ask w.manifest w.stored w.config w.match_.key))

  pub went_context :
      (w : WentThrough at opts spec before after ctx)
      → (context_of spec w.match_
            (at.agent_dir spec.namespace spec.name w.match_.record_.version)
            w.manifest
            (exposed_store w).config
            w.check.status_fresh
          ≡ ctx)
        × ((exposed_store w).disk ≡ after)
  unfolding expose
  went_context w = let h = w.exposed in (ground arith, ap (λ (x : Disk × Result RunContext). x.0) h)

  pub granted-context_of :
      (w : WentThrough at opts spec before after ctx)
      → (granted_list (exposed_store w).config w.match_.key ≡ ctx.granted)
        × (w.match_.key ≡ ctx.agent_key)
  unfolding context_of
  granted-context_of w =
      let e = (went_context w).0 in
      (ap (λ (c : RunContext). c.granted) e, ap (λ (c : RunContext). c.agent_key) e)

  context_granted :
      (w : WentThrough at opts spec before after ctx) (p : Permission)
      → In p ctx.granted
      → In (p, true) (granted_permissions w.config ctx.agent_key) × (p ≢ "none")
  context_granted w p m =
      let (list, key) = granted-context_of w in
      let (i, n) =
        In-of_granted_list (exposed_store w).config w.match_.key p (subst (In p) (sym list) m) in
      (
        subst (λ k. In (p, true) (granted_permissions w.config k)) key
            (subst (λ g. In (p, true) g)
              (granted_permissions-save_secret_grants _
                (record { config = w.config; disk = w.between }) w.match_.key w.match_.key)
              i),
        n,
      )

  -- When a run is prepared and executed and the agent starts, then it passed the gates of the
  -- runtime, its version is neither rejected nor revoked by the installed record, and each of its
  -- permissions is named by its manifest and saved as granted under its key.
  pub execute_agent_run-IsGated :
      (config : OpenAgentHubConfig) (around : Surroundings) (xopts : ExecuteOptions)
      (vault : Result (Object String)) (mode : SandboxMode) (sandbox : SandboxSpec) (o : RunOptions)
      (model : ModelConfig)
      → load_config before ≡ loaded config
      → prepare_run_context at opts spec before ≡ (after, ok ctx)
      → execute_agent_run around ctx xopts vault ≡ ok (start mode sandbox o model)
      → IsGated around (run_options ctx xopts) mode sandbox
        × (¬ (IsBlocked ctx.installed.review_status))
        × ((p : Permission)
            → In p sandbox.granted
            → In p (named ctx.manifest.permissions)
              × In (p, true) (granted_permissions config ctx.agent_key)
              × (p ≢ "none"))
  unfolding execute_agent_run run_options context_of
  execute_agent_run-IsGated config around xopts vault mode sandbox o model read prepared started =
      let w = prepare_run_context_went at opts spec before after ctx prepared in
      let same : w.config ≡ config = ground (arith, w.read) in
      let gated =
        run_agent-IsGated around (run_options ctx xopts) vault mode sandbox o model started in
      let status : ctx.review_status ≡ ctx.installed.review_status =
        subst (λ (c : RunContext). c.review_status ≡ c.installed.review_status) (went_context w).0
          refl in
      (
        gated,
        subst (λ r. ¬ (IsBlocked r)) status gated.allowed,
        (λ p m.
            let (declared, held) = gated.granted p m in
            let (saved, n) = context_granted w p held in
            (
              declared,
              subst (λ c. In (p, true) (granted_permissions c ctx.agent_key)) same saved,
              n,
            )),
      )
