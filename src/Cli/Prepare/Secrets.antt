-- ===== src/Cli/Prepare/Secrets.antt =====
-- The secrets that a preparation grants and lists for display, and what saving them does to the file.
use open_agent_hub.Prelude.{
  String, ◌≡◌, ◌↔◌, ◌⊎◌, ◌∙◌, refl, sym, subst, ap, arith, inl, inr, Bool, true, ◌&&◌, not, List,
  [], ◌∷◌, In, In-of_keep, In-keep, Bool-cases, and_true, get_or_default, Object, lookup, is_some,
  includes, In-of_includes, includes_of_In, ok,
}
use open_agent_hub.Manifest.{Manifest}
use open_agent_hub.Permissions.{
  OpenAgentHubConfig, Store, Disk, loaded, load_config, granted_secret_names, save_secret_grant,
}
use open_agent_hub.Permissions.Grants.{granted_self, In-add_grant}
use open_agent_hub.Permissions.Saved.{IsSaved}
use open_agent_hub.Cli.Resolve.{InstalledMatch}
use open_agent_hub.Cli.Prepare.{
  ParsedSpec, RunContext, PrepareOptions, Setting, to_ask, newly_granted, save_secret_grants,
  context_of, prepare_run_context,
}
use open_agent_hub.Cli.Prepare.Answers.{IsAllowed, newly_granted_iff}
use open_agent_hub.Cli.Prepare.Gated.{
  WentThrough, went_context, granted-context_of, exposed_store, prepare_run_context_went,
}

granted-save_secret_grants :
    (names : List String) (s : Store) (key k : String)
    → In k (granted_secret_names key (save_secret_grants s key names).config)
      ↔ (In k names ⊎ In k (granted_secret_names key s.config))
unfolding save_secret_grants
granted-save_secret_grants [] s key k =
    ((λ h. inr h), (λ h. elim h [ inl z ↦ absurd z | inr m ↦ m ]))
granted-save_secret_grants (n ∷ names) s key k =
    let s' = save_secret_grant s key n in
    let ih = granted-save_secret_grants names s' key k in
    let one = In-add_grant n k (granted_secret_names key s.config) in
    let same = granted_self s key n in
    (
      (λ h. elim (ih.0 h) [
        | inl m ↦ inl (inr m)
        | inr m ↦ elim (one.0 (subst (In k) same m)) [ inl e ↦ inl (inl e) | inr old ↦ inr old ]
      ]),
      (λ h. elim h [
        | inl m ↦ elim m [
          | inl e ↦ ih.1 (inr (subst (In k) (sym same) (one.1 (inl e))))
          | inr later ↦ ih.1 (inl later)
        ]
        | inr old ↦ ih.1 (inr (subst (In k) (sym same) (one.1 (inr old))))
      ]),
    )

installed-save_secret_grants :
    (names : List String) (s : Store) (key : String)
    → (save_secret_grants s key names).config.installed ≡ s.config.installed
unfolding save_secret_grants save_secret_grant
installed-save_secret_grants [] s key = refl
installed-save_secret_grants (n ∷ names) s key =
    installed-save_secret_grants names (save_secret_grant s key n) key

save_secret_grants-IsSaved :
    (names : List String) (s : Store) (key : String)
    → IsSaved s
    → IsSaved (save_secret_grants s key names)
unfolding save_secret_grants save_secret_grant load_config
save_secret_grants-IsSaved [] s key h = h
save_secret_grants-IsSaved (n ∷ names) s key h =
    save_secret_grants-IsSaved names (save_secret_grant s key n) key refl

save_secret_grants_saved :
    (names : List String) (s : Store) (key k : String)
    → In k names
    → IsSaved (save_secret_grants s key names)
unfolding save_secret_grants save_secret_grant load_config
save_secret_grants_saved [] s key k m = absurd m
save_secret_grants_saved (n ∷ names) s key k m =
    save_secret_grants-IsSaved names (save_secret_grant s key n) key refl

In-of_to_ask :
    (manifest : Manifest) (stored : Object String) (config : OpenAgentHubConfig) (key k : String)
    → In k (to_ask manifest stored config key)
    → In k (get_or_default manifest.secrets []) × (is_some (lookup k stored) ≡ true)
unfolding to_ask
In-of_to_ask manifest stored config key k h =
    let (m, t) =
      In-of_keep
        (λ s. is_some (lookup s stored) && not (includes s (granted_secret_names key config))) _
        h in
    (m, (and_true (is_some (lookup k stored)) _ t).0)

module _ (opts : PrepareOptions) (config : OpenAgentHubConfig) (stored : Object String)
    (s : String) where
  -- what a context says of a secret
  abbrev pub IsExposedRightly : RunContext → Type 0
  IsExposedRightly c = In s c.exposed_secrets ↔ (
      In s (get_or_default c.manifest.secrets [])
      × (In s (granted_secret_names c.agent_key config)
          ⊎ ((is_some (lookup s stored) ≡ true)
              × IsAllowed opts c.manifest.name (to_ask c.manifest stored config c.agent_key) s)))

  to_ask_or_granted :
      (manifest : Manifest) (key : String)
      → In s (get_or_default manifest.secrets [])
      → is_some (lookup s stored) ≡ true
      → In s (to_ask manifest stored config key) ⊎ In s (granted_secret_names key config)
  unfolding to_ask
  to_ask_or_granted manifest key m t =
      elim (Bool-cases (includes s (granted_secret_names key config))) [
        | inl e ↦ inr (In-of_includes s (granted_secret_names key config) e)
        | inr e ↦ inl (
            In-keep
              (λ s. is_some (lookup s stored) && not (includes s (granted_secret_names key config)))
              _ m (rw (t, e) refl))
      ]

  exposed_rightly :
      (spec : ParsedSpec) (m : InstalledMatch) (dir : String) (manifest : Manifest) (disk : Disk)
      (fresh : Bool)
      → IsExposedRightly (
          context_of spec m dir manifest
            (save_secret_grants
              (record { config = config; disk = disk })
              m.key
              (newly_granted opts manifest.name (to_ask manifest stored config m.key))).config
            fresh)
  unfolding context_of
  exposed_rightly spec m dir manifest disk fresh =
      let before : Store = record { config = config; disk = disk } in
      let asked = to_ask manifest stored config m.key in
      let names = newly_granted opts manifest.name asked in
      let after = granted_secret_names m.key (save_secret_grants before m.key names).config in
      let saved = granted-save_secret_grants names before m.key s in
      let new = newly_granted_iff opts manifest.name asked s in
      (
        (λ h.
            let (named, t) = In-of_keep (λ s. includes s after) _ h in
            (
              named,
              elim (saved.0 (In-of_includes s after t)) [
                | inl m' ↦
                    let (ask, agreed) = new.0 m' in
                    inr ((In-of_to_ask manifest stored config m.key s ask).1, agreed)
                | inr old ↦ inl old
              ],
            )),
        (λ h.
            let held : In s after = elim h.1 [
              | inl old ↦ saved.1 (inr old)
              | inr there ↦ elim (to_ask_or_granted manifest m.key h.0 there.0) [
                | inl ask ↦ saved.1 (inl (new.1 (ask, there.1)))
                | inr old ↦ saved.1 (inr old)
              ]
            ] in
            In-keep (λ s. includes s after) _ h.0 (includes_of_In s after held)),
      )

module _ (at : Setting) (opts : PrepareOptions) (spec : ParsedSpec) (before after : Disk)
    (ctx : RunContext) (config : OpenAgentHubConfig) where
  went_from :
      (w : WentThrough at opts spec before after ctx)
      → load_config before ≡ loaded config
      → (w.config ≡ config) × (w.match_.key ≡ ctx.agent_key)
  went_from w read =
      (ground (arith, w.read), (granted-context_of at opts spec before after ctx w).1)

  config_of :
      (w : WentThrough at opts spec before after ctx)
      → (exposed_store at opts spec before after ctx w).config ≡ ctx.config
  unfolding context_of
  config_of w = ap (λ (c : RunContext). c.config) (went_context at opts spec before after ctx w).0

  -- A prepared run lists a secret as exposed exactly if its manifest names it, and either it was
  -- granted before, or it is stored and the caller allows secrets or the user says yes to the question
  -- for it.
  pub prepare_run_context-exposed :
      (stored : Object String) (s : String)
      → load_config before ≡ loaded config
      → at.vault ctx.agent_key ≡ ok stored
      → prepare_run_context at opts spec before ≡ (after, ok ctx)
      → IsExposedRightly opts config stored s ctx
  prepare_run_context-exposed stored s read opened prepared =
      let w = prepare_run_context_went at opts spec before after ctx prepared in
      let (same, key) = went_from w read in
      let vault : w.stored ≡ stored = ground (arith, w.opened, ap at.vault key, opened) in
      let right : IsExposedRightly opts w.config w.stored s ctx =
        subst (IsExposedRightly opts w.config w.stored s)
          (went_context at opts spec before after ctx w).0
          (exposed_rightly opts w.config w.stored s spec w.match_
            (at.agent_dir spec.namespace spec.name w.match_.record_.version) w.manifest w.between
            w.check.status_fresh) in
      subst (λ c. IsExposedRightly opts c stored s ctx) same
        (subst (λ v. IsExposedRightly opts w.config v s ctx) vault right)

  -- A run that grants a secret saves the configuration that was read at its start: the file then has
  -- the agents as they stood there before the revocation check, whose refreshed status is gone.
  pub prepare_run_context_forgets :
      (s : String)
      → load_config before ≡ loaded config
      → prepare_run_context at opts spec before ≡ (after, ok ctx)
      → In s (granted_secret_names ctx.agent_key ctx.config)
      → ¬ (In s (granted_secret_names ctx.agent_key config))
      → (saved : OpenAgentHubConfig) × (load_config after ≡ loaded saved)
        × (saved.installed ≡ config.installed)
  prepare_run_context_forgets s read prepared now_granted fresh =
      let w = prepare_run_context_went at opts spec before after ctx prepared in
      let (same, key) = went_from w read in
      let (context, disk) = went_context at opts spec before after ctx w in
      let store : Store = record { config = w.config; disk = w.between } in
      let names =
        newly_granted opts w.manifest.name (to_ask w.manifest w.stored w.config w.match_.key) in
      let here : In s
          (granted_secret_names w.match_.key (save_secret_grants store w.match_.key names).config) =
        subst (λ c. In s (granted_secret_names w.match_.key c)) (sym (config_of w))
          (subst (λ k. In s (granted_secret_names k ctx.config)) (sym key) now_granted) in
      elim ((granted-save_secret_grants names store w.match_.key s).0 here) [
        | inr old ↦ absurd (
            fresh (
              subst (λ c. In s (granted_secret_names ctx.agent_key c)) same
                (subst (λ k. In s (granted_secret_names k w.config)) key old)))
        | inl new ↦
            let saved = save_secret_grants_saved names store w.match_.key s new in
            (
              (save_secret_grants store w.match_.key names).config,
              ap load_config (sym disk) ∙ saved,
              installed-save_secret_grants names store w.match_.key
                  ∙ ap (λ (c : OpenAgentHubConfig). c.installed) same,
            )
      ]
