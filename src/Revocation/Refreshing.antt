-- ===== src/Revocation/Refreshing.antt =====
-- What a refresh answers, and what it saves.
use open_agent_hub.Prelude.{
  String, Option, none, some, true, false, ◌≡◌, ◌≢◌, ◌↔◌, ◌⊎◌, inl, inr, arith, refl, ◌∙◌, List, [],
  ◌∷◌, ℕ, find, In, find-eq-some, find-eq-none, is_text_iff, str_eq, eq_iff, eq_refl, lookup_in,
  Option-cases, ok, concat,
}
use open_agent_hub.Permissions.{
  InstalledAgent, OpenAgentHubConfig, Store, Disk, json, loaded, load_config, record_status_refresh,
}
use open_agent_hub.Permissions.Saved.{
  IsSaved, apply, apply_all, apply_all-IsSaved, refresh, refreshed, lookup-record_status_refresh,
}
use open_agent_hub.Revocation.{
  RevocationItem, RevocationCheck, installed_is_fresh, concerns, refresh_from,
  check_revocation_before_run,
}

-- The registry lists the agent: by its version, or by the digest of its archive.
abbrev pub IsListed : InstalledAgent → List RevocationItem → Type 0
IsListed installed items =
    (i : RevocationItem) × In i items
    × (i.namespace ≡ installed.namespace)
    × (i.name ≡ installed.name)
    × ((i.version ≡ installed.version) ⊎ (installed.archive_digest ≡ some i.digest))

concerns_iff :
    (installed : InstalledAgent) (i : RevocationItem)
    → (concerns installed i ≡ true) ↔ (
        (i.namespace ≡ installed.namespace)
        × (i.name ≡ installed.name)
        × ((i.version ≡ installed.version) ⊎ (installed.archive_digest ≡ some i.digest)))
unfolding concerns
concerns_iff installed i = ground (
  arith,
  eq_iff i.namespace installed.namespace,
  eq_iff i.name installed.name,
  eq_iff i.version installed.version,
  is_text_iff installed.archive_digest i.digest,
)

IsListed-of_find :
    (installed : InstalledAgent) (items : List RevocationItem) (i : RevocationItem)
    → find (concerns installed) items ≡ some i
    → IsListed installed items
IsListed-of_find installed items i found =
    let (m, t) = find-eq-some (concerns installed) items found in
    let (a, b, d) = (concerns_iff installed i).0 t in (i, m, a, b, d)

not-IsListed :
    (installed : InstalledAgent) (items : List RevocationItem)
    → find (concerns installed) items ≡ none
    → ¬ (IsListed installed items)
not-IsListed installed items absent (i, m, a, b, d) =
    let t = (concerns_iff installed i).1 (a, b, d) in
    let z : concerns installed i ≡ false = find-eq-none (concerns installed) items absent m in cc

module _ (elapsed : String → ℕ) (now key registry_url : String) (config : OpenAgentHubConfig)
    (installed : InstalledAgent) (items : List RevocationItem) where
  abbrev before : Store
  before = record { config = config; disk = json config }

  abbrev message : RevocationItem → String
  message i = concat ("agent was " ∷ i.review_status ∷ " by the registry: " ∷ i.reason ∷ [])

  answered :
      str_eq registry_url "" ≡ false
      → installed_is_fresh elapsed installed ≡ false
      → check_revocation_before_run elapsed now
          (json config)
          key
          installed
          registry_url
          (some items)
        ≡ ok (refresh_from now before key installed (find (concerns installed) items))
  unfolding check_revocation_before_run load_config
  answered given old = rw (given, old) refl

  saved : (status : Option String) → IsSaved (record_status_refresh now before key status)
  unfolding apply_all apply load_config
  saved status = apply_all-IsSaved before (refresh now key status ∷ []) refl

  recorded :
      lookup_in key config.installed ≡ some installed
      → (status : Option String)
      → lookup_in key (record_status_refresh now before key status).config.installed
        ≡ some (refreshed now status installed)
  recorded there status =
      lookup-record_status_refresh now key key before status ∙ rw (eq_refl key, there) refl

  -- Where the last check is too old and the registry answers: the run is blocked exactly if the
  -- registry lists the agent, the status counts as fresh, and the configuration that is saved has
  -- for the agent the time of this check, and its old status or one that the registry lists.
  pub check_revocation_before_run_lem :
      str_eq registry_url "" ≡ false
      → installed_is_fresh elapsed installed ≡ false
      → lookup_in key config.installed ≡ some installed
      → (disk : Disk) × (check : RevocationCheck) × (check_revocation_before_run elapsed now
            (json config)
            key
            installed
            registry_url
            (some items)
          ≡ ok (disk, check))
        × ((check.blocked ≢ none) ↔ IsListed installed items)
        × (check.status_fresh ≡ true)
        × ((after : OpenAgentHubConfig) × (load_config disk ≡ loaded after)
            × ((status : Option String) × (lookup_in key after.installed
                  ≡ some (refreshed now status installed))
                × ((status ≡ installed.review_status)
                    ⊎ ((i : RevocationItem) × In i items × (status ≡ some i.review_status)))))
  check_revocation_before_run_lem given old there =
      elim (Option-cases (find (concerns installed) items)) [
        | inl absent ↦
            let s' = record_status_refresh now before key installed.review_status in
            (
              s'.disk,
              record { blocked = none; stale_warning = none; status_fresh = true },
              answered given old ∙ rw absent (unfold refresh_from in refl),
              ((λ b. absurd (b refl)), (λ l. absurd (not-IsListed installed items absent l))),
              refl,
              (
                s'.config,
                saved installed.review_status,
                (installed.review_status, recorded there installed.review_status, inl refl),
              ),
            )
        | inr (i, found) ↦
            let s' = record_status_refresh now before key (some i.review_status) in
            (
              s'.disk,
              record { blocked = some (message i); stale_warning = none; status_fresh = true },
              answered given old ∙ rw found (unfold refresh_from in refl),
              ((λ b. IsListed-of_find installed items i found), (λ l n. cc)),
              refl,
              (
                s'.config,
                saved (some i.review_status),
                (
                  some i.review_status,
                  recorded there (some i.review_status),
                  inr (i, (find-eq-some (concerns installed) items found).0, refl),
                ),
              ),
            )
      ]
