-- ===== src/Usage/Collection/Revoked.antt =====
-- What revoking a tool removes, and that the tool is not read any more.
use open_agent_hub.Prelude.{
  String, some, ◌≡◌, ◌≢◌, refl, arith, Bool, true, false, not, List, [], ◌∷◌, inl, inr, Bool-cases,
  In, In-of_keep, In-keep, keep, insert, lookup-insert, lookup-insert_self, str_eq, is_text,
}
use open_agent_hub.Usage.Tables.{
  UsageProvider, claude, codex, opencode, ExternalUsageRow, LimitRow, UsageStore,
}
use open_agent_hub.Usage.Store.{eq_provider, clear_provider_usage, get_setting, set_setting}
use open_agent_hub.Usage.Consent.{credentials, live, consent, consent_key, set_consent, enabled}
use open_agent_hub.Usage.Collection.{
  Adapters, collect_provider, collect_each, record_rows, upsert_limits, record_outputs,
  collect_providers_sync, revoke_provider, disabled_output,
}

eq_provider_iff :
    (p q : UsageProvider) → (eq_provider p q ≡ true → p ≡ q) × (p ≡ q → eq_provider p q ≡ true)
unfolding eq_provider
eq_provider_iff p q = ground arith

keys_differ : (p : UsageProvider) → str_eq (consent_key p live) (consent_key p credentials) ≡ false
unfolding consent_key
keys_differ claude = refl
keys_differ codex = refl
keys_differ opencode = refl

others_kept :
    {A : Type 0} (provider : A → UsageProvider) (p : UsageProvider) (rows : List A) (row : A)
    → (In row (keep (λ r. not (eq_provider (provider r) p)) rows)
        → In row rows × (provider row ≢ p))
      × (In row rows
          → provider row ≢ p
          → In row (keep (λ r. not (eq_provider (provider r) p)) rows))
others_kept provider p rows row =
    let iff = eq_provider_iff (provider row) p in
    (
      (λ m.
          let (i, t) = In-of_keep (λ r. not (eq_provider (provider r) p)) rows m in
          (i, (λ e. let u = iff.1 e in ground arith))),
      (λ m n.
          In-keep (λ r. not (eq_provider (provider r) p)) rows m
            (elim (Bool-cases (eq_provider (provider row) p)) [
              | inl same ↦ absurd (n (iff.0 same))
              | inr other ↦ rw other refl
            ])),
    )

module _ (s : UsageStore) (p : UsageProvider) where
  abbrev revoked : UsageStore
  revoked = (revoke_provider s p).0

  consent-revoked : consent revoked p credentials ≡ false
  unfolding revoke_provider clear_provider_usage consent set_consent get_setting set_setting is_text
  consent-revoked =
      rw
        (
          lookup-insert (consent_key p live) (consent_key p credentials) "0"
              (insert (consent_key p credentials) "0" s.settings),
          keys_differ p,
          lookup-insert_self (consent_key p credentials) "0" s.settings,
        )
        refl

  disabled_provider :
      (a : Adapters) → (b : Bool) × (collect_provider a revoked p ≡ (revoked, disabled_output p b))
  unfolding collect_provider
  disabled_provider a = elim (Bool-cases (enabled revoked p)) [
    | inl on ↦ (a.detected p, rw (on, consent-revoked) refl)
    | inr off ↦ (false, rw off refl)
  ]

  usage_kept :
      (row : ExternalUsageRow)
      → (In row revoked.external_usage → In row s.external_usage × (row.provider ≢ p))
        × (In row s.external_usage → row.provider ≢ p → In row revoked.external_usage)
  unfolding revoke_provider clear_provider_usage set_consent set_setting
  usage_kept row = others_kept (λ (r : ExternalUsageRow). r.provider) p s.external_usage row

  limits_kept :
      (row : LimitRow)
      → (In row revoked.limits → In row s.limits × (row.provider ≢ p))
        × (In row s.limits → row.provider ≢ p → In row revoked.limits)
  unfolding revoke_provider clear_provider_usage set_consent set_setting
  limits_kept row = others_kept (λ (r : LimitRow). r.provider) p s.limits row

  nothing_collected :
      (a : Adapters) (now : String) (b : Bool)
      → collect_provider a revoked p ≡ (revoked, disabled_output p b)
      → (collect_providers_sync a now revoked (some (p ∷ []))).0 ≡ revoked
  unfolding collect_providers_sync collect_each record_outputs record_rows upsert_limits
      disabled_output
  nothing_collected a now b e = rw e refl

  nothing_recorded :
      (a : Adapters) (now : String) (b : Bool)
      → collect_provider a revoked p ≡ (revoked, disabled_output p b)
      → (collect_providers_sync a now revoked (some (p ∷ []))).1.usage ≡ []
  unfolding collect_providers_sync collect_each record_outputs record_rows upsert_limits
      disabled_output
  nothing_recorded a now b e = rw e refl

  -- Revoking a tool removes its usage and its limits and no row of another tool, and from then on a
  -- collection that asks for the tool does not call its adapter: it records nothing and leaves the
  -- store as it is.
  pub revoke_provider_lem :
      (a : Adapters) (now : String)
      → ((row : ExternalUsageRow)
          → (In row revoked.external_usage → In row s.external_usage × (row.provider ≢ p))
            × (In row s.external_usage → row.provider ≢ p → In row revoked.external_usage))
        × ((row : LimitRow)
            → (In row revoked.limits → In row s.limits × (row.provider ≢ p))
              × (In row s.limits → row.provider ≢ p → In row revoked.limits))
        × ((collect_providers_sync a now revoked (some (p ∷ []))).0 ≡ revoked)
        × ((collect_providers_sync a now revoked (some (p ∷ []))).1.usage ≡ [])
  revoke_provider_lem a now =
      let (b, e) = disabled_provider a in
      (
        (λ row. usage_kept row),
        (λ row. limits_kept row),
        nothing_collected a now b e,
        nothing_recorded a now b e,
      )
