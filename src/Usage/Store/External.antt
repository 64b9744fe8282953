-- ===== src/Usage/Store/External.antt =====
-- Observations of other tools are recorded once.
use open_agent_hub.Prelude.{
  String, some, Bool, true, false, ◌≡◌, inl, inr, arith, refl, ◌∙◌, List, [], ◌∷◌, ◌++◌, not, any,
  ◌||◌, eq_iff, eq_refl, Bool-cases, get_or_default, pos,
}
use open_agent_hub.Usage.Tables.{
  UsageProvider, claude, codex, opencode, ExternalUsageRow, UsageStore,
}
use open_agent_hub.Usage.Store.{eq_provider, same_event, has_external, record_external}

eq_provider_refl : (p : UsageProvider) → eq_provider p p ≡ true
unfolding eq_provider
eq_provider_refl claude = refl
eq_provider_refl codex = refl
eq_provider_refl opencode = refl

same_event_self :
    (row : ExternalUsageRow) → same_event row.provider row.source row.event_key row ≡ true
unfolding same_event
same_event_self row =
    rw (eq_provider_refl row.provider) (rw (eq_refl row.source) (eq_refl row.event_key))

same_event_eq :
    (provider : UsageProvider) (source key : String) (row : ExternalUsageRow)
    → same_event provider source key row ≡ true
    → (row.provider ≡ provider) × (row.source ≡ source) × (row.event_key ≡ key)
unfolding same_event eq_provider
same_event_eq provider source key row h = (
  ground arith,
  ground (arith, eq_iff row.source source),
  ground (arith, eq_iff row.event_key key),
)

any-append :
    (p : ExternalUsageRow → Bool) (xs : List ExternalUsageRow) (x : ExternalUsageRow)
    → any p (xs ++ x ∷ []) ≡ (any p xs || p x)
any-append p [] x = ground arith
any-append p (y ∷ ys) x = ground (arith, any-append p ys x)

-- the row that the table gets
abbrev stored : ExternalUsageRow → ExternalUsageRow
stored obs = record obs {
  cache_read = some (get_or_default obs.cache_read (pos 0));
  cache_write = some (get_or_default obs.cache_write (pos 0));
}

-- No two rows are of one event.
abbrev pub IsUnique : List ExternalUsageRow → Type 0
IsUnique [] = Unit
IsUnique (x ∷ xs) = (any (same_event x.provider x.source x.event_key) xs ≡ false) × IsUnique xs

same_event_swap :
    (a b : ExternalUsageRow)
    → same_event b.provider b.source b.event_key a ≡ false
    → same_event a.provider a.source a.event_key b ≡ false
unfolding same_event eq_provider
same_event_swap a b h = ground (
  arith,
  eq_iff a.source b.source,
  eq_iff b.source a.source,
  eq_iff a.event_key b.event_key,
  eq_iff b.event_key a.event_key,
)

IsUnique-append :
    (xs : List ExternalUsageRow) (x : ExternalUsageRow)
    → IsUnique xs
    → any (same_event x.provider x.source x.event_key) xs ≡ false
    → IsUnique (xs ++ x ∷ [])
IsUnique-append [] x u h = (refl, tt)
IsUnique-append (y ∷ ys) x (fresh, u) h = (
  ground (arith, any-append (same_event y.provider y.source y.event_key) ys x, same_event_swap y x),
  IsUnique-append ys x u (ground arith),
)

module _ (s : UsageStore) (obs : ExternalUsageRow) where
  abbrev known : Bool
  known = has_external s obs.provider obs.source obs.event_key

  abbrev extended : UsageStore
  extended = record s { external_usage = s.external_usage ++ stored obs ∷ [] }

  record_external-known : known ≡ true → record_external s obs ≡ (s, false)
  unfolding record_external
  record_external-known e = rw e

  record_external_new : known ≡ false → record_external s obs ≡ (extended, true)
  unfolding record_external
  record_external_new e = rw e

  has_external-extended :
      (provider : UsageProvider) (source key : String)
      → has_external extended provider source key
        ≡ (has_external s provider source key || same_event provider source key obs)
  unfolding has_external same_event
  has_external-extended provider source key =
      any-append (same_event provider source key) s.external_usage (stored obs)

  known_event :
      (provider : UsageProvider) (source key : String)
      → known ≡ true
      → same_event provider source key obs ≡ true
      → has_external s provider source key ≡ true
  known_event provider source key e same =
      let (p, q, r) = same_event_eq provider source key obs same in rw (← p, ← q, ← r) e

  -- Recording an observation reports whether its event is new; afterwards the event is there, any
  -- other event is there exactly if it was before, and a known event changes nothing.
  pub record_external_lem :
      ((record_external s obs).1 ≡ not known)
      × ((provider : UsageProvider) (source key : String)
          → has_external (record_external s obs).0 provider source key
            ≡ (has_external s provider source key || same_event provider source key obs))
      × (known ≡ true → (record_external s obs).0 ≡ s)
  record_external_lem = elim (Bool-cases known) [
    | inl e ↦ rw (record_external-known e) (
      rw e refl,
      (λ provider source key. ground (arith, known_event provider source key e)),
      (λ _. refl),
    )
    | inr e ↦ rw (record_external_new e) (rw e refl, has_external-extended, (λ k. cc))
  ]

  again : known ≡ false → record_external extended obs ≡ (extended, false)
  unfolding record_external
  again e =
      let t : has_external extended obs.provider obs.source obs.event_key ≡ true =
        has_external-extended obs.provider obs.source obs.event_key
        ∙ ground (arith, same_event_self obs) in
      rw t

  -- Recording an observation again changes nothing and reports that it is not new, and the table
  -- keeps one row for an event.
  pub record_external_twice :
      (record_external (record_external s obs).0 obs ≡ ((record_external s obs).0, false))
      × (IsUnique s.external_usage → IsUnique (record_external s obs).0.external_usage)
  record_external_twice = elim (Bool-cases known) [
    | inl e ↦ rw (record_external-known e) (record_external-known e, (λ u. u))
    | inr e ↦
        rw (record_external_new e) (
          again e,
          (λ u. IsUnique-append s.external_usage (stored obs) u (unfold has_external in e)),
        )
  ]
