-- ===== src/Usage/Collection.antt =====
-- `collectProvidersSync`, `setManualLimit` and `revokeProvider` of runtime/src/usage/collect.ts. The
-- adapters are an interface: each gives its observations and may change its cursors and totals in
-- the store. Times are arguments.
use open_agent_hub.Prelude.{
  String, Option, none, some, Bool, true, false, not, ℕ, if◌then◌else◌, List, [], ◌∷◌, ◌++◌,
  get_or_default,
}
use open_agent_hub.Usage.Tables.{
  UsageProvider, claude, codex, opencode, ExternalUsageRow, LimitRow, LimitSource, UsageStore,
}
use open_agent_hub.Usage.Store.{record_external, upsert_limit, clear_provider_usage}
use open_agent_hub.Usage.Consent.{
  ConsentKind, credentials, live, consent, enabled, set_consent, providers,
}
use open_agent_hub.Usage.Collect.Codex.Parsing.{ProviderStatus, disabled}
pub mod Revoked

pub record ProviderResult : Type 0 where
  pub provider : UsageProvider
  pub detected : Bool
  pub status : ProviderStatus
  pub sources_scanned : ℕ
  pub events_ingested : ℕ
  pub events_skipped : ℕ

pub record AdapterOutput : Type 0 where
  pub usage : List ExternalUsageRow
  pub limits : List LimitRow
  pub result : ProviderResult

-- the adapters, and whether a tool is installed
pub record Adapters : Type 0 where
  pub collect : UsageProvider → UsageStore → UsageStore × AdapterOutput
  pub detected : UsageProvider → Bool

-- the output for a tool that may not be read
unfoldable pub disabled_output : UsageProvider → Bool → AdapterOutput
disabled_output provider detected = record {
  usage = [];
  limits = [];
  result = record {
    provider = provider;
    detected = detected;
    status = disabled;
    sources_scanned = 0;
    events_ingested = 0;
    events_skipped = 0;
  };
}

unfoldable pub collect_provider : Adapters → UsageStore → UsageProvider → UsageStore × AdapterOutput
collect_provider a s provider =
    if not (enabled s provider)
    then (s, disabled_output provider false)
    else if not (consent s provider credentials)
    then (s, disabled_output provider (a.detected provider))
    else a.collect provider s

-- the loop over the wanted tools
unfoldable pub collect_each :
    Adapters → UsageStore → List UsageProvider → UsageStore × List AdapterOutput
collect_each a s [] = (s, [])
collect_each a s (p ∷ ps) =
    let (s', output) = collect_provider a s p in
    let (after, outputs) = collect_each a s' ps in (after, output ∷ outputs)

-- `if (store.recordExternal(u)) usage.push(u)`
unfoldable pub record_rows : UsageStore → List ExternalUsageRow → UsageStore × List ExternalUsageRow
record_rows s [] = (s, [])
record_rows s (u ∷ us) =
    let (s', fresh) = record_external s u in
    let (after, rest) = record_rows s' us in (after, if fresh then u ∷ rest else rest)

unfoldable pub upsert_limits : String → UsageStore → List LimitRow → UsageStore
upsert_limits now s [] = s
upsert_limits now s (l ∷ ls) =
    upsert_limits now (upsert_limit s (record l { observed_at = now })) ls

pub record CollectionResult : Type 0 where
  pub providers : List ProviderResult
  pub usage : List ExternalUsageRow
  pub limits : List LimitRow

-- what the outputs add to the store and to the result
unfoldable pub record_outputs :
    String → UsageStore → List AdapterOutput → UsageStore × CollectionResult
record_outputs now s [] = (s, record { providers = []; usage = []; limits = [] })
record_outputs now s (o ∷ os) =
    let (s1, fresh) = record_rows s o.usage in
    let (after, rest) = record_outputs now (upsert_limits now s1 o.limits) os in
    (
      after,
      record {
        providers = o.result ∷ rest.providers;
        usage = fresh ++ rest.usage;
        limits = o.limits ++ rest.limits;
      },
    )

unfoldable pub collect_providers_sync :
    Adapters → String → UsageStore → Option (List UsageProvider) → UsageStore × CollectionResult
collect_providers_sync a now s wanted =
    let (s', outputs) = collect_each a s (get_or_default wanted providers) in
    record_outputs now s' outputs

-- `source: limit.source ?? "manual"`
unfoldable pub set_manual_limit : String → UsageStore → LimitRow → Option LimitSource → UsageStore
set_manual_limit now s limit source =
    upsert_limit s
      (record limit { source = get_or_default source LimitSource.manual; observed_at = now })

unfoldable pub revoke_provider : UsageStore → UsageProvider → UsageStore × (ℕ × ℕ)
revoke_provider s provider =
    clear_provider_usage
      (set_consent (set_consent s provider credentials false) provider live false) provider
