-- ===== src/Usage/Consent.antt =====
-- runtime/src/usage/consent.ts: which tools may be read. Whether a tool is installed is an argument.
use open_agent_hub.Prelude.{
  String, none, some, Bool, true, List, [], ◌∷◌, map, is_text, concat, if◌then◌else◌,
}
use open_agent_hub.Usage.Tables.{UsageProvider, claude, codex, opencode, UsageStore}
use open_agent_hub.Usage.Store.{get_setting, set_setting}

pub data ConsentKind : Type 0 where
  credentials live : ConsentKind

pub record IntegrationStatus : Type 0 where
  pub provider : UsageProvider
  pub enabled : Bool
  pub credentials : Bool
  pub live : Bool
  pub detected : Bool

unfoldable pub provider_text : UsageProvider → String
provider_text claude = "claude"
provider_text codex = "codex"
provider_text opencode = "opencode"

abbrev kind_text : ConsentKind → String
kind_text credentials = "credentials"
kind_text live = "live"

unfoldable pub consent_key : UsageProvider → ConsentKind → String
unfolding provider_text concat
consent_key provider kind =
    concat ("integration." ∷ provider_text provider ∷ "." ∷ kind_text kind ∷ [])

unfoldable pub enabled_key : UsageProvider → String
unfolding provider_text concat
enabled_key provider = concat ("integration." ∷ provider_text provider ∷ ".enabled" ∷ [])

unfoldable pub set_enabled : UsageStore → UsageProvider → Bool → UsageStore
set_enabled s provider enabled = set_setting s (enabled_key provider) (if enabled then "1" else "0")

unfoldable pub set_consent : UsageStore → UsageProvider → ConsentKind → Bool → UsageStore
set_consent s provider kind granted =
    set_setting s (consent_key provider kind) (if granted then "1" else "0")

unfoldable pub consent : UsageStore → UsageProvider → ConsentKind → Bool
consent s provider kind = is_text (get_setting s (consent_key provider kind)) "1"

unfoldable pub enabled : UsageStore → UsageProvider → Bool
enabled s provider = elim (get_setting s (enabled_key provider)) [
  | none ↦ true
  | some v ↦ is_text (some v) "1"
]

unfoldable pub integration_status :
    (UsageProvider → Bool) → UsageStore → UsageProvider → IntegrationStatus
integration_status detected s provider = record {
  provider = provider;
  enabled = enabled s provider;
  credentials = consent s provider credentials;
  live = consent s provider live;
  detected = detected provider;
}

abbrev pub providers : List UsageProvider
providers = claude ∷ codex ∷ opencode ∷ []

unfoldable pub all_integration_status : (UsageProvider → Bool) → UsageStore → List IntegrationStatus
all_integration_status detected s = map (integration_status detected s) providers
