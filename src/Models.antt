-- ===== src/Models.antt =====
-- runtime/src/models.ts: which model an agent talks to, and the environment that tells it so.
use open_agent_hub.Prelude.{
  String, Option, none, some, Bool, true, false, ◌&&◌, ◌||◌, not, if◌then◌else◌, List, [], ◌∷◌,
  Object, lookup, insert, str_eq, find, first, second, split_on, join, map, get_or_default, truthy,
  is_some, concat, Result, ok, thrown, ◌>>=◌, ◌>>◌, throw_if, or_else,
}
use open_agent_hub.Manifest.{
  Manifest, ModelProvider, openai, anthropic, google, deepseek, ollama, mistral, xai, groq, local,
  custom,
}
pub mod Laws

pub record ModelConfig : Type 0 where
  pub provider : ModelProvider
  pub model : String
  pub base_url : Option String
  pub api_key : Option String

record Provider : Type 0 where
  model : String
  base_url : Option String
  key_env : Option String

abbrev provider_entry : String → Option String → Option String → Provider
provider_entry model base_url key_env = record {
  model = model;
  base_url = base_url;
  key_env = key_env;
}

-- the table `PROVIDERS`
providers : ModelProvider → Provider
providers openai =
    provider_entry "gpt-4o-mini" (some "https://api.openai.com/v1") (some "OPENAI_API_KEY")
providers anthropic =
    provider_entry "claude-sonnet-4-20250514" (some "https://api.anthropic.com")
      (some "ANTHROPIC_API_KEY")
providers google =
    provider_entry "gemini-2.0-flash" (some "https://generativelanguage.googleapis.com/v1beta")
      (some "GOOGLE_API_KEY")
providers deepseek =
    provider_entry "deepseek-chat" (some "https://api.deepseek.com") (some "DEEPSEEK_API_KEY")
providers ollama = provider_entry "llama3.1" (some "http://localhost:11434/v1") none
providers mistral =
    provider_entry "mistral-small-latest" (some "https://api.mistral.ai/v1")
      (some "MISTRAL_API_KEY")
providers xai = provider_entry "grok-2-latest" (some "https://api.x.ai/v1") (some "XAI_API_KEY")
providers groq =
    provider_entry "llama-3.1-8b-instant" (some "https://api.groq.com/openai/v1")
      (some "GROQ_API_KEY")
providers local = provider_entry "local-model" (some "http://localhost:8000/v1") none
providers custom = provider_entry "custom-model" none none

unfoldable pub key_env : ModelProvider → Option String
unfolding providers
key_env p = (providers p).key_env

-- the literal of a provider
unfoldable pub provider_name : ModelProvider → String
provider_name openai = "openai"
provider_name anthropic = "anthropic"
provider_name google = "google"
provider_name deepseek = "deepseek"
provider_name ollama = "ollama"
provider_name mistral = "mistral"
provider_name xai = "xai"
provider_name groq = "groq"
provider_name local = "local"
provider_name custom = "custom"

-- `provider !== "ollama" && provider !== "local"`
unfoldable pub is_remote : ModelProvider → Bool
is_remote ollama = false
is_remote local = false
is_remote _ = true

-- `keyEnv ? secrets[keyEnv] : undefined`
unfoldable pub api_key : Object String → ModelProvider → Option String
api_key secrets p = elim (key_env p) [ none ↦ none | some name ↦ lookup name secrets ]

-- `!PROVIDERS[p].keyEnv || secrets[PROVIDERS[p].keyEnv!]`
unfoldable pub is_usable : Object String → ModelProvider → Bool
is_usable secrets p = not (is_some (key_env p)) || truthy (api_key secrets p)

-- The reads of an absent provider (`PROVIDERS[undefined].keyEnv`) end in a TypeError.
no_provider : Result ModelConfig
no_provider = thrown "Cannot read properties of undefined (reading 'keyEnv')"

configure : Object String → ModelProvider → Option String → ModelConfig
unfolding providers
configure secrets p override_model = record {
  provider = p;
  model = get_or_default override_model (providers p).model;
  base_url = (providers p).base_url;
  api_key = api_key secrets p;
}

-- the branch of `pickModel` for a model that was asked for
pick_requested : Manifest → String → Object String → String → Result ModelConfig
unfolding configure
pick_requested manifest requested secrets key =
    let parts = split_on b':' requested in
    let req_provider = get_or_default (first parts) "" in
    elim (find (λ p. str_eq (provider_name p) req_provider) manifest.models_supported) [
      | none ↦ thrown (
          concat (
            "model provider '"
            ∷ req_provider
            ∷ "' is not in manifest.models.supported ("
            ∷ join ", " (map provider_name manifest.models_supported)
            ∷ ")"
            ∷ []))
      | some p ↦
          if is_some (key_env p) && not (truthy (api_key secrets p)) && is_remote p
          then thrown (
              concat (
                "no API key for provider '"
                ∷ provider_name p
                ∷ "'. Set it with: agent env "
                ∷ key
                ∷ " "
                ∷ get_or_default (key_env p) ""
                ∷ "=..."
                ∷ []))
          else ok (configure secrets p (second parts))
    ]

-- the branch of `pickModel` that chooses a provider itself
pick_default : Manifest → Object String → Result ModelConfig
unfolding configure no_provider
pick_default manifest secrets =
    elim (or_else (find (is_usable secrets) manifest.models_supported)
      (first manifest.models_supported)) [
        | none ↦ no_provider
        | some p ↦ ok (configure secrets p none)
      ]

-- `secrets` is what `vault.get(agentKey)` returned.
unfoldable pub pick_model : Manifest → Option String → Object String → String → Result ModelConfig
unfolding pick_requested pick_default
pick_model manifest requested secrets key =
    if truthy requested
    then pick_requested manifest (get_or_default requested "") secrets key
    else pick_default manifest secrets

-- `if (v) env[k] = v`
unfoldable pub insert_truthy : String → Option String → Object String → Object String
insert_truthy k v env = if truthy v then insert k (get_or_default v "") env else env

-- the part of `buildAgentEnv` that depends on the provider's key
key_part : ModelConfig → Object String → Object String
key_part model env = elim (key_env model.provider) [
  | none ↦ env
  | some name ↦
      if truthy model.api_key
      then insert name (get_or_default model.api_key "") env
      else if is_remote model.provider
      then insert "AGENT_MODEL_KEY_MISSING" name env
      else env
]

unfoldable pub build_agent_env : ModelConfig → String → String → Object String
unfolding key_part
build_agent_env model name version =
    let base : Object String =
      ("AGENT_NAME", name)
      ∷ ("AGENT_VERSION", version)
      ∷ ("AGENT_MODEL_PROVIDER", provider_name model.provider)
      ∷ ("AGENT_MODEL_NAME", model.model)
      ∷ [] in
    key_part model (
      insert_truthy "AGENT_API_KEY" model.api_key
        (insert_truthy "AGENT_BASE_URL" model.base_url base))
