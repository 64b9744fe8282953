-- ===== src/Models/Laws.antt =====
-- Which model is picked, and with which key.
use open_agent_hub.Prelude.{
  String, Option, none, some, true, false, ◌≡◌, ◌⊎◌, inl, inr, arith, refl, Object, lookup, insert,
  str_eq, find, first, second, truthy, In, ok, eq_iff, Bool-cases, Option-cases, find-eq-some,
  find-eq-none, first-eq-some, or_else-eq-some, split_on, get_or_default, or_else,
}
use open_agent_hub.Manifest.{Manifest, ModelProvider}
use open_agent_hub.Models.{
  ModelConfig, pick_model, pick_requested, pick_default, configure, key_env, api_key, is_usable,
  is_remote, provider_name, build_agent_env, insert_truthy,
}

no_key_of_local : (p : ModelProvider) → is_remote p ≡ false → key_env p ≡ none
unfolding is_remote key_env
no_key_of_local p h = ground arith

-- What a successful choice satisfies.
abbrev pub IsSound : Manifest → Object String → ModelConfig → Type 0
IsSound manifest secrets model =
    In model.provider manifest.models_supported × (model.api_key ≡ api_key secrets model.provider)

pick_requested-IsSound :
    (manifest : Manifest) (requested : String) (secrets : Object String) (key : String)
    (model : ModelConfig)
    → pick_requested manifest requested secrets key ≡ ok model
    → IsSound manifest secrets model
      × (is_usable secrets model.provider ≡ true)
      × (provider_name model.provider ≡ get_or_default (first (split_on b':' requested)) "")
unfolding pick_requested is_usable
pick_requested-IsSound manifest requested secrets key model h =
    let wanted = get_or_default (first (split_on b':' requested)) "" in
    let fits = λ (p : ModelProvider). str_eq (provider_name p) wanted in
    elim (Option-cases (find fits manifest.models_supported)) [
      | inl absent ↦ let z = rw (absent, pick_requested) at h in cc
      | inr (p, found) ↦
          let (listed, named) = find-eq-some fits manifest.models_supported found in
          let h' = rw (found, pick_requested) at h in
          let same : model ≡ configure secrets p (second (split_on b':' requested)) =
            ground arith in
          let keyed : is_usable secrets p ≡ true = ground (arith, no_key_of_local p) in
          rw same ((listed, refl), keyed, (eq_iff (provider_name p) wanted).0 named)
    ]

pick_default-IsSound :
    (manifest : Manifest) (secrets : Object String) (model : ModelConfig)
    → pick_default manifest secrets ≡ ok model
    → IsSound manifest secrets model
      × ((is_usable secrets model.provider ≡ true)
          ⊎ ((p : ModelProvider) → In p manifest.models_supported → is_usable secrets p ≡ false))
unfolding pick_default
pick_default-IsSound manifest secrets model h =
    let supported = manifest.models_supported in
    let usable = find (is_usable secrets) supported in
    elim (Option-cases (or_else usable (first supported))) [
      | inl absent ↦ let z = rw (absent, pick_default) at h in cc
      | inr (p, found) ↦
          let h' = rw (found, pick_default) at h in
          let same : model ≡ configure secrets p none = ground arith in
          rw same (elim (or_else-eq-some usable (first supported) found) [
            | inl chosen ↦
                let (listed, able) = find-eq-some (is_usable secrets) supported chosen in
                ((listed, refl), inl able)
            | inr (unable, leading) ↦ (
              (first-eq-some supported leading, refl),
              inr (λ q m. find-eq-none (is_usable secrets) supported unable m),
            )
          ])
    ]

-- Whenever a model is picked, its provider is one that the manifest supports, and the key handed to
-- the agent is the one stored under that provider's own variable. A provider that was asked for by
-- name is the provider picked, and its key is there if it needs one; without a request the provider
-- is usable unless none of the supported ones is.
pub pick_model-IsSound :
    (manifest : Manifest) (requested : Option String) (secrets : Object String) (key : String)
    (model : ModelConfig)
    → pick_model manifest requested secrets key ≡ ok model
    → IsSound manifest secrets model
      × (truthy requested ≡ true
          → (is_usable secrets model.provider ≡ true)
            × (provider_name model.provider
                ≡ get_or_default (first (split_on b':' (get_or_default requested ""))) ""))
      × (truthy requested ≡ false
          → (is_usable secrets model.provider ≡ true)
            ⊎ ((p : ModelProvider) → In p manifest.models_supported → is_usable secrets p ≡ false))
unfolding pick_model
pick_model-IsSound manifest requested secrets key model h = elim (Bool-cases (truthy requested)) [
  | inl asked ↦
      let (sound, keyed, named) =
        pick_requested-IsSound manifest (get_or_default requested "") secrets key model
          (rw (asked, pick_model) at h) in
      (sound, (λ _. (keyed, named)), (λ no_request. cc))
  | inr silent ↦
      let (sound, able) =
        pick_default-IsSound manifest secrets model (rw (silent, pick_model) at h) in
      (sound, (λ asked. cc), (λ _. able))
]

-- Without a request a model is always picked for a manifest that supports some provider: the first
-- usable one, or else the first of the list.
pub pick_model_total :
    (manifest : Manifest) (secrets : Object String) (key : String) (p : ModelProvider)
    → first manifest.models_supported ≡ some p
    → (model : ModelConfig) × (pick_model manifest none secrets key ≡ ok model)
      × (model.provider ≡ get_or_default (find (is_usable secrets) manifest.models_supported) p)
unfolding pick_model pick_default configure
pick_model_total manifest secrets key p h =
    elim (Option-cases (find (is_usable secrets) manifest.models_supported)) [
      | inl unable ↦ (configure secrets p none, ground arith, ground arith)
      | inr (q, found) ↦ (configure secrets q none, ground arith, ground arith)
    ]

-- What the environment says of a provider's key: the key under both names, or else which one is
-- missing. A provider without a key has nothing to say.
abbrev pub TellsKey : Object String → Option String → Option String → Type 0
TellsKey env key none = Unit
TellsKey env key (some name) =
    (truthy key ≡ true
      → (lookup name env ≡ key)
        × (lookup "AGENT_API_KEY" env ≡ key)
        × (lookup "AGENT_MODEL_KEY_MISSING" env ≡ none))
    × (truthy key ≡ false
        → (lookup name env ≡ none)
          × (lookup "AGENT_API_KEY" env ≡ none)
          × (lookup "AGENT_MODEL_KEY_MISSING" env ≡ some name))

abbrev keyed : ModelProvider → String → Option String → Option String → ModelConfig
keyed p model base key = record { provider = p; model = model; base_url = base; api_key = key }

build_agent_env_keys :
    (p : ModelProvider) (model agent version : String) (base key : Option String)
    → TellsKey (build_agent_env (keyed p model base key) agent version) key (key_env p)
unfolding build_agent_env key_env provider_name is_remote insert_truthy lookup insert
build_agent_env_keys ModelProvider.openai model agent version base key = ground arith
build_agent_env_keys _ model agent version base key = ground arith
