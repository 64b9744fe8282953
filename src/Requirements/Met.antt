-- ===== src/Requirements/Met.antt =====
-- When the requirements of an agent are met, and how the strategy of sdk/src/runtime.ts relates to
-- the policy that a run follows.
use open_agent_hub.Prelude.{
  String, Option, none, some, true, false, ◌≡◌, ◌≢◌, ◌↔◌, ◌⊎◌, refl, arith, inl, inr, [], eq_iff,
  Option-cases,
}
use open_agent_hub.Manifest
use open_agent_hub.Manifest.{Manifest, RuntimeLanguage}
use open_agent_hub.Sandbox.Policy.{
  TrustLevel, trusted, local, process, SandboxPolicyInput, effective_sandbox, requested_sandbox,
}
use open_agent_hub.Sandbox.Policy.Laws.{IsBlocked, process_iff}
use open_agent_hub.Requirements.Versions.{version_satisfies, remove_first, drop_v}
use open_agent_hub.Requirements.{
  DetectedRuntime, check_version, check_python, check_node, check_language, check_docker, system_of,
  check_system, check_agent_requirements, isolated_process, decide_sandbox, requested_strategy,
}

-- A program was found, and what it says of its version fits what is wanted.
abbrev pub IsFound : Option String → (String → String) → Option String → Type 0
IsFound detected version wanted =
    (shown : String) × (detected ≡ some shown)
    × (shown ≢ "")
    × (version_satisfies (some (version shown)) wanted ≡ true)

-- The language of the agent has what it runs on; only Python and Node are looked for.
abbrev pub HasLanguage : Manifest → DetectedRuntime → RuntimeLanguage → Type 0
HasLanguage m d Manifest.python = IsFound d.python (remove_first "Python ") m.runtime.python
HasLanguage m d Manifest.node = IsFound d.node (drop_v false) m.runtime.node
HasLanguage m d Manifest.go = Unit
HasLanguage m d Manifest.rust = Unit
HasLanguage m d Manifest.other = Unit

check_python_iff :
    (m : Manifest) (d : DetectedRuntime)
    → ((check_python m d).0 ≡ []) ↔ IsFound d.python (remove_first "Python ") m.runtime.python
unfolding check_python check_version
check_python_iff m d = elim (Option-cases d.python) [
  | inl e ↦ rw e ((λ h. ground arith), (λ h. ground arith))
  | inr (shown, e) ↦ rw e (ground (arith, eq_iff shown ""))
]

check_node_iff :
    (m : Manifest) (d : DetectedRuntime)
    → ((check_node m d).0 ≡ []) ↔ IsFound d.node (drop_v false) m.runtime.node
unfolding check_node check_version
check_node_iff m d = elim (Option-cases d.node) [
  | inl e ↦ rw e ((λ h. ground arith), (λ h. ground arith))
  | inr (shown, e) ↦ rw e (ground (arith, eq_iff shown ""))
]

check_language_iff :
    (m : Manifest) (d : DetectedRuntime) (l : RuntimeLanguage)
    → ((check_language m d l).0 ≡ []) ↔ HasLanguage m d l
unfolding check_language
check_language_iff m d Manifest.python = check_python_iff m d
check_language_iff m d Manifest.node = check_node_iff m d
check_language_iff m d Manifest.go = ((λ h. tt), (λ h. refl))
check_language_iff m d Manifest.rust = ((λ h. tt), (λ h. refl))
check_language_iff m d Manifest.other = ((λ h. tt), (λ h. refl))

check_docker_iff :
    (m : Manifest) (d : DetectedRuntime)
    → ((check_docker m d).0 ≡ []) ↔ (m.runtime.sandbox ≡ some Manifest.container → d.docker ≡ true)
unfolding check_docker
check_docker_iff m d = ground arith

check_system_iff : (m : Manifest) → ((check_system m).0 ≡ []) ↔ (system_of m.dependencies ≡ [])
unfolding check_system
check_system_iff m = ground arith

-- A machine satisfies an agent exactly if the language of the agent, where it is Python or Node, was
-- found in a version that fits the manifest, docker is there where the manifest asks for a
-- container, and the manifest has no system dependencies.
pub check_agent_requirements_iff :
    (m : Manifest) (d : DetectedRuntime)
    → ((check_agent_requirements m d).satisfied ≡ true) ↔ (
        HasLanguage m d m.runtime.language
        × (m.runtime.sandbox ≡ some Manifest.container → d.docker ≡ true)
        × (system_of m.dependencies ≡ []))
unfolding check_agent_requirements
check_agent_requirements_iff m d =
    ground
      (arith, check_language_iff m d m.runtime.language, check_docker_iff m d, check_system_iff m)

strategy_iff :
    (m : Manifest) (trust : TrustLevel)
    → ((decide_sandbox m trust).mode ≡ isolated_process)
      ↔ (((trust ≡ trusted) ⊎ (trust ≡ local)) × (requested_sandbox m ≢ Manifest.container))
unfolding decide_sandbox requested_strategy
strategy_iff m trust = ground arith

-- Without an override, an agent runs as a plain process exactly if the strategy of the SDK chooses a
-- process for its manifest and trust, its version is neither rejected nor revoked, and its review
-- status is absent, or "verified" whether or not it is fresh, or freshly checked.
pub decide_sandbox_iff :
    (input : SandboxPolicyInput)
    → input.override ≡ none
    → ((effective_sandbox input).mode ≡ process) ↔ (
        ((decide_sandbox input.manifest input.trust).mode ≡ isolated_process)
        × (¬ (IsBlocked input.review_status))
        × ((input.review_status ≡ none)
            ⊎ (input.review_status ≡ some "verified")
            ⊎ (input.status_fresh ≡ some true)))
decide_sandbox_iff input e =
    let may = process_iff input in
    let strategy = strategy_iff input.manifest input.trust in
    (
      (λ h.
          let m = may.0 h in
          let free : requested_sandbox input.manifest ≢ Manifest.container = elim m.chosen [
            | inl (o, given, wanted, current) ↦ absurd (cc)
            | inr (absent, free) ↦ free
          ] in
          (strategy.1 (m.source, free), m.allowed, m.reviewed)),
      (λ h.
          let (source, free) = strategy.0 h.0 in
          may.1
            (record { source = source; allowed = h.1; reviewed = h.2; chosen = inr (e, free) })),
    )

-- An agent that misses nothing is satisfied.
pub satisfied_of_missing :
    (m : Manifest) (d : DetectedRuntime)
    → (check_agent_requirements m d).missing ≡ []
    → (check_agent_requirements m d).satisfied ≡ true
unfolding check_agent_requirements
satisfied_of_missing m d h = rw h refl
