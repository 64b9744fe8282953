-- ===== src/Requirements.antt =====
-- sdk/src/runtime.ts: what an agent needs of the machine. The programs that are asked for their
-- versions are an argument: the output of a command, absent where it cannot be run.
use open_agent_hub.Prelude.{
  ℕ, ltb, length, String, Option, none, some, Bool, true, false, ◌&&◌, not, if◌then◌else◌, List, [],
  ◌∷◌, ◌++◌, str_eq, is_some, truthy, get_or_default, concat, split_on, trim, first,
}
use open_agent_hub.Manifest
use open_agent_hub.Manifest.{Manifest, RuntimeLanguage, Dependencies}
use open_agent_hub.Sandbox.Policy.{
  TrustLevel, trusted, local, untrusted, unknown, requested_sandbox,
}
use open_agent_hub.Requirements.Versions.{version_satisfies, remove_first, drop_v}
pub mod Versions
pub mod Met

pub record DetectedRuntime : Type 0 where
  pub python : Option String
  pub node : Option String
  pub docker : Bool
  pub docker_version : Option String
  pub ollama : Bool
  pub uv : Bool
  pub git : Bool

-- `s || undefined`
abbrev non_empty : String → Option String
non_empty s = if str_eq s "" then none else some s

-- the first line of an output
abbrev first_line : Option String → Option String
first_line none = none
first_line (some out) = non_empty (get_or_default (first (split_on 10 (trim out))) "")

unfoldable pub detect_runtime : (String → List String → Option String) → DetectedRuntime
detect_runtime spawn =
    let run : String → List String → Option String = λ cmd args. first_line (spawn cmd args) in
    let version = "--version" ∷ [] in
    record {
      python = run "python3" version;
      node = run "node" version;
      docker = is_some (run "docker" version);
      docker_version = run "docker" version;
      ollama = is_some (run "ollama" version);
      uv = is_some (run "uv" version);
      git = is_some (run "git" version);
    }

pub record RequirementCheck : Type 0 where
  pub satisfied : Bool
  pub missing : List String
  pub messages : List String

-- what is missing, and the messages
abbrev pub Notes : Type 0
Notes = List String × List String

abbrev both : Notes → Notes → Notes
both (xs, ms) (ys, ns) = (xs ++ ys, ms ++ ns)

-- a version that was found, and what is wanted of it
unfoldable pub check_version : String → String → String → String → Option String → Notes
check_version tool program version shown wanted =
    let specifier = get_or_default wanted "undefined" in
    let found = concat (tool ∷ " " ∷ version ∷ " detected." ∷ []) in
    if version_satisfies (some version) wanted then ([], found ∷ []) else (
      concat (program ∷ " satisfying '" ∷ specifier ∷ "'" ∷ []) ∷ [],
      found ∷ concat (tool ∷ " " ∷ shown ∷ " does not satisfy '" ∷ specifier ∷ "'." ∷ []) ∷ [],
    )

unfoldable pub check_python : Manifest → DetectedRuntime → Notes
check_python manifest detected =
    let shown = get_or_default detected.python "" in
    if truthy detected.python
    then check_version "Python" "python3" (remove_first "Python " shown) shown
        manifest.runtime.python
    else ("python3 (>=3.11 recommended)" ∷ [], "Python 3 not found." ∷ [])

unfoldable pub check_node : Manifest → DetectedRuntime → Notes
check_node manifest detected =
    let shown = get_or_default detected.node "" in
    if truthy detected.node
    then check_version "Node" "node" (drop_v false shown) shown manifest.runtime.node
    else ("node (>=18)" ∷ [], "Node.js not found." ∷ [])

abbrev unchecked : String → Notes
unchecked language = ([], concat ("Language '" ∷ language ∷ "' has no version check." ∷ []) ∷ [])

unfoldable pub check_language : Manifest → DetectedRuntime → RuntimeLanguage → Notes
check_language manifest detected Manifest.python = check_python manifest detected
check_language manifest detected Manifest.node = check_node manifest detected
check_language manifest detected Manifest.go = unchecked "go"
check_language manifest detected Manifest.rust = unchecked "rust"
check_language manifest detected Manifest.other = unchecked "other"

-- `manifest.runtime.sandbox === "container"`
abbrev pub wants_container : Option Manifest.SandboxRequest → Bool
wants_container (some Manifest.container) = true
wants_container _ = false

unfoldable pub check_docker : Manifest → DetectedRuntime → Notes
check_docker manifest detected =
    if wants_container manifest.runtime.sandbox && not detected.docker
    then (
      "docker (agent requires container sandbox)" ∷ [],
      "Agent requires a container sandbox but Docker is not available." ∷ [],
    )
    else ([], [])

-- `manifest.dependencies?.system`
abbrev pub system_of : Option Dependencies → List String
system_of none = []
system_of (some d) = get_or_default d.system []

unfoldable pub check_system : Manifest → Notes
check_system manifest =
    if ltb 0 (length (system_of manifest.dependencies))
    then (
      "unsupported dependencies.system" ∷ [],
      "dependencies.system is not supported by OpenAgentHub yet." ∷ [],
    )
    else ([], [])

abbrev is_empty : List String → Bool
is_empty [] = true
is_empty (_ ∷ _) = false

unfoldable pub check_agent_requirements : Manifest → DetectedRuntime → RequirementCheck
check_agent_requirements manifest detected =
    let (missing, messages) =
      both (check_language manifest detected manifest.runtime.language)
        (both (check_docker manifest detected) (check_system manifest)) in
    record { satisfied = is_empty missing; missing = missing; messages = messages }

pub data StrategyMode : Type 0 where
  container isolated_process : StrategyMode

pub record SandboxStrategy : Type 0 where
  pub mode : StrategyMode
  pub reason : String

abbrev strategy : StrategyMode → String → SandboxStrategy
strategy mode reason = record { mode = mode; reason = reason }

unfoldable pub requested_strategy : Manifest.SandboxRequest → SandboxStrategy
requested_strategy Manifest.container = strategy container "manifest requests container sandbox"
requested_strategy Manifest.isolated_process =
    strategy isolated_process "manifest requests isolated-process sandbox"
requested_strategy Manifest.auto =
    strategy isolated_process "trusted or local agent; using fast isolated-process path"

unfoldable pub decide_sandbox : Manifest → TrustLevel → SandboxStrategy
unfolding requested_sandbox
decide_sandbox manifest untrusted =
    strategy container "agent is untrusted; requires container isolation"
decide_sandbox manifest unknown =
    strategy container "trust unknown; defaulting to container isolation"
decide_sandbox manifest trusted = requested_strategy (requested_sandbox manifest)
decide_sandbox manifest local = requested_strategy (requested_sandbox manifest)
