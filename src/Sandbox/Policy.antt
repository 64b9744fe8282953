-- ===== src/Sandbox/Policy.antt =====
-- runtime/src/sandbox/policy.ts: which sandbox an agent runs in, from its trust, its review status,
-- a local override and its manifest.
use open_agent_hub.Prelude.{
  String, [], ◌∷◌, Option, none, some, Bool, true, false, not, ◌&&◌, ◌||◌, if◌then◌else◌, is_some,
  truthy, is_text, str_eq, concat, get_or_default,
}
use open_agent_hub.Manifest
use open_agent_hub.Manifest.{Manifest}
pub mod Laws

pub data TrustLevel : Type 0 where
  trusted untrusted unknown local : TrustLevel

pub data SandboxMode : Type 0 where
  container process : SandboxMode

pub record SandboxOverride : Type 0 where
  pub sandbox : SandboxMode
  pub digest : String
  pub set_at : String

pub record SandboxPolicyInput : Type 0 where
  pub trust : TrustLevel
  pub manifest : Manifest
  pub review_status : Option String
  pub status_fresh : Option Bool
  pub override : Option SandboxOverride
  pub archive_digest : Option String

pub record SandboxDecision : Type 0 where
  pub mode : SandboxMode
  pub reason : String
  pub blocked : Option String
  pub override_applied : Option Bool
  pub stale_status : Option Bool

abbrev decide_on : SandboxMode → String → SandboxDecision
decide_on mode reason = record {
  mode = mode;
  reason = reason;
  blocked = none;
  override_applied = none;
  stale_status = none;
}

-- `BLOCKED_STATUSES.has(status)`; an empty status is not in the set either
unfoldable pub is_blocked : Option String → Bool
is_blocked status = is_text status "rejected" || is_text status "revoked"

abbrev pub is_true : Option Bool → Bool
is_true (some true) = true
is_true (some false) = false
is_true none = false

abbrev is_false : Option Bool → Bool
is_false (some true) = false
is_false (some false) = true
is_false none = false

-- `input.archiveDigest && input.override.digest !== input.archiveDigest`
unfoldable pub digest_changed : Option String → String → Bool
digest_changed digest recorded = truthy digest && not (is_text digest recorded)

override_decision : Option String → SandboxOverride → SandboxDecision
override_decision digest o =
    if digest_changed digest o.digest
    then decide_on container
        "sandbox override is stale (archive digest changed); using container isolation"
    else elim o.sandbox [
      | process ↦ record (decide_on process "local sandbox policy overrides to process execution") {
        override_applied = some true;
      }
      | container ↦ record (decide_on container "local sandbox policy forces container isolation") {
        override_applied = some true;
      }
    ]

requested_decision : Manifest.SandboxRequest → SandboxDecision
requested_decision Manifest.container = decide_on container "manifest requests container sandbox"
requested_decision Manifest.isolated_process =
    decide_on process "manifest requests isolated-process sandbox"
requested_decision Manifest.auto =
    decide_on process "trusted or local agent; using fast isolated-process path"

unfoldable pub requested_sandbox : Manifest → Manifest.SandboxRequest
requested_sandbox m = get_or_default m.runtime.sandbox Manifest.auto

-- the part of `effectiveSandbox` behind the check of the source's trust
trusted_decision : SandboxPolicyInput → SandboxDecision
unfolding override_decision requested_decision requested_sandbox
trusted_decision input =
    if is_some input.review_status
      && not (is_text input.review_status "verified")
      && not (is_true input.status_fresh)
    then record (decide_on container (
        concat (
          "review status '"
          ∷ get_or_default input.review_status ""
          ∷ "' is not verified; using container isolation"
          ∷ []))) { stale_status = some (is_false input.status_fresh) }
    else elim input.override [
      | some o ↦ override_decision input.archive_digest o
      | none ↦ requested_decision (requested_sandbox input.manifest)
    ]

-- the checks of `effectiveSandbox`, in the order of the source
unfoldable pub effective_sandbox : SandboxPolicyInput → SandboxDecision
unfolding trusted_decision
effective_sandbox input =
    if is_blocked input.review_status
    then record (decide_on container "not used") {
      blocked = some (
          concat (
            "this version was "
            ∷ get_or_default input.review_status ""
            ∷ " by the registry and cannot be run"
            ∷ []));
    }
    else elim input.trust [
      | untrusted ↦
          decide_on container "agent is not trusted; source trust requires container isolation"
      | unknown ↦ decide_on container "agent trust is unknown; defaulting to container isolation"
      | trusted ↦ trusted_decision input
      | local ↦ trusted_decision input
    ]

is_isolated_process : Manifest.SandboxRequest → Bool
is_isolated_process Manifest.isolated_process = true
is_isolated_process Manifest.container = false
is_isolated_process Manifest.auto = false

unfoldable pub manifest_can_force_process : Manifest → Bool
unfolding is_isolated_process requested_sandbox
manifest_can_force_process m = is_isolated_process (requested_sandbox m)
