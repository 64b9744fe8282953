-- ===== src/Sandbox/Policy/Laws.antt =====
-- When an agent may run outside a container.
use open_agent_hub.Prelude.{
  concat, str_eq, refl, [], ◌∷◌, String, Option, none, some, true, false, ◌≡◌, ◌≢◌, ◌↔◌, ◌⊎◌, arith,
  truthy, is_text_iff, Option-cases, inl, inr,
}
use open_agent_hub.Manifest
use open_agent_hub.Sandbox.Policy.{
  trusted, local, process, SandboxOverride, SandboxPolicyInput, is_blocked, digest_changed,
  requested_sandbox, effective_sandbox,
}

-- The status is one by which the registry forbids a version.
abbrev pub IsBlocked : Option String → Type 0
IsBlocked status = (status ≡ some "rejected") ⊎ (status ≡ some "revoked")

-- The override was made for the archive at hand, or the archive's digest is not known.
abbrev pub IsCurrent : Option String → SandboxOverride → Type 0
IsCurrent digest o = (truthy digest ≡ false) ⊎ (digest ≡ some o.digest)

-- The conditions under which an agent may run as a plain process.
pub record MayRunAsProcess (input : SandboxPolicyInput) : Type 0 where
  pub source : (input.trust ≡ trusted) ⊎ (input.trust ≡ local)
  pub allowed : ¬ (IsBlocked input.review_status)
  pub reviewed :
      (input.review_status ≡ none)
      ⊎ (input.review_status ≡ some "verified")
      ⊎ (input.status_fresh ≡ some true)
  pub chosen :
      ((o : SandboxOverride) × (input.override ≡ some o)
        × (o.sandbox ≡ process)
        × IsCurrent input.archive_digest o)
      ⊎ ((input.override ≡ none) × (requested_sandbox input.manifest ≢ Manifest.container))

is_blocked_iff : (status : Option String) → (is_blocked status ≡ true) ↔ IsBlocked status
unfolding is_blocked
is_blocked_iff status = ground (arith, is_text_iff status "rejected", is_text_iff status "revoked")

digest_changed_iff :
    (digest : Option String) (o : SandboxOverride)
    → (digest_changed digest o.digest ≡ false) ↔ IsCurrent digest o
unfolding digest_changed
digest_changed_iff digest o = ground (arith, is_text_iff digest o.digest)

-- An agent runs as a plain process exactly when its source is trusted or local, its version is not
-- rejected or revoked, its review status is absent, or "verified" whether or not it is fresh, or
-- freshly checked, and either an override asks for a process, whose digest is the one of the archive
-- or the digest of the archive is not known, or there is no override and the manifest does not ask
-- for a container.
pub process_iff :
    (input : SandboxPolicyInput)
    → ((effective_sandbox input).mode ≡ process) ↔ MayRunAsProcess input
unfolding effective_sandbox requested_sandbox
process_iff input =
    let blocked = is_blocked_iff input.review_status in
    let verified = is_text_iff input.review_status "verified" in
    (
      λ h. record {
        source = ground arith;
        allowed = ground (arith, blocked);
        reviewed = ground (arith, verified);
        chosen = elim (Option-cases input.override) [
          | inl absent ↦ inr (absent, ground arith)
          | inr (o, given) ↦
              inl
                (o, given, ground arith, ground (arith, digest_changed_iff input.archive_digest o))
        ];
      },
      λ m. elim m.chosen [
        | inl (o, given, wanted, current) ↦
            ground (arith, blocked, verified, digest_changed_iff input.archive_digest o)
        | inr (absent, free) ↦ ground (arith, blocked, verified)
      ],
    )

-- The decision names a reason to refuse the run exactly for a rejected or revoked version, whatever
-- else holds of the agent.
pub blocked_iff :
    (input : SandboxPolicyInput)
    → ((effective_sandbox input).blocked ≢ none) ↔ IsBlocked input.review_status
unfolding effective_sandbox
blocked_iff input = let blocked = is_blocked_iff input.review_status in ground (arith, blocked)

blocked_text :
    (status : Option String)
    → IsBlocked status
    → (s : String) × (status ≡ some s)
      × (str_eq (concat ("this version was " ∷ s ∷ " by the registry and cannot be run" ∷ [])) ""
          ≡ false)
unfolding concat
blocked_text status (inl e) = ("rejected", e, refl)
blocked_text status (inr e) = ("revoked", e, refl)

-- The text that refuses a run is not empty, so the code's test of it finds it.
pub blocked-truthy :
    (input : SandboxPolicyInput)
    → IsBlocked input.review_status
    → truthy (effective_sandbox input).blocked ≡ true
unfolding effective_sandbox
blocked-truthy input h =
    let (s, status, full) = blocked_text input.review_status h in
    ground (arith, is_blocked_iff input.review_status)

-- An override is reported as applied only where it decides: the decision's mode is then the
-- override's, its archive is the one at hand, and the source is trusted or local.
pub override_applied :
    (input : SandboxPolicyInput)
    → (effective_sandbox input).override_applied ≡ some true
    → (o : SandboxOverride) × (input.override ≡ some o)
      × ((effective_sandbox input).mode ≡ o.sandbox)
      × IsCurrent input.archive_digest o
      × ((input.trust ≡ trusted) ⊎ (input.trust ≡ local))
unfolding effective_sandbox
override_applied input h = elim (Option-cases input.override) [
  | inl absent ↦ absurd (ground arith)
  | inr (o, given) ↦ (
    o,
    given,
    ground arith,
    ground (arith, digest_changed_iff input.archive_digest o),
    ground arith,
  )
]
