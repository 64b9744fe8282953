-- ===== src/Cli/Prepare/Answers.antt =====
-- The secrets that a run grants, by the answers of the user.
use open_agent_hub.Prelude.{
  String, some, map, concat, ◌≡◌, ◌↔◌, ◌⊎◌, refl, sym, subst, arith, inl, inr, Bool, true, false,
  List, [], ◌∷◌, In, Bool-cases, Option-cases,
}
use mathlib.Core.Option.{some_inj}
use open_agent_hub.Cli.Prepare.{PrepareOptions, answered_yes, newly_granted, question}

-- The answer that stands at the place of the secret is yes.
abbrev pub SaysYes : String → List String → List Bool → Type 0
SaysYes s [] answers = ⊥
SaysYes s (n ∷ names) [] = ⊥
SaysYes s (n ∷ names) (b ∷ answers) = ((n ≡ s) × (b ≡ true)) ⊎ SaysYes s names answers

answered_yes_iff :
    (names : List String) (answers : List Bool) (k : String)
    → In k (answered_yes names answers) ↔ SaysYes k names answers
unfolding answered_yes
answered_yes_iff [] answers k = ((λ h. h), (λ h. h))
answered_yes_iff (n ∷ names) [] k = ((λ h. h), (λ h. h))
answered_yes_iff (n ∷ names) (true ∷ answers) k = ground (arith, answered_yes_iff names answers k)
answered_yes_iff (n ∷ names) (false ∷ answers) k = ground (arith, answered_yes_iff names answers k)

SaysYes_asked :
    (names : List String) (answers : List Bool) (k : String) → SaysYes k names answers → In k names
SaysYes_asked [] answers k h = absurd h
SaysYes_asked (n ∷ names) [] k h = absurd h
SaysYes_asked (n ∷ names) (b ∷ answers) k (inl e) = inl e.0
SaysYes_asked (n ∷ names) (b ∷ answers) k (inr h) = inr (SaysYes_asked names answers k h)

-- The caller allows all secrets, or the user is asked and says yes to this one.
abbrev pub IsAllowed : PrepareOptions → String → List String → String → Type 0
IsAllowed opts agent names s =
    (opts.allow_secrets ≡ true)
    ⊎ ((confirm : List String → List Bool) × (opts.confirm_secrets ≡ some confirm)
        × SaysYes s names (
            confirm (
              map (λ n. concat ("expose stored secret '" ∷ n ∷ "' to " ∷ agent ∷ "?" ∷ [])) names)))

pub newly_granted_iff :
    (opts : PrepareOptions) (agent : String) (names : List String) (k : String)
    → In k (newly_granted opts agent names) ↔ (In k names × IsAllowed opts agent names k)
unfolding newly_granted
newly_granted_iff opts agent names k = elim (Bool-cases opts.allow_secrets) [
  | inl e ↦ rw e ((λ h. (h, inl refl)), (λ h. h.0))
  | inr e ↦ elim (Option-cases opts.confirm_secrets) [
    | inl silent ↦
        rw (e, silent)
          (
            (λ h. absurd h),
            (λ h. elim h.1 [
              | inl z ↦ absurd (ground arith)
              | inr z ↦ absurd (ground (arith, z.1))
            ]),
          )
    | inr (confirm, asked) ↦
        let yes = answered_yes_iff names (confirm (map (question agent) names)) k in
        rw (e, asked)
          (
            (λ h. (SaysYes_asked names _ k (yes.0 h), inr (confirm, refl, yes.0 h))),
            (λ h. elim h.1 [
              | inl z ↦ absurd (ground arith)
              | inr z ↦ yes.1 (
                  subst (λ c. SaysYes k names (c (map (question agent) names)))
                    (sym (some_inj.0 z.1)) z.2)
            ]),
          )
  ]
]
