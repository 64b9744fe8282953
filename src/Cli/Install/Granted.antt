-- ===== src/Cli/Install/Granted.antt =====
-- The permissions that the user grants when an agent is installed.
use open_agent_hub.Prelude.{
  String, none, some, Bool, true, false, ◌≡◌, ◌↔◌, ◌⊎◌, refl, ap, arith, inl, inr, ◌||◌,
  if◌then◌else◌, List, [], ◌∷◌, map, concat, In, In-of_includes, includes_of_In, includes, eq_iff,
  lookup, lookup_last, lookup-spread, Bool-cases,
}
use open_agent_hub.Manifest.{Manifest, Permission}
use open_agent_hub.Permissions.{is_none_only}
use open_agent_hub.Cli.Source.{Machine}
use open_agent_hub.Cli.Install.{InstallOptions, grant_permissions, grant_question, is_empty}

-- A permission is granted where no other than "none" is asked for, or where permissions are not
-- switched off and the user has agreed to all, or says yes to the question for this one.
abbrev pub IsAgreed : Machine → InstallOptions → String → List Permission → Permission → Type 0
IsAgreed m opts agent perms p =
    (perms ≡ "none" ∷ [])
    ⊎ ((opts.no_permissions ≡ false)
        × ((opts.force_yes ≡ true)
            ⊎ (m.confirm (concat ("grant '" ∷ p ∷ "' permission to " ∷ agent ∷ "?" ∷ [])) ≡ true)))

lookup_last-map :
    (f : Permission → Bool) (perms : List Permission) (p : Permission)
    → lookup_last p (map (λ q. (q, f q)) perms) ≡ (if includes p perms then some (f p) else none)
unfolding lookup_last
lookup_last-map f [] p = refl
lookup_last-map f (q ∷ qs) p = ground (arith, eq_iff q p, lookup_last-map f qs p)

is_none_only_iff : (perms : List Permission) → (is_none_only perms ≡ true) ↔ (perms ≡ "none" ∷ [])
is_none_only_iff [] = ground arith
is_none_only_iff (p ∷ []) = ground (arith, eq_iff p "none")
is_none_only_iff (p ∷ q ∷ ps) = ground arith

-- what the loop fills in for one permission
abbrev decision : Machine → InstallOptions → String → List Permission → Permission → Bool
decision m opts agent perms p =
    if is_empty perms || is_none_only perms
    then true
    else if opts.no_permissions
    then false
    else opts.force_yes || m.confirm (grant_question agent p)

decision_iff :
    (m : Machine) (opts : InstallOptions) (agent : String) (perms : List Permission)
    (p : Permission)
    → In p perms
    → (decision m opts agent perms p ≡ true) ↔ IsAgreed m opts agent perms p
decision_iff m opts agent [] p h = absurd h
decision_iff m opts agent (q ∷ qs) p h = ground (arith, is_none_only_iff (q ∷ qs))

module _ (m : Machine) (opts : InstallOptions) (manifest : Manifest) (perms : List Permission)
    (p : Permission) where
  lookup-grant_permissions :
      lookup p (grant_permissions m opts manifest perms)
      ≡ (if includes p perms then some (decision m opts manifest.name perms p) else none)
  unfolding grant_permissions lookup
  lookup-grant_permissions =
      let f : Permission → Bool = decision m opts manifest.name perms in
      ground (arith, lookup-spread p [] (map (λ q. (q, f q)) perms), lookup_last-map f perms p)

  -- A permission is saved as granted exactly if it is asked for and agreed to, and is absent from what
  -- is saved exactly if it is not asked for.
  pub grant_permissions_iff :
      ((lookup p (grant_permissions m opts manifest perms) ≡ some true)
        ↔ (In p perms × IsAgreed m opts manifest.name perms p))
      × ((lookup p (grant_permissions m opts manifest perms) ≡ none) ↔ (¬ (In p perms)))
  grant_permissions_iff = elim (Bool-cases (includes p perms)) [
    | inl e ↦
        let asked = In-of_includes p perms e in
        let d = decision_iff m opts manifest.name perms p asked in
        rw (lookup-grant_permissions, e)
          (
            ((λ h. (asked, d.0 (ground arith))), (λ h. ap (λ b. some b) (d.1 h.1))),
            ((λ h. ground arith), (λ h. absurd (h asked))),
          )
    | inr e ↦
        let absent : ¬ (In p perms) = (λ h. let t = includes_of_In p perms h in cc) in
        rw (lookup-grant_permissions, e)
          (((λ h. ground arith), (λ h. absurd (absent h.0))), ((λ h. absent), (λ h. refl)))
  ]
