-- ===== src/Permissions/Grants.antt =====
-- What an agent is granted: its permissions and the secrets that it may read.
use open_agent_hub.Prelude.{
  String, Option, Bool, true, false, ◌&&◌, ◌≡◌, ◌≢◌, ◌↔◌, ◌⊎◌, inl, inr, arith, refl, sym, subst,
  List, [], ◌∷◌, keys, keep, In, In-of_keep, In-keep, In-of_keys, In-keys, In-of_includes,
  includes_of_In, includes, Bool-cases, and_true, eq_iff, get_or_default, lookup-insert,
  lookup-insert_self, lookup-get_or_default, In-of_append, In-append_left, In-append_right,
  Distinct, Distinct-append_one,
}
use open_agent_hub.Manifest.{Permission}
use open_agent_hub.Permissions.{
  GrantedPermissions, Store, effective_permissions, is_none_only, granted_secret_names,
  save_secret_grant, add_grant,
}

-- The permissions that a manifest names.
abbrev pub named : Option (List Permission) → List Permission
named manifest = get_or_default manifest []

is_none_only_of_not_In : (ps : List Permission) → ¬ (In "none" ps) → is_none_only ps ≡ false
is_none_only_of_not_In [] h = refl
is_none_only_of_not_In (p ∷ []) h = ground (arith, eq_iff p "none")
is_none_only_of_not_In (_ ∷ _ ∷ _) h = refl

effective_of_none :
    (manifest : Option (List Permission)) (saved : GrantedPermissions)
    → In "none" (named manifest)
    → effective_permissions manifest saved ≡ []
unfolding effective_permissions
effective_of_none manifest saved h = rw (includes_of_In "none" (named manifest) h)

abbrev counts : List Permission → String × Bool → Bool
counts requested e = e.1 && includes e.0 requested

effective_of_not_none :
    (manifest : Option (List Permission)) (saved : GrantedPermissions)
    → ¬ (In "none" (named manifest))
    → effective_permissions manifest saved ≡ keys (keep (counts (named manifest)) saved)
unfolding effective_permissions
effective_of_not_none manifest saved h = elim (Bool-cases (includes "none" (named manifest))) [
  | inl e ↦ absurd (h (In-of_includes "none" (named manifest) e))
  | inr e ↦ rw (e, is_none_only_of_not_In (named manifest) h)
]

-- what the filter of `effectivePermissions` lets through
In-counts :
    (requested : List Permission) (saved : GrantedPermissions) (p : Permission)
    → In p (keys (keep (counts requested) saved)) ↔ (In p requested × In (p, true) saved)
In-counts requested saved p = (
  (λ h.
      let (v, kept) = In-of_keys p (keep (counts requested) saved) h in
      let (held, passed) = In-of_keep (counts requested) saved kept in
      let (granted, listed) = and_true v (includes p requested) passed in
      (In-of_includes p requested listed, subst (λ b. In (p, b) saved) granted held)),
  (λ (listed, held).
      In-keys p true (keep (counts requested) saved)
        (In-keep (counts requested) saved held (includes_of_In p requested listed))),
)

-- A permission is in effect exactly when the manifest names it, the manifest does not name "none",
-- and the saved grants hold it as true.
pub effective_permissions_iff :
    (manifest : Option (List Permission)) (saved : GrantedPermissions) (p : Permission)
    → In p (effective_permissions manifest saved)
      ↔ (In p (named manifest) × (¬ (In "none" (named manifest))) × In (p, true) saved)
effective_permissions_iff manifest saved p = elim (Bool-cases (includes "none" (named manifest))) [
  | inl e ↦
      let listed = In-of_includes "none" (named manifest) e in
      (
        (λ h. absurd (subst (In p) (effective_of_none manifest saved listed) h)),
        (λ h. absurd (h.1 listed)),
      )
  | inr e ↦
      let free : ¬ (In "none" (named manifest)) =
        (λ h. let t = includes_of_In "none" (named manifest) h in cc) in
      let same = effective_of_not_none manifest saved free in
      let rule = In-counts (named manifest) saved p in
      (
        (λ h. let (a, b) = rule.0 (subst (In p) same h) in (a, free, b)),
        (λ h. subst (In p) (sym same) (rule.1 (h.0, h.2))),
      )
]

pub In-add_grant :
    (secret k : String) (grants : List String)
    → In k (add_grant secret grants) ↔ ((secret ≡ k) ⊎ In k grants)
unfolding add_grant
In-add_grant secret k grants = elim (Bool-cases (includes secret grants)) [
  | inl old ↦ rw old (
    (λ h. inr h),
    (λ h. elim h [
      | inl e ↦ subst (λ x. In x grants) e (In-of_includes secret grants old)
      | inr m ↦ m
    ]),
  )
  | inr new ↦ rw new (
    (λ h. elim (In-of_append k grants (secret ∷ []) h) [
      | inl m ↦ inr m
      | inr one ↦ elim one [ inl e ↦ inl e | inr z ↦ absurd z ]
    ]),
    (λ h. elim h [
      | inl e ↦ In-append_right k grants (secret ∷ []) (inl e)
      | inr m ↦ In-append_left k grants (secret ∷ []) m
    ]),
  )
]

Distinct-add_grant :
    (secret : String) (grants : List String) → Distinct grants → Distinct (add_grant secret grants)
unfolding add_grant
Distinct-add_grant secret grants d = elim (Bool-cases (includes secret grants)) [
  | inl old ↦ rw old d
  | inr new ↦
      rw new
        (Distinct-append_one grants secret d (λ m. let t = includes_of_In secret grants m in cc))
]

add_grant_twice :
    (secret : String) (grants : List String)
    → add_grant secret (add_grant secret grants) ≡ add_grant secret grants
add_grant_twice secret grants =
    let held = (In-add_grant secret secret grants).1 (inl refl) in
    let listed = includes_of_In secret (add_grant secret grants) held in
    unfold add_grant in ground (arith, listed)

module _ (s : Store) (key secret : String) where
  pub granted_self :
      granted_secret_names key (save_secret_grant s key secret).config
      ≡ add_grant secret (granted_secret_names key s.config)
  unfolding save_secret_grant granted_secret_names
  granted_self = simp (lookup-insert_self, lookup-get_or_default)

  granted_other :
      (other : String)
      → other ≢ key
      → granted_secret_names other (save_secret_grant s key secret).config
        ≡ granted_secret_names other s.config
  unfolding save_secret_grant granted_secret_names
  granted_other other different =
      simp (lookup-insert, lookup-get_or_default) (ground (arith, eq_iff key other))

  -- Saving the grant of a secret adds it to the agent's secrets, once, and takes none away; the
  -- secrets of every other agent stay as they were.
  pub granted-save_secret_grant :
      Distinct (granted_secret_names key s.config)
      → ((k : String)
          → In k (granted_secret_names key (save_secret_grant s key secret).config)
            ↔ ((secret ≡ k) ⊎ In k (granted_secret_names key s.config)))
        × Distinct (granted_secret_names key (save_secret_grant s key secret).config)
        × ((other : String)
            → other ≢ key
            → granted_secret_names other (save_secret_grant s key secret).config
              ≡ granted_secret_names other s.config)
  granted-save_secret_grant d =
      let old = granted_secret_names key s.config in
      rw granted_self
        ((λ k. In-add_grant secret k old), Distinct-add_grant secret old d, granted_other)
