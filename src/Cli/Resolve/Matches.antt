-- ===== src/Cli/Resolve/Matches.antt =====
-- What a request resolves to is installed, has the agent's name, and is the version that was asked
-- for or the highest.
use open_agent_hub.Prelude.{
  ℕ, ◌≡◌, ◌∙◌, starts_with, refl, sym, ap, subst, arith, inl, inr, String, Option, none, some, true,
  false, List, [], ◌∷◌, map, keep, find, last, In, In-of_keep, In-keep, find-eq-some, Bool-cases,
  List-cases, eq_iff, str_eq, truthy, get_or_default, concat, ok,
}
use mathlib.Core.Option.{some_inj}
use open_agent_hub.Permissions.{InstalledAgent, OpenAgentHubConfig}
use open_agent_hub.Cli.Version.{Order, sort, is_greater}
use open_agent_hub.Cli.Version.Highest.{
  In-of_sort, IsOrdering, IsRelease, releases_order, last-sort,
}
use open_agent_hub.Cli.Resolve.{
  InstalledMatch, as_match, compare_matches, installed_matches, choose, or_throw,
  resolve_installed_or_throw,
}

In-of_map :
    {A B : Type 0} (f : A → B) (xs : List A) (b : B)
    → In b (map f xs)
    → (a : A) × In a xs × (f a ≡ b)
In-of_map f [] b h = absurd h
In-of_map f (x ∷ xs) b (inl e) = (x, inl refl, e)
In-of_map f (x ∷ xs) b (inr h) = let (a, m, e) = In-of_map f xs b h in (a, inr m, e)

In-of_last : {A : Type 0} (xs : List A) (a : A) → last xs ≡ some a → In a xs
In-of_last [] a h = cc
In-of_last (x ∷ []) a h = inl (some_inj.0 h)
In-of_last (x ∷ y ∷ xs) a h = inr (In-of_last (y ∷ xs) a h)

-- the agent's versions in the configuration
abbrev prefix_of : String → String → String
prefix_of namespace name = concat (namespace ∷ "/" ∷ name ∷ "@" ∷ [])

abbrev found_matches : OpenAgentHubConfig → String → String → List InstalledMatch
found_matches config namespace name = map as_match (
    keep (λ (e : String × InstalledAgent). starts_with (prefix_of namespace name) e.0)
      (get_or_default config.installed []))

module _ (locale_compare : String → String → Order) (decimal : ℕ → String) where
  abbrev pub IsVersionOf : OpenAgentHubConfig → String → String → InstalledMatch → Type 0
  IsVersionOf config namespace name m =
      In (m.key, m.record_) (get_or_default config.installed [])
      × (starts_with (prefix_of namespace name) m.key ≡ true)

  IsVersionOf-found :
      (config : OpenAgentHubConfig) (namespace name : String) (m : InstalledMatch)
      → In m (found_matches config namespace name)
      → IsVersionOf config namespace name m
  IsVersionOf-found config namespace name m old =
      let (e, k, q) = In-of_map as_match _ m old in
      let (i, t) =
        In-of_keep (λ (e : String × InstalledAgent). starts_with (prefix_of namespace name) e.0) _
          k in
      subst (λ m. IsVersionOf config namespace name m) q (i, t)

  In-of_installed_matches :
      (config : OpenAgentHubConfig) (namespace name : String) (m : InstalledMatch)
      → In m (installed_matches locale_compare decimal config namespace name)
      → IsVersionOf config namespace name m
  unfolding installed_matches
  In-of_installed_matches config namespace name m h =
      IsVersionOf-found config namespace name m
        (In-of_sort (compare_matches locale_compare decimal) _ m h)

  choose_sound :
      (matches : List InstalledMatch) (version : Option String) (m : InstalledMatch)
      → choose matches version ≡ some m
      → In m matches × (truthy version ≡ true → version ≡ some m.record_.version)
  unfolding choose
  choose_sound matches none m h = (In-of_last matches m h, (λ t. cc))
  choose_sound matches (some v) m h = elim (Bool-cases (str_eq v "")) [
    | inl e ↦ (In-of_last matches m (rw e at h), (λ t. ground arith))
    | inr e ↦
        let found : find (λ (m : InstalledMatch). str_eq m.record_.version v) matches ≡ some m =
          rw e at h in
        let (i, t) =
          find-eq-some (λ (m : InstalledMatch). str_eq m.record_.version v) matches found in
        (i, (λ _. ap (λ v. some v) (sym ((eq_iff m.record_.version v).0 t))))
  ]

  get_chosen :
      (o : Option InstalledMatch) (e : String) (m : InstalledMatch)
      → or_throw o e ≡ ok m
      → o ≡ some m
  get_chosen none e m h = cc
  get_chosen (some x) e m h = ground arith

  -- An agent that a request resolves to is one of the configuration, under a key that starts with
  -- the namespace and the name that were asked for, and where a version was asked for it has that
  -- version.
  pub resolve_installed_or_throw_sound :
      (config : OpenAgentHubConfig) (namespace name : String) (version : Option String)
      (m : InstalledMatch)
      → resolve_installed_or_throw locale_compare decimal config namespace name version ≡ ok m
      → IsVersionOf config namespace name m
        × (truthy version ≡ true → version ≡ some m.record_.version)
  unfolding resolve_installed_or_throw
  resolve_installed_or_throw_sound config namespace name version m h =
      let matches = installed_matches locale_compare decimal config namespace name in
      let (i, v) = choose_sound matches version m (get_chosen _ _ m h) in
      (In-of_installed_matches config namespace name m i, v)

  In-map : {A B : Type 0} (f : A → B) (xs : List A) (a : A) → In a xs → In (f a) (map f xs)
  In-map f [] a h = absurd h
  In-map f (x ∷ xs) a (inl e) = inl (ap f e)
  In-map f (x ∷ xs) a (inr h) = inr (In-map f xs a h)

  In-found_matches :
      (config : OpenAgentHubConfig) (namespace name : String) (m : InstalledMatch)
      → IsVersionOf config namespace name m
      → In m (found_matches config namespace name)
  In-found_matches config namespace name m h =
      In-map as_match _ (m.key, m.record_)
        (In-keep (λ (e : String × InstalledAgent). starts_with (prefix_of namespace name) e.0) _ h.0
          h.1)

  matches_order :
      IsOrdering (compare_matches locale_compare decimal) (λ m. IsRelease m.record_.version)
  matches_order =
      let o = releases_order locale_compare decimal in
      record {
        back = λ a b. o.back a.record_.version b.record_.version;
        trans = λ a b c. o.trans a.record_.version b.record_.version c.record_.version;
        same_self = λ a. o.same_self a.record_.version;
      }

  installed_top :
      (config : OpenAgentHubConfig) (namespace name : String) (m : InstalledMatch)
      → IsVersionOf config namespace name m
      → ((w : InstalledMatch) → IsVersionOf config namespace name w → IsRelease w.record_.version)
      → (top : InstalledMatch) × (last
            (installed_matches locale_compare decimal config namespace name)
          ≡ some top)
        × ((w : InstalledMatch)
            → IsVersionOf config namespace name w
            → is_greater (compare_matches locale_compare decimal w top) ≡ false)
  unfolding installed_matches
  installed_top config namespace name m is good =
      elim (List-cases (found_matches config namespace name)) [
        | inl e ↦
            let z : In m [] =
              subst (λ xs. In m xs) e (In-found_matches config namespace name m is) in
            absurd z
        | inr (x, xs, e) ↦
            let (top, q, _, below) =
              last-sort (compare_matches locale_compare decimal) (λ m. IsRelease m.record_.version)
                matches_order x xs
                (λ w i.
                  good w (
                    IsVersionOf-found config namespace name w (subst (λ ys. In w ys) (sym e) i))) in
            (
              top,
              ap (λ ys. last (sort (compare_matches locale_compare decimal) ys)) e ∙ q,
              (λ w i.
                  below w (subst (λ ys. In w ys) e (In-found_matches config namespace name w i))),
            )
      ]

  -- A request without a version, for an agent of which some version is installed and all installed
  -- versions are releases, resolves to an installed version of this agent that no installed version of
  -- it is greater than.
  pub resolve_installed_or_throw_highest :
      (config : OpenAgentHubConfig) (namespace name : String) (version : Option String)
      (m : InstalledMatch)
      → truthy version ≡ false
      → IsVersionOf config namespace name m
      → ((w : InstalledMatch) → IsVersionOf config namespace name w → IsRelease w.record_.version)
      → (top : InstalledMatch) × (resolve_installed_or_throw locale_compare decimal config namespace
            name version
          ≡ ok top)
        × IsVersionOf config namespace name top
        × ((w : InstalledMatch)
            → IsVersionOf config namespace name w
            → is_greater (compare_matches locale_compare decimal w top) ≡ false)
  unfolding resolve_installed_or_throw choose
  resolve_installed_or_throw_highest config namespace name version m absent is good =
      let (top, e, below) = installed_top config namespace name m is good in
      (
        top,
        rw absent (rw e refl),
        In-of_installed_matches config namespace name top (In-of_last _ top e),
        below,
      )
