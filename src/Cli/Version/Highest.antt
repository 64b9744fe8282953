-- ===== src/Cli/Version/Highest.antt =====
-- The last version of a sorted list is the highest, when the versions are releases.
use open_agent_hub.Prelude.{
  ℕ, ◌≡◌, refl, ◌∙◌, sym, arith, ◌⊎◌, inl, inr, String, Option, none, some, Bool, true, false, List,
  [], ◌∷◌, map, last, In, Bool-cases,
}
use open_agent_hub.Cli.Version.{
  Order, number, split_core, compare_numbers, same_part, compare_parts, compare_cores, compare_pre,
  compare_versions, is_greater, insert_sorted, sort, highest_version,
}

module _ {A : Type 0} (cmp : A → A → Order) where
  In-insert_sorted_self : (x : A) (ys : List A) → In x (insert_sorted cmp x ys)
  unfolding insert_sorted
  In-insert_sorted_self x [] = inl refl
  In-insert_sorted_self x (y ∷ ys) = elim (Bool-cases (is_greater (cmp x y))) [
    | inl e ↦ rw e (inr (In-insert_sorted_self x ys))
    | inr e ↦ rw e (inl refl)
  ]

  In-insert_sorted : (x : A) (ys : List A) (z : A) → In z ys → In z (insert_sorted cmp x ys)
  unfolding insert_sorted
  In-insert_sorted x [] z h = absurd h
  In-insert_sorted x (y ∷ ys) z h = elim (Bool-cases (is_greater (cmp x y))) [
    | inl e ↦ rw e (elim h [ inl q ↦ inl q | inr m ↦ inr (In-insert_sorted x ys z m) ])
    | inr e ↦ rw e (inr h)
  ]

  In-of_insert_sorted :
      (x : A) (ys : List A) {z : A} → In z (insert_sorted cmp x ys) → (x ≡ z) ⊎ In z ys
  unfolding insert_sorted
  In-of_insert_sorted x [] h = h
  In-of_insert_sorted x (y ∷ ys) {z} h = elim (Bool-cases (is_greater (cmp x y))) [
    | inl e ↦
        let k : In z (y ∷ insert_sorted cmp x ys) = rw e at h in
        elim k [
          | inl q ↦ inr (inl q)
          | inr m ↦ elim (In-of_insert_sorted x ys m) [ inl q ↦ inl q | inr n ↦ inr (inr n) ]
        ]
    | inr e ↦ let k : In z (x ∷ y ∷ ys) = rw e at h in k
  ]

  pub In-of_sort : (xs : List A) (z : A) → In z (sort cmp xs) → In z xs
  unfolding sort
  In-of_sort [] z h = h
  In-of_sort (x ∷ xs) z h = elim (In-of_insert_sorted x (sort cmp xs) h) [
    | inl q ↦ inl q
    | inr m ↦ inr (In-of_sort xs z m)
  ]

  -- `b` is at least `a`
  abbrev pub IsAtMost : A → A → Type 0
  IsAtMost a b = is_greater (cmp a b) ≡ false

  last_same :
      (y : A) (r s : List A) (u w : A)
      → In u r
      → In w s
      → last r ≡ last s
      → last (y ∷ r) ≡ last (y ∷ s)
  last_same y [] s u w m n e = absurd m
  last_same y (a ∷ r) [] u w m n e = absurd n
  last_same y (a ∷ r) (b ∷ s) u w m n e = e

  last_behind : (y : A) (r : List A) {z : A} → last r ≡ some z → last (y ∷ r) ≡ some z
  last_behind y [] e = cc
  last_behind y (a ∷ r) e = e

  -- An inserted element stands below one that was there, or comes last behind all of them.
  last-insert_sorted :
      (x : A) (ys : List A)
      → ((y : A) × In y ys × IsAtMost x y × (last (insert_sorted cmp x ys) ≡ last ys))
        ⊎ ((last (insert_sorted cmp x ys) ≡ some x)
            × ((y : A) → In y ys → is_greater (cmp x y) ≡ true))
  unfolding insert_sorted
  last-insert_sorted x [] = inr (refl, (λ y m. absurd m))
  last-insert_sorted x (y ∷ ys) = elim (Bool-cases (is_greater (cmp x y))) [
    | inr e ↦ inl (y, inl refl, e, rw e refl)
    | inl e ↦ elim (last-insert_sorted x ys) [
      | inl h ↦ inl (
        h.0,
        inr h.1,
        h.2,
        rw e (last_same y (insert_sorted cmp x ys) ys x h.0 (In-insert_sorted_self x ys) h.1 h.3),
      )
      | inr h ↦ inr (
        rw e (last_behind y (insert_sorted cmp x ys) h.0),
        (λ z m. elim m [ inl q ↦ rw (← q) e | inr n ↦ h.1 z n ]),
      )
    ]
  ]

  pub In-sort : (xs : List A) (z : A) → In z xs → In z (sort cmp xs)
  unfolding sort
  In-sort [] z h = h
  In-sort (x ∷ xs) z (inl q) = rw (← q) (In-insert_sorted_self x (sort cmp xs))
  In-sort (x ∷ xs) z (inr m) = In-insert_sorted x (sort cmp xs) z (In-sort xs z m)

  sort_cons : (x : A) (xs : List A) → sort cmp (x ∷ xs) ≡ insert_sorted cmp x (sort cmp xs)
  unfolding sort
  sort_cons x xs = refl

  sort_one : (x : A) → last (sort cmp (x ∷ [])) ≡ some x
  unfolding sort insert_sorted
  sort_one x = refl

  -- The comparison orders the elements that satisfy `P`.
  pub record IsOrdering (P : A → Type 0) : Type 0 where
    pub back : (a b : A) → P a → P b → is_greater (cmp a b) ≡ true → IsAtMost b a
    pub trans : (a b c : A) → P a → P b → P c → IsAtMost a b → IsAtMost b c → IsAtMost a c
    pub same_self : (a : A) → P a → IsAtMost a a

  module _ (P : A → Type 0) (order : IsOrdering P) where
    -- The last element of a sorted list is one of the list, and the others are at most it.
    pub last-sort :
        (x : A) (xs : List A)
        → ((y : A) → In y (x ∷ xs) → P y)
        → (top : A) × (last (sort cmp (x ∷ xs)) ≡ some top)
          × In top (x ∷ xs)
          × ((y : A) → In y (x ∷ xs) → IsAtMost y top)
    last-sort x [] good = (
      x,
      sort_one x,
      inl refl,
      (λ y m. elim m [
        | inl q ↦ rw (← q) (order.same_self x (good x (inl refl)))
        | inr z ↦ absurd z
      ]),
    )
    last-sort x (x' ∷ xs) good =
        let (top, e, m, below) = last-sort x' xs (λ y n. good y (inr n)) in
        elim (last-insert_sorted x (sort cmp (x' ∷ xs))) [
          | inl (y, n, le, keeps) ↦
              let there = In-of_sort (x' ∷ xs) y n in
              (
                top,
                rw (sort_cons x (x' ∷ xs)) (keeps ∙ e),
                inr m,
                (λ z k. elim k [
                  | inl q ↦ rw (← q) (
                      order.trans x y top (good x (inl refl)) (good y (inr there))
                        (good top (inr m)) le (below y there))
                  | inr k ↦ below z k
                ]),
              )
          | inr (e', above) ↦ (
            x,
            rw (sort_cons x (x' ∷ xs)) e',
            inl refl,
            (λ z k. elim k [
              | inl q ↦ rw (← q) (order.same_self x (good x (inl refl)))
              | inr k ↦
                  order.trans z top x (good z (inr k)) (good top (inr m)) (good x (inl refl))
                    (below z k)
                    (order.back x top (good x (inl refl)) (good top (inr m))
                      (above top (In-sort (x' ∷ xs) top m)))
            ]),
          )
        ]

-- A version of numbers and dots only.
abbrev pub IsRelease : String → Type 0
IsRelease v = (ns : List ℕ) × (split_core v ≡ (map number ns, none))

module _ (locale_compare : String → String → Order) (decimal : ℕ → String) where
  abbrev cores : List ℕ → List ℕ → Option Order
  cores ms ns = compare_cores locale_compare decimal (map number ms) (map number ns)

  abbrev release_order : Option Order → Bool
  release_order none = false
  release_order (some o) = is_greater o

  compare-release :
      (a b : String) (ms ns : List ℕ)
      → split_core a ≡ (map number ms, none)
      → split_core b ≡ (map number ns, none)
      → is_greater (compare_versions locale_compare decimal a b) ≡ release_order (cores ms ns)
  unfolding compare_versions compare_pre
  compare-release a b ms ns e f = rw (e, f) (ground arith)

  cores_back :
      (ms ns : List ℕ) → release_order (cores ms ns) ≡ true → release_order (cores ns ms) ≡ false
  unfolding compare_cores compare_parts compare_numbers same_part
  cores_back [] [] h = cc
  cores_back [] (n ∷ ns) h = ground (arith, cores_back [] ns)
  cores_back (m ∷ ms) [] h = ground (arith, cores_back ms [])
  cores_back (m ∷ ms) (n ∷ ns) h = ground (arith, cores_back ms ns)

  cores_self : (ms : List ℕ) → release_order (cores ms ms) ≡ false
  unfolding compare_cores compare_parts compare_numbers same_part
  cores_self [] = refl
  cores_self (m ∷ ms) = ground (arith, cores_self ms)

  cores_trans :
      (ks ms ns : List ℕ)
      → release_order (cores ks ms) ≡ false
      → release_order (cores ms ns) ≡ false
      → release_order (cores ks ns) ≡ false
  unfolding compare_cores compare_parts compare_numbers same_part
  cores_trans [] [] [] h i = refl
  cores_trans [] [] (n ∷ ns) h i = i
  cores_trans [] (m ∷ ms) [] h i = refl
  cores_trans [] (m ∷ ms) (n ∷ ns) h i = ground (arith, cores_trans [] ms ns)
  cores_trans (k ∷ ks) [] [] h i = h
  cores_trans (k ∷ ks) [] (n ∷ ns) h i = ground (arith, cores_trans ks [] ns)
  cores_trans (k ∷ ks) (m ∷ ms) [] h i = ground (arith, cores_trans ks ms [])
  cores_trans (k ∷ ks) (m ∷ ms) (n ∷ ns) h i = ground (arith, cores_trans ks ms ns)

  pub releases_order : IsOrdering (compare_versions locale_compare decimal) IsRelease
  releases_order = record {
    back = λ a b p q h.
        compare-release b a q.0 p.0 q.1 p.1
        ∙ cores_back p.0 q.0 (sym (compare-release a b p.0 q.0 p.1 q.1) ∙ h);
    trans = λ a b c p q r h i.
        compare-release a c p.0 r.0 p.1 r.1
        ∙ cores_trans p.0 q.0 r.0 (sym (compare-release a b p.0 q.0 p.1 q.1) ∙ h)
            (sym (compare-release b c q.0 r.0 q.1 r.1) ∙ i);
    same_self = λ a p. compare-release a a p.0 p.0 p.1 p.1 ∙ cores_self p.0;
  }

  -- Of a list of releases that is not empty, the highest version is one of the list, and no version
  -- of the list is greater.
  pub highest_version_lem :
      (v : String) (vs : List String)
      → ((w : String) → In w (v ∷ vs) → IsRelease w)
      → (top : String) × (highest_version locale_compare decimal (v ∷ vs) ≡ some top)
        × In top (v ∷ vs)
        × ((w : String)
            → In w (v ∷ vs)
            → is_greater (compare_versions locale_compare decimal w top) ≡ false)
  unfolding highest_version
  highest_version_lem v vs good =
      last-sort (compare_versions locale_compare decimal) IsRelease releases_order v vs good
