-- ===== src/Prelude/Lists.antt =====
-- Lists as JavaScript arrays: tests by a predicate, filters, and membership as a recursive predicate.
use Prim.Native.Nat.{ℕ, suc, ◌+◌, ◌≤◌}
use mathlib.Core.Path.{◌≡◌, refl, sym, subst, ap}
use mathlib.Core.Logic.{◌⊎◌, inl, inr}
use mathlib.Core.Bool.{Bool, true, false, not, ◌&&◌, ◌||◌}
use mathlib.Core.Option.{Option, none, some, some_inj}
use mathlib.Core.List.{List, [], ◌∷◌, ◌++◌}
use native.Mathlib.Omega.{arith}
use open_agent_hub.Prelude.Tests.{if◌then◌else◌, Bool-cases}

module _ {ℓ} {A : Type ℓ} where
  abbrev pub length : List A → ℕ
  length [] = 0
  length (x ∷ xs) = suc (length xs)

  -- `xs.some(p)`
  abbrev pub any : (A → Bool) → List A → Bool
  any p [] = false
  any p (x ∷ xs) = p x || any p xs

  -- `xs.every(p)`
  abbrev pub all : (A → Bool) → List A → Bool
  all p [] = true
  all p (x ∷ xs) = p x && all p xs

  -- `xs.filter(p)`
  abbrev pub keep : (A → Bool) → List A → List A
  keep p [] = []
  keep p (x ∷ xs) = let rest = keep p xs in if p x then x ∷ rest else rest

  -- `xs.find(p)`
  abbrev pub find : (A → Bool) → List A → Option A
  find p [] = none
  find p (x ∷ xs) = let rest = find p xs in if p x then some x else rest

  -- `xs[0]`
  abbrev pub first : List A → Option A
  first [] = none
  first (x ∷ _) = some x

  -- `xs[1]`
  abbrev pub second : List A → Option A
  second [] = none
  second (_ ∷ []) = none
  second (_ ∷ y ∷ _) = some y

  -- `xs[xs.length - 1]`
  abbrev pub last : List A → Option A
  last [] = none
  last (x ∷ []) = some x
  last (x ∷ y ∷ xs) = last (y ∷ xs)

  pub length-append : (xs ys : List A) → length (xs ++ ys) ≡ length xs + length ys
  length-append [] ys = omega arith
  length-append (x ∷ xs) ys = omega (arith, length-append xs ys)

  pub length-keep : (p : A → Bool) (xs : List A) → length (keep p xs) ≤ length xs
  length-keep p [] = omega arith
  length-keep p (x ∷ xs) = ground (arith, length-keep p xs)

module _ {ℓ} {A : Type ℓ} where
  pub List-cases : (xs : List A) → (xs ≡ []) ⊎ ((y : A) × (ys : List A) × (xs ≡ y ∷ ys))
  List-cases [] = inl refl
  List-cases (x ∷ xs) = inr (x, xs, refl)

  pub keep_idempotent : (p : A → Bool) (xs : List A) → keep p (keep p xs) ≡ keep p xs
  keep_idempotent p [] = refl
  keep_idempotent p (x ∷ xs) = elim (Bool-cases (p x)) [
    | inl e ↦ rw e (rw e (ap (λ r. x ∷ r) (keep_idempotent p xs)))
    | inr e ↦ rw e (keep_idempotent p xs)
  ]

module _ {A : Type 0} where
  -- `a` stands in the list.
  abbrev pub In : A → List A → Type 0
  In a [] = ⊥
  In a (x ∷ xs) = (x ≡ a) ⊎ In a xs

  pub In-of_keep : (p : A → Bool) {a : A} (xs : List A) → In a (keep p xs) → In a xs × (p a ≡ true)
  In-of_keep p (x ∷ xs) h = elim (Bool-cases (p x)) [
    | inl e ↦ elim (let k : (x ≡ _) ⊎ In _ (keep p xs) = rw e at h in k) [
      | inl q ↦ (inl q, subst (λ y. p y ≡ true) q e)
      | inr k ↦ let (m, t) = In-of_keep p xs k in (inr m, t)
    ]
    | inr e ↦ let (m, t) = In-of_keep p xs (rw e at h) in (inr m, t)
  ]
  In-of_keep p [] h = absurd h

  pub In-keep : (p : A → Bool) {a : A} (xs : List A) → In a xs → p a ≡ true → In a (keep p xs)
  In-keep p [] h t = absurd h
  In-keep p (x ∷ xs) (inl q) t = rw (subst (λ y. p y ≡ true) (sym q) t) (inl q)
  In-keep p (x ∷ xs) (inr k) t = elim (Bool-cases (p x)) [
    | inl e ↦ rw e (inr (In-keep p xs k t))
    | inr e ↦ rw e (In-keep p xs k t)
  ]

  pub In-of_append : (a : A) (xs ys : List A) → In a (xs ++ ys) → In a xs ⊎ In a ys
  In-of_append a [] ys h = inr h
  In-of_append a (x ∷ xs) ys (inl e) = inl (inl e)
  In-of_append a (x ∷ xs) ys (inr h) = elim (In-of_append a xs ys h) [
    | inl l ↦ inl (inr l)
    | inr r ↦ inr r
  ]

  pub In-append_left : (a : A) (xs ys : List A) → In a xs → In a (xs ++ ys)
  In-append_left a [] ys h = absurd h
  In-append_left a (x ∷ xs) ys (inl e) = inl e
  In-append_left a (x ∷ xs) ys (inr h) = inr (In-append_left a xs ys h)

  pub In-append_right : (a : A) (xs ys : List A) → In a ys → In a (xs ++ ys)
  In-append_right a [] ys h = h
  In-append_right a (x ∷ xs) ys h = inr (In-append_right a xs ys h)

  -- No element stands twice.
  abbrev pub Distinct : List A → Type 0
  Distinct [] = Unit
  Distinct (x ∷ xs) = (¬ (In x xs)) × Distinct xs

  pub Distinct-append_one :
      (xs : List A) (a : A) → Distinct xs → ¬ (In a xs) → Distinct (xs ++ a ∷ [])
  Distinct-append_one [] a h n = ((λ m. m), tt)
  Distinct-append_one (x ∷ xs) a (fresh, h) n = (
    (λ m. elim (In-of_append x xs (a ∷ []) m) [
      | inl old ↦ fresh old
      | inr new ↦ elim new [ inl e ↦ n (inl (sym e)) | inr z ↦ z ]
    ]),
    Distinct-append_one xs a h (λ m. n (inr m)),
  )

  pub find-eq-some :
      (p : A → Bool) (xs : List A) {a : A} → find p xs ≡ some a → In a xs × (p a ≡ true)
  find-eq-some p [] h = cc
  find-eq-some p (x ∷ xs) {a} h = elim (Bool-cases (p x)) [
    | inl e ↦
        let same : x ≡ a = some_inj.0 (rw e at h) in (inl same, subst (λ y. p y ≡ true) same e)
    | inr e ↦ let (m, t) = find-eq-some p xs (rw e at h) in (inr m, t)
  ]

  pub find-eq-none : (p : A → Bool) (xs : List A) {a : A} → find p xs ≡ none → In a xs → p a ≡ false
  find-eq-none p [] h m = absurd m
  find-eq-none p (x ∷ xs) h (inl same) = elim (Bool-cases (p x)) [
    | inl e ↦ let z : some x ≡ none = rw e at h in cc
    | inr e ↦ subst (λ y. p y ≡ false) same e
  ]
  find-eq-none p (x ∷ xs) h (inr m) = elim (Bool-cases (p x)) [
    | inl e ↦ let z : some x ≡ none = rw e at h in cc
    | inr e ↦ find-eq-none p xs (rw e at h) m
  ]

  pub first-eq-some : (xs : List A) {a : A} → first xs ≡ some a → In a xs
  first-eq-some [] h = cc
  first-eq-some (x ∷ xs) h = inl (some_inj.0 h)

  pub keep_cong :
      (p q : A → Bool) (xs : List A) → ((x : A) → In x xs → p x ≡ q x) → keep p xs ≡ keep q xs
  keep_cong p q [] h = refl
  keep_cong p q (x ∷ xs) h =
      let ih = keep_cong p q xs (λ y m. h y (inr m)) in ground (arith, h x (inl refl), ih)

  pub length-keep-not :
      (p : A → Bool) (xs : List A)
      → length (keep p xs) + length (keep (λ x. not (p x)) xs) ≡ length xs
  length-keep-not p [] = omega arith
  length-keep-not p (x ∷ xs) = ground (arith, length-keep-not p xs)
