-- ===== src/Prelude/Objects.antt =====
-- JavaScript objects used as dictionaries, in the order of insertion of their keys.
use Prim.Native.String.{String}
use mathlib.Core.Path.{◌≡◌, refl, ap}
use mathlib.Core.Logic.{◌↔◌, ◌≢◌, ◌⊎◌, inl, inr}
use mathlib.Core.Bool.{Bool, true, false, ◌||◌}
use mathlib.Core.Option.{Option, none, some}
use mathlib.Core.List.{List, [], ◌∷◌}
use native.Mathlib.Omega.{arith}
use text.Mathlib.Text.{◌==◌}
use text.Mathlib.TextEquality.{eq_iff}
use text.Mathlib.TextPositions.{eq_refl}
use open_agent_hub.Prelude.Tests.{if◌then◌else◌, get_or_default}
use open_agent_hub.Prelude.Lists.{In}

-- `a === b` on texts
abbrev pub str_eq : String → String → Bool
str_eq a b = a == b

-- `xs.includes(k)`, and `set.has(k)` for a set built from `xs`
abbrev pub includes : String → List String → Bool
includes k [] = false
includes k (x ∷ xs) = str_eq x k || includes k xs

abbrev pub Object {ℓ} : Type ℓ → Type ℓ
Object V = List (String × V)

module _ {ℓ} {V : Type ℓ} where
  -- `m[k]`
  unfoldable pub lookup : String → Object V → Option V
  lookup k [] = none
  lookup k ((j, v) ∷ m) = if str_eq j k then some v else lookup k m

  -- `m[k] = v`: an old key keeps its place, a new one comes last
  unfoldable pub insert : String → V → Object V → Object V
  insert k v [] = (k, v) ∷ []
  insert k v ((j, w) ∷ m) = if str_eq j k then (j, v) ∷ m else (j, w) ∷ insert k v m

  -- `delete m[k]`
  unfoldable pub remove : String → Object V → Object V
  remove k [] = []
  remove k ((j, w) ∷ m) = let rest = remove k m in if str_eq j k then rest else (j, w) ∷ rest

  -- `Object.keys(m)`
  abbrev pub keys : Object V → List String
  keys [] = []
  keys ((k, _) ∷ m) = k ∷ keys m

  pub lookup-insert :
      (key j : String) (new : V) (object : Object V)
      → lookup j (insert key new object) ≡ (if str_eq key j then some new else lookup j object)
  unfolding insert lookup
  lookup-insert key j new ((other, old) ∷ rest) =
      let below = lookup-insert key j new rest in
      ground (arith, below, eq_iff other j, eq_iff key j, eq_iff other key)
  lookup-insert key j new [] = refl

  pub lookup-insert_self : (k : String) (v : V) (m : Object V) → lookup k (insert k v m) ≡ some v
  lookup-insert_self k v m = simp (lookup-insert, eq_refl)

  pub lookup-insert_ne :
      (k j : String) (v : V) (m : Object V) → j ≢ k → lookup j (insert k v m) ≡ lookup j m
  lookup-insert_ne k j v m different = ground (arith, lookup-insert k j v m, eq_iff k j)

  pub lookup-remove :
      (k j : String) (m : Object V)
      → lookup j (remove k m) ≡ (if str_eq k j then none else lookup j m)
  unfolding lookup remove
  lookup-remove k j [] = ground arith
  lookup-remove k j ((i, w) ∷ m) =
      ground (arith, eq_iff k j, eq_iff i k, eq_iff i j, lookup-remove k j m)

-- `m?.[k]`
abbrev pub lookup_in {ℓ} : {V : Type ℓ} → String → Option (Object V) → Option V
lookup_in k none = none
lookup_in k (some m) = lookup k m

pub lookup-get_or_default {ℓ} :
    {V : Type ℓ} (k : String) (o : Option (Object V))
    → lookup k (get_or_default o []) ≡ lookup_in k o
unfolding lookup
lookup-get_or_default k none = refl
lookup-get_or_default k (some m) = refl

-- A text that counts as true: present and not empty.
abbrev pub truthy : Option String → Bool
truthy none = false
truthy (some s) = if str_eq s "" then false else true

-- `o === s` for a text that may be absent
unfoldable pub is_text : Option String → String → Bool
is_text none s = false
is_text (some t) s = str_eq t s

pub is_text_iff : (o : Option String) (s : String) → (is_text o s ≡ true) ↔ (o ≡ some s)
unfolding is_text
is_text_iff none s = ground arith
is_text_iff (some t) s = ground (arith, eq_iff t s)

pub In-of_includes : (k : String) (xs : List String) → includes k xs ≡ true → In k xs
In-of_includes k [] h = cc
In-of_includes k (x ∷ xs) h = ground (arith, eq_iff x k, In-of_includes k xs)

pub includes_of_In : (k : String) (xs : List String) → In k xs → includes k xs ≡ true
includes_of_In k [] h = absurd h
includes_of_In k (x ∷ xs) h = ground (arith, eq_iff x k, includes_of_In k xs)

module _ {V : Type 0} where
  pub In-of_keys : (k : String) (m : Object V) → In k (keys m) → (v : V) × In (k, v) m
  In-of_keys k [] h = absurd h
  In-of_keys k ((j, v) ∷ m) (inl e) = (v, inl (rw e))
  In-of_keys k ((j, v) ∷ m) (inr h) = let (w, i) = In-of_keys k m h in (w, inr i)

  pub In-keys : (k : String) (v : V) (m : Object V) → In (k, v) m → In k (keys m)
  In-keys k v [] h = absurd h
  In-keys k v ((j, w) ∷ m) (inl e) = inl (ap (λ (x : String × V). x.0) e)
  In-keys k v ((j, w) ∷ m) (inr h) = inr (In-keys k v m h)

-- `{ ...m, ...n }`, and a loop `m[k] = v` over the entries of `n`
unfoldable pub spread {ℓ} : {V : Type ℓ} → Object V → Object V → Object V
spread m [] = m
spread m ((k, v) ∷ n) = spread (insert k v m) n

-- Of two entries with one key in `n` the later one counts.
unfoldable pub lookup_last {ℓ} : {V : Type ℓ} → String → Object V → Option V
lookup_last k [] = none
lookup_last k ((j, v) ∷ n) =
    let rest = lookup_last k n in
    elim rest [ some w ↦ some w | none ↦ if str_eq j k then some v else none ]

module _ {ℓ} {V : Type ℓ} where
  pub lookup-spread :
      (k : String) (m n : Object V)
      → lookup k (spread m n) ≡ elim (lookup_last k n) [ some v ↦ some v | none ↦ lookup k m ]
  unfolding spread lookup_last
  lookup-spread k m [] = refl
  lookup-spread k m ((j, v) ∷ n) =
      ground (arith, lookup-spread k (insert j v m) n, lookup-insert j k v m, eq_iff j k)

module _ {V : Type 0} where
  pub In-of_insert :
      (k : String) (v : V) (m : Object V) (j : String)
      → In j (keys (insert k v m))
      → (k ≡ j) ⊎ In j (keys m)
  unfolding insert
  In-of_insert k v [] j h = elim h [ inl e ↦ inl e | inr z ↦ absurd z ]
  In-of_insert k v ((i, w) ∷ m) j h = ground (arith, eq_iff i k, In-of_insert k v m j)

  -- A key of a spread stands in one of its two parts.
  pub In-of_spread :
      (m n : Object V) (j : String) → In j (keys (spread m n)) → In j (keys m) ⊎ In j (keys n)
  unfolding spread
  In-of_spread m [] j h = inl h
  In-of_spread m ((k, v) ∷ n) j h = elim (In-of_spread (insert k v m) n j h) [
    | inl old ↦ elim (In-of_insert k v m j old) [ inl e ↦ inr (inl e) | inr there ↦ inl there ]
    | inr later ↦ inr (inr later)
  ]
