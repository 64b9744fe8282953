-- ===== src/Cli/Version.antt =====
-- cli/src/lib/version.ts: the order of versions. `localeCompare` depends on the locale and is an
-- argument; of the numbers that a comparison returns only the sign counts. A sort is stable, by
-- insertion; for a comparison that is no order the language fixes no result.
use open_agent_hub.Prelude.{
  ℕ, zero, suc, ◌+◌, ◌-◌, ◌*◌, String, code, Option, none, some, Bool, true, false, ◌&&◌, ◌||◌, not,
  if◌then◌else◌, List, [], ◌∷◌, ltb, leb, eqb, map, last, str_eq, split_on, get_or_default,
}
use Prim.Native.String
pub mod Highest

pub data Order : Type 0 where
  less same greater : Order

pub data Part : Type 0 where
  number : ℕ → Part
  word : String → Part

-- what stands before the first character of a code, and what follows it
unfoldable pub cut : ℕ → String → String × Option String
cut c String.[] = (String.[], none)
cut c (String.◌∷◌ x s) =
    let (front, back) = cut c s in
    if eqb (code x) c then (String.[], some s) else (String.◌∷◌ x front, back)

-- `/^\d+$/`
unfoldable pub all_digits : String → Bool
all_digits String.[] = true
all_digits (String.◌∷◌ x s) = leb 48 (code x) && leb (code x) 57 && all_digits s

-- `parseInt(p, 10)` of digits, behind a number already read
unfoldable pub read_digits : ℕ → String → ℕ
read_digits n String.[] = n
read_digits n (String.◌∷◌ x s) = read_digits (n * 10 + (code x - 48)) s

unfoldable pub part_of : String → Part
part_of p = if not (str_eq p "") && all_digits p then number (read_digits 0 p) else word p

unfoldable pub split_core : String → List Part × Option String
split_core v = let (core, pre) = cut 45 v in (map part_of (split_on 46 core), pre)

unfoldable pub compare_numbers : ℕ → ℕ → Order
compare_numbers x y = if ltb x y then less else if eqb x y then same else greater

module _ (locale_compare : String → String → Order) (decimal : ℕ → String) where
  -- `String(x)`
  abbrev part_text : Part → String
  part_text (number n) = decimal n
  part_text (word w) = w

  -- `x === y`
  unfoldable pub same_part : Part → Part → Bool
  same_part (number x) (number y) = eqb x y
  same_part (word x) (word y) = str_eq x y
  same_part x y = false

  -- parts that differ
  unfoldable pub compare_parts : Part → Part → Order
  compare_parts (number x) (number y) = compare_numbers x y
  compare_parts x y = locale_compare (part_text x) (part_text y)

  -- the loop over both cores, with 0 for a missing part; none where it runs to its end
  unfoldable pub compare_cores : List Part → List Part → Option Order
  compare_cores [] [] = none
  compare_cores [] (y ∷ ys) =
      let rest = compare_cores [] ys in
      if same_part (number 0) y then rest else some (compare_parts (number 0) y)
  compare_cores (x ∷ xs) [] =
      let rest = compare_cores xs [] in
      if same_part x (number 0) then rest else some (compare_parts x (number 0))
  compare_cores (x ∷ xs) (y ∷ ys) =
      let rest = compare_cores xs ys in if same_part x y then rest else some (compare_parts x y)

  -- a release comes behind its prereleases
  unfoldable pub compare_pre : Option String → Option String → Order
  compare_pre none none = same
  compare_pre none (some b) = greater
  compare_pre (some a) none = less
  compare_pre (some a) (some b) = if str_eq a b then same else locale_compare a b

  unfoldable pub compare_versions : String → String → Order
  compare_versions a b =
      get_or_default (compare_cores (split_core a).0 (split_core b).0)
        (compare_pre (split_core a).1 (split_core b).1)

abbrev pub is_greater : Order → Bool
is_greater greater = true
is_greater _ = false

-- `xs.slice().sort(cmp)`
module _ {ℓ} {A : Type ℓ} (cmp : A → A → Order) where
  unfoldable pub insert_sorted : A → List A → List A
  insert_sorted x [] = x ∷ []
  insert_sorted x (y ∷ ys) =
      let rest = insert_sorted x ys in if is_greater (cmp x y) then y ∷ rest else x ∷ y ∷ ys

  unfoldable pub sort : List A → List A
  sort [] = []
  sort (x ∷ xs) = insert_sorted x (sort xs)

unfoldable pub highest_version :
    (String → String → Order) → (ℕ → String) → List String → Option String
highest_version locale_compare decimal versions =
    last (sort (compare_versions locale_compare decimal) versions)
