-- ===== src/Requirements/Versions.antt =====
-- `compareVersions` and `versionSatisfies` of sdk/src/runtime.ts: dotted numbers against a list of
-- bounds such as ">=3.11, <4".
use open_agent_hub.Prelude.{
  ℕ, ◌+◌, ◌-◌, ◌*◌, ltb, leb, eqb, String, code, Option, none, some, Bool, true, false, ◌&&◌, ◌||◌,
  not, if◌then◌else◌, List, [], ◌∷◌, map, keep, all, first, str_eq, truthy, get_or_default,
  split_on, split_where, trim, trim_start,
}

-- `s.replace(/^v/, "")`, or with either case
unfoldable pub drop_v : Bool → String → String
drop_v upper String.[] = String.[]
drop_v upper (String.◌∷◌ c s) =
    if eqb (code c) 118 || (upper && eqb (code c) 86) then s else String.◌∷◌ c s

-- what follows a prefix
unfoldable pub after : String → String → Option String
after String.[] s = some s
after (String.◌∷◌ c p) String.[] = none
after (String.◌∷◌ c p) (String.◌∷◌ d s) =
    let rest = after p s in if eqb (code c) (code d) then rest else none

-- `s.replace(needle, "")`
unfoldable pub remove_first : String → String → String
remove_first needle String.[] = String.[]
remove_first needle (String.◌∷◌ c s) =
    let rest = remove_first needle s in
    get_or_default (after needle (String.◌∷◌ c s)) (String.◌∷◌ c rest)

abbrev is_digit : ℕ → Bool
is_digit c = leb 48 c && leb c 57

-- the digits at the start, behind a number already read
unfoldable pub read_int : Option ℕ → String → Option ℕ
read_int n String.[] = n
read_int n (String.◌∷◌ c s) =
    let rest = read_int (some (get_or_default n 0 * 10 + (code c - 48))) s in
    if is_digit (code c) then rest else n

-- `parseInt(s, 10)` of a text without signs; none is NaN
unfoldable pub parse_int : String → Option ℕ
parse_int s = read_int none (trim_start s)

-- the sign of what a comparison returns
pub data Sign : Type 0 where
  negative zero positive : Sign

-- `compareNumeric`, which takes NaN for smaller
unfoldable pub compare_numeric : Option ℕ → Option ℕ → Sign
compare_numeric (some x) (some y) =
    if eqb x y then Sign.zero else if ltb y x then positive else negative
compare_numeric x y = negative

abbrev is_zero : Sign → Bool
is_zero Sign.zero = true
is_zero _ = false

unfoldable pub or_next : Sign → Sign → Sign
or_next c rest = if is_zero c then rest else c

-- the loop, with "0" for a missing part
unfoldable pub compare_parts : List (Option ℕ) → List (Option ℕ) → Sign
compare_parts [] [] = Sign.zero
compare_parts [] (y ∷ ys) = or_next (compare_numeric (some 0) y) (compare_parts [] ys)
compare_parts (x ∷ xs) [] = or_next (compare_numeric x (some 0)) (compare_parts xs [])
compare_parts (x ∷ xs) (y ∷ ys) = or_next (compare_numeric x y) (compare_parts xs ys)

-- `split(/[-+]/)[0].split(".")`, as numbers
unfoldable pub parts_of : String → List (Option ℕ)
parts_of v =
    let core =
      get_or_default (first (split_where (λ c. eqb c 45 || eqb c 43) (drop_v true v))) "" in
    map parse_int (split_on 46 core)

unfoldable pub compare_versions : String → String → Sign
compare_versions a b = compare_parts (parts_of a) (parts_of b)

pub data Bound : Type 0 where
  at_least at_most above below equal unequal compatible : Bound

-- the operator at the start, and what follows; "==" where there is none
unfoldable pub read_bound : List (String × Bound) → String → Bound × String
read_bound [] s = (equal, s)
read_bound ((text, bound) ∷ rest) s =
    let others = read_bound rest s in elim (after text s) [ none ↦ others | some t ↦ (bound, t) ]

abbrev operators : List (String × Bound)
operators =
    (">=", at_least)
    ∷ ("<=", at_most)
    ∷ (">", above)
    ∷ ("<", below)
    ∷ ("==", equal)
    ∷ ("!=", unequal)
    ∷ ("~=", compatible)
    ∷ []

-- `[0-9.]*`
unfoldable pub dotted : String → String
dotted String.[] = String.[]
dotted (String.◌∷◌ c s) =
    let rest = dotted s in
    if is_digit (code c) || eqb (code c) 46 then String.◌∷◌ c rest else String.[]

abbrev starts_with_digit : String → Bool
starts_with_digit String.[] = false
starts_with_digit (String.◌∷◌ c s) = is_digit (code c)

-- the match of a bound: its operator and its version
unfoldable pub match_bound : String → Option (Bound × String)
match_bound spec =
    let (bound, rest) = read_bound operators spec in
    let wanted = trim_start rest in
    if starts_with_digit wanted then some (bound, dotted wanted) else none

abbrev head_part : String → String
head_part v = get_or_default (first (split_on 46 v)) ""

unfoldable pub holds : Bound → Sign → Bool → Bool
holds at_least c same_head = not (elim c [ negative ↦ true | Sign.zero ↦ false | positive ↦ false ])
holds at_most c same_head = not (elim c [ negative ↦ false | Sign.zero ↦ false | positive ↦ true ])
holds above c same_head = elim c [ negative ↦ false | Sign.zero ↦ false | positive ↦ true ]
holds below c same_head = elim c [ negative ↦ true | Sign.zero ↦ false | positive ↦ false ]
holds compatible c same_head =
    not (elim c [ negative ↦ true | Sign.zero ↦ false | positive ↦ false ]) && same_head
holds unequal c same_head = not (is_zero c)
holds equal c same_head = is_zero c

abbrev meets_match : String → Option (Bound × String) → Bool
meets_match version none = true
meets_match version (some (bound, want)) =
    holds bound (compare_versions version want) (str_eq (head_part version) (head_part want))

-- One bound is met; what is no bound is met too.
unfoldable pub meets : String → String → Bool
meets version spec = meets_match version (match_bound spec)

-- `.replace(/^[vV]/, "").replace(/^python\s*/, "")`
abbrev drop_python : Option String → String → String
drop_python none v = v
drop_python (some rest) v = trim_start rest

unfoldable pub clean : String → String
clean version = let v = drop_v true version in drop_python (after "python" v) v

-- the bounds of a specifier
unfoldable pub bounds_of : String → List String
bounds_of specifier = keep (λ s. not (str_eq s "")) (map trim (split_on 44 specifier))

unfoldable pub version_satisfies : Option String → Option String → Bool
version_satisfies version specifier =
    let checked =
      all (meets (clean (get_or_default version ""))) (bounds_of (get_or_default specifier "")) in
    if truthy version && truthy specifier then checked else true
