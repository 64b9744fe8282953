-- ===== src/Prelude/Words.antt =====
-- Texts by their code points.
use Prim.Native.Nat.{ℕ}
use Prim.Native.Char.{Char, code}
use Prim.Native.String
use Prim.Native.String.{String}
use mathlib.Core.Path.{◌≡◌, refl}
use native.Mathlib.Omega.{arith}
use mathlib.Core.Bool.{Bool, true, false, ◌||◌, ◌&&◌}
use mathlib.Core.List.{List, [], ◌∷◌}
use open_agent_hub.Prelude.Tests.{ltb, leb, eqb, if◌then◌else◌}

-- The code points of a text.
abbrev pub codes : String → List ℕ
codes (String.◌∷◌ letter rest) = code letter ∷ codes rest
codes String.[] = []

-- `a < b` on sequences of code points, as JavaScript orders texts of the basic plane
abbrev pub codes_lt : List ℕ → List ℕ → Bool
codes_lt [] [] = false
codes_lt [] (_ ∷ _) = true
codes_lt (_ ∷ _) [] = false
codes_lt (a ∷ as') (b ∷ bs) =
    let rest = codes_lt as' bs in if ltb a b then true else if eqb a b then rest else false

abbrev pub text_lt : String → String → Bool
text_lt a b = codes_lt (codes a) (codes b)

-- the texts of a template, joined
unfoldable pub concat : List String → String
concat [] = ""
concat (s ∷ ss) = String.◌++◌ s (concat ss)

unfoldable pub prepend : Char → List String → List String
prepend c [] = String.◌∷◌ c String.[] ∷ []
prepend c (p ∷ ps) = String.◌∷◌ c p ∷ ps

-- the parts of a text between the characters whose code passes the test
unfoldable pub split_where : (ℕ → Bool) → String → List String
split_where sep String.[] = String.[] ∷ []
split_where sep (String.◌∷◌ c s) =
    let rest = split_where sep s in if sep (code c) then String.[] ∷ rest else prepend c rest

-- `s.split(sep)` for a separator of one character, given by its code
unfoldable pub split_on : ℕ → String → List String
unfolding split_where prepend
split_on sep s = split_where (λ c. eqb c sep) s

-- Some character's code passes the test.
abbrev pub any_code : (ℕ → Bool) → String → Bool
any_code p String.[] = false
any_code p (String.◌∷◌ c s) = p (code c) || any_code p s

-- `parts.join(sep)`
unfoldable pub join : String → List String → String
join sep [] = ""
join sep (s ∷ []) = s
join sep (s ∷ t ∷ ss) = String.◌++◌ s (String.◌++◌ sep (join sep (t ∷ ss)))

abbrev pub starts_codes : List ℕ → List ℕ → Bool
starts_codes [] cs = true
starts_codes (n ∷ ns) [] = false
starts_codes (n ∷ ns) (c ∷ cs) = let rest = starts_codes ns cs in if eqb n c then rest else false

-- `text.startsWith(prefix)`
abbrev pub starts_with : String → String → Bool
starts_with prefix text = starts_codes (codes prefix) (codes text)

-- The first sequence stands somewhere in the second.
unfoldable pub contains_codes : List ℕ → List ℕ → Bool
contains_codes ns [] = starts_codes ns []
contains_codes ns (c ∷ cs) = starts_codes ns (c ∷ cs) || contains_codes ns cs

-- what `trim` removes, in the basic plane
unfoldable pub is_blank : ℕ → Bool
is_blank c =
    (leb 9 c && leb c 13)
    || eqb c 32
    || eqb c 160
    || eqb c 5760
    || (leb 8192 c && leb c 8202)
    || eqb c 8232
    || eqb c 8233
    || eqb c 8239
    || eqb c 8287
    || eqb c 12288
    || eqb c 65279

abbrev is_empty_text : String → Bool
is_empty_text String.[] = true
is_empty_text (String.◌∷◌ c s) = false

unfoldable pub trim_end : String → String
trim_end String.[] = String.[]
trim_end (String.◌∷◌ c s) =
    let rest = trim_end s in
    if is_empty_text rest && is_blank (code c) then String.[] else String.◌∷◌ c rest

unfoldable pub trim_start : String → String
trim_start String.[] = String.[]
trim_start (String.◌∷◌ c s) =
    let rest = trim_start s in if is_blank (code c) then rest else String.◌∷◌ c s

unfoldable pub trim : String → String
trim s = trim_end (trim_start s)

pub codes_lt_asymm : (as' bs : List ℕ) → codes_lt as' bs ≡ true → codes_lt bs as' ≡ false
codes_lt_asymm [] [] h = refl
codes_lt_asymm [] (b ∷ bs) h = refl
codes_lt_asymm (a ∷ as') [] h = cc
codes_lt_asymm (a ∷ as') (b ∷ bs) h = ground (arith, codes_lt_asymm as' bs)

codes_lt_nil : (as' : List ℕ) → codes_lt as' [] ≡ false
codes_lt_nil [] = refl
codes_lt_nil (a ∷ as') = refl

pub not_codes_lt_trans :
    (as' bs cs : List ℕ)
    → codes_lt as' bs ≡ false
    → codes_lt bs cs ≡ false
    → codes_lt as' cs ≡ false
not_codes_lt_trans as' bs [] h k = codes_lt_nil as'
not_codes_lt_trans [] [] (c ∷ cs) h k = k
not_codes_lt_trans [] (b ∷ bs) (c ∷ cs) h k = cc
not_codes_lt_trans (a ∷ as') [] (c ∷ cs) h k = cc
not_codes_lt_trans (a ∷ as') (b ∷ bs) (c ∷ cs) h k = ground (arith, not_codes_lt_trans as' bs cs)
