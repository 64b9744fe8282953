-- ===== src/Package/Paths.antt =====
-- `assertSafeArchivePath` of sdk/src/package.ts, on a system whose separator is "/". An absolute path
-- without "." and ".." is the list of its parts.
use open_agent_hub.Prelude.{
  String, Option, none, some, Bool, true, false, ◌≡◌, ◌≢◌, ◌↔◌, ◌⊎◌, inl, inr, arith, refl, ap, sym,
  ◌∙◌, ◌&&◌, ◌||◌, not, if◌then◌else◌, List, [], ◌∷◌, ◌++◌, ℕ, zero, suc, ◌+◌, ◌≤◌, leb, eqb,
  str_eq, codes, starts_codes, concat, split_where, split_on, any, any_code, Result, ok, thrown,
  throw_if, ◌>>◌,
}
use Prim.Native.String
pub mod Safe

-- "/" and "\"
abbrev pub is_slash : ℕ → Bool
is_slash c = eqb c 47

abbrev pub is_separator : ℕ → Bool
is_separator c = eqb c 47 || eqb c 92

abbrev is_letter : ℕ → Bool
is_letter c = (leb 65 c && leb c 90) || (leb 97 c && leb c 122)

-- `/^[a-zA-Z]:/`
abbrev has_drive : List ℕ → Bool
has_drive (c ∷ d ∷ _) = is_letter c && eqb d 58
has_drive _ = false

abbrev starts_separator : List ℕ → Bool
starts_separator [] = false
starts_separator (c ∷ _) = is_separator c

abbrev pub is_absolute : String → Bool
is_absolute s = starts_separator (codes s) || has_drive (codes s)

abbrev pub is_up : String → Bool
is_up s = str_eq s ".."

-- `parts.some((p) => p === "..")` for the parts between separators
abbrev pub has_up : String → Bool
has_up s = any is_up (split_where is_separator s)

-- all but the last part
abbrev parent_parts : List String → List String
parent_parts [] = []
parent_parts (p ∷ []) = []
parent_parts (p ∷ q ∷ ps) = p ∷ parent_parts (q ∷ ps)

-- what `resolve` does with the parts of a relative path, one by one
unfoldable pub resolve_parts : List String → List String → List String
resolve_parts at [] = at
resolve_parts at (p ∷ ps) =
    if str_eq p "" || str_eq p "."
    then resolve_parts at ps
    else if is_up p
    then resolve_parts (parent_parts at) ps
    else resolve_parts (at ++ p ∷ []) ps

-- `resolve(destRoot, entryPath)`
unfoldable pub resolve : List String → String → List String
resolve root entry =
    resolve_parts (if starts_codes (47 ∷ []) (codes entry) then [] else root)
      (split_where is_slash entry)

slashed : List String → String
slashed [] = ""
slashed (p ∷ ps) = String.◌++◌ "/" (String.◌++◌ p (slashed ps))

-- the text of an absolute path
unfoldable pub path_text : List String → String
unfolding slashed
path_text [] = "/"
path_text (p ∷ ps) = slashed (p ∷ ps)

unfoldable pub escapes : List String → String → Bool
escapes root entry =
    let resolved = path_text (resolve root entry) in
    let top = path_text root in
    not (str_eq resolved top) && not (starts_codes (codes (String.◌++◌ top "/")) (codes resolved))

unfoldable pub assert_safe_archive_path : String → List String → Result (Unit {0})
assert_safe_archive_path entry root =
    throw_if (str_eq entry "") "empty path in archive"
    >> throw_if (any_code (λ c. eqb c 0) entry) "NUL byte in archive path"
    >> throw_if (is_absolute entry) (concat ("absolute path in archive: " ∷ entry ∷ []))
    >> throw_if (has_up entry) (concat ("path traversal in archive: " ∷ entry ∷ []))
    >> throw_if (escapes root entry) (concat ("path escapes destination: " ∷ entry ∷ []))
