-- ===== src/Package/Ignored.antt =====
-- `isIgnoredName` and `listProjectFiles` of sdk/src/package.ts. A directory is the list of its
-- entries, a path the list of its names.
use open_agent_hub.Prelude.{
  String, Option, none, some, Bool, true, false, ◌≡◌, ◌≢◌, ◌↔◌, ◌⊎◌, inl, inr, arith, refl, ap, sym,
  ◌∙◌, ◌&&◌, ◌||◌, not, if◌then◌else◌, List, [], ◌∷◌, ◌++◌, ℕ, eqb, str_eq, codes, starts_codes,
  any, code,
}
use Prim.Native.String
pub mod Listed

abbrev ends_with : String → String → Bool
ends_with p String.[] = str_eq p ""
ends_with p (String.◌∷◌ c s) = str_eq p (String.◌∷◌ c s) || ends_with p s

-- `p.startsWith("*") ? name.endsWith(p.slice(1)) : name === p`
abbrev matches : String → String → Bool
matches name String.[] = str_eq name ""
matches name (String.◌∷◌ c p) =
    if eqb (code c) 42 then ends_with p name else str_eq name (String.◌∷◌ c p)

-- `IGNORE_PATTERNS` and `SECRET_IGNORE_PATTERNS`
abbrev pub ignore_patterns : List String
ignore_patterns =
    ".git" ∷ "node_modules" ∷ ".venv" ∷ "venv" ∷ "__pycache__" ∷ ".pytest_cache" ∷ "dist"
    ∷ "coverage" ∷ ".DS_Store" ∷ "*.ahb" ∷ "*.sig.json" ∷ []

abbrev pub secret_ignore_patterns : List String
secret_ignore_patterns =
    ".env" ∷ ".env.local" ∷ ".env.development" ∷ ".env.production" ∷ ".env.test" ∷ ".env.staging"
    ∷ "*.pem" ∷ "*.key" ∷ "*.p12" ∷ "*.pfx" ∷ "master.key" ∷ "id_rsa" ∷ "id_ed25519" ∷ "id_dsa"
    ∷ ".ssh" ∷ "credentials.json" ∷ ".pypirc" ∷ ".npmrc" ∷ ".openagenthub" ∷ []

unfoldable pub is_ignored_name : String → Bool
is_ignored_name name =
    any (matches name) ignore_patterns || any (matches name) secret_ignore_patterns

-- the entries of a directory, in the order that they are read
pub data Entries : Type 0 where
  no_entries : Entries
  a_file : String → Entries → Entries
  a_directory : String → Entries → Entries → Entries
  a_special : String → Entries → Entries

-- a directory with a hidden name is not entered
abbrev pub keeps_directory : String → Bool
keeps_directory name =
    not (is_ignored_name name)
    && not
        (starts_codes (codes ".") (codes name) && not (str_eq name ".") && not (str_eq name ".."))

abbrev pub keeps_file : String → Bool
keeps_file name = not (is_ignored_name name) && not (starts_codes (codes "._") (codes name))

walk : List String → Entries → List (List String)
walk rel no_entries = []
walk rel (a_file name es) =
    let rest = walk rel es in if keeps_file name then (rel ++ name ∷ []) ∷ rest else rest
walk rel (a_directory name content es) =
    let below = walk (rel ++ name ∷ []) content in
    let rest = walk rel es in if keeps_directory name then below ++ rest else rest
walk rel (a_special name es) = walk rel es

unfoldable pub list_project_files : Entries → List (List String)
unfolding walk
list_project_files es = walk [] es
