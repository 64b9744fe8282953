-- ===== src/Cli/Spec.antt =====
-- `parseSpec` of cli/src/lib/installer.ts: a request for an agent, `namespace/name` or
-- `namespace/name@version`. Its pattern is read from left to right: a namespace has no slash and a
-- name no at sign, so the first of each ends it.
use open_agent_hub.Prelude.{
  ℕ, zero, suc, ◌+◌, ◌≡◌, ◌≢◌, ◌∙◌, refl, sym, ap, subst, arith, String, Char, code, Option, none,
  some, Bool, true, false, ◌&&◌, ◌||◌, not, if◌then◌else◌, List, [], ◌∷◌, leb, ltb, eqb, any_code,
  str_eq, eq_iff, truthy, concat, codes, length, all, first, last, Result, ok, thrown, Bool-cases,
  inl, inr, and_true, get_or_default,
}
use Prim.Native.String
use open_agent_hub.Permissions.{agent_key}
use open_agent_hub.Cli.Version.{cut}
use open_agent_hub.Cli.Prepare.{ParsedSpec}
pub mod Names

-- `[a-z0-9]`
unfoldable pub is_letter_or_digit : ℕ → Bool
is_letter_or_digit c = (leb 97 c && leb c 122) || (leb 48 c && leb c 57)

abbrev pub at_end : Option ℕ → Bool
at_end none = false
at_end (some c) = is_letter_or_digit c

-- `[a-z0-9]X*[a-z0-9]`, for a class `X` that has the letters and digits
unfoldable pub is_word : (ℕ → Bool) → String → Bool
is_word inside s =
    ltb 1 (length (codes s))
    && all inside (codes s)
    && at_end (first (codes s))
    && at_end (last (codes s))

-- `[a-z0-9-]` and `[a-z0-9_-]`
unfoldable pub in_namespace : ℕ → Bool
in_namespace c = is_letter_or_digit c || eqb c 45

unfoldable pub in_name : ℕ → Bool
in_name c = is_letter_or_digit c || eqb c 45 || eqb c 95

-- what `.` does not match
unfoldable pub is_line_end : ℕ → Bool
is_line_end c = eqb c 10 || eqb c 13 || eqb c 8232 || eqb c 8233

-- `m[3] || undefined`
abbrev pub non_empty_text : Option String → Option String
non_empty_text none = none
non_empty_text (some v) = if str_eq v "" then none else some v

abbrev has_line_end : Option String → Bool
has_line_end none = false
has_line_end (some v) = any_code is_line_end v

unfoldable pub invalid_spec : String → String
invalid_spec spec =
    concat ("invalid agent spec '" ∷ spec ∷ "'. Expected namespace/name[@version]" ∷ [])

-- the parts behind the slash
unfoldable pub parse_name : String → String → Option String → Result ParsedSpec
parse_name spec namespace none = thrown (invalid_spec spec)
parse_name spec namespace (some rest) =
    let (name, version) = cut 64 rest in
    if is_word in_namespace namespace && is_word in_name name && not (has_line_end version)
    then ok (record { namespace = namespace; name = name; version = non_empty_text version })
    else thrown (invalid_spec spec)

unfoldable pub parse_spec : String → Result ParsedSpec
unfolding parse_name
parse_spec spec = let (namespace, rest) = cut 47 spec in parse_name spec namespace rest
