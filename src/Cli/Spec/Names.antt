-- ===== src/Cli/Spec/Names.antt =====
-- Requests are read back from the keys of agents, and their names are plain.
use open_agent_hub.Prelude.{
  ℕ, ◌≡◌, ◌≢◌, refl, arith, String, code, some, Bool, true, false, not, List, [], ◌∷◌, eqb,
  any_code, str_eq, eq_iff, concat, codes, all, ok, and_true,
}
use Prim.Native.String.{◌++◌}
use Prim.Native.Char.{Char}
use text.Mathlib.TextLemmas.{nil-append, cons-append, append-nil}
use open_agent_hub.Permissions.{agent_key}
use open_agent_hub.Cli.Version.{cut}
use open_agent_hub.Cli.Spec.{
  is_letter_or_digit, is_word, in_namespace, in_name, is_line_end, parse_name, parse_spec,
}

-- A text is cut at the first character of a code.
cut-append :
    (c : ℕ) (s t : String) (x : Char)
    → all (λ d. not (eqb d c)) (codes s) ≡ true
    → code x ≡ c
    → cut c (s ++ String.◌∷◌ x t) ≡ (s, some t)
unfolding cut
cut-append c String.[] t x h e = rw (nil-append (String.◌∷◌ x t)) (ground arith)
cut-append c (String.◌∷◌ y s) t x h e =
    let ih = cut-append c s t x in rw (cons-append y s (String.◌∷◌ x t)) (ground (arith, ih))

-- the texts of a key, one by one
key_parts :
    (namespace name version : String)
    → agent_key namespace name version
      ≡ namespace ++ String.◌∷◌ "/" (name ++ String.◌∷◌ "@" version)
unfolding agent_key concat
key_parts namespace name version =
    rw
      (
        append-nil version,
        cons-append "@" String.[] version,
        nil-append version,
        cons-append "/" String.[] (name ++ String.◌∷◌ "@" version),
        nil-append (name ++ String.◌∷◌ "@" version),
      )
      refl

all_weaken :
    (p q : ℕ → Bool) (xs : List ℕ)
    → ((x : ℕ) → p x ≡ true → q x ≡ true)
    → all p xs ≡ true
    → all q xs ≡ true
all_weaken p q [] h a = refl
all_weaken p q (x ∷ xs) h a =
    let (here, rest) = and_true (p x) (all p xs) a in rw (h x here, all_weaken p q xs h rest) refl

namespace_no_slash : (x : ℕ) → in_namespace x ≡ true → not (eqb x 47) ≡ true
unfolding in_namespace is_letter_or_digit
namespace_no_slash x h = ground arith

name_no_at : (x : ℕ) → in_name x ≡ true → not (eqb x 64) ≡ true
unfolding in_name is_letter_or_digit
name_no_at x h = ground arith

word_inside :
    (inside : ℕ → Bool) (s : String) → is_word inside s ≡ true → all inside (codes s) ≡ true
unfolding is_word
word_inside inside s h = ground arith

-- The request that is written like the key of an agent, of a namespace and a name that fit the
-- pattern and a version that is a text of one line and not empty, is read as this namespace, name
-- and version.
pub parse_spec-agent_key :
    (namespace name version : String)
    → is_word in_namespace namespace ≡ true
    → is_word in_name name ≡ true
    → any_code is_line_end version ≡ false
    → version ≢ ""
    → parse_spec (agent_key namespace name version)
      ≡ ok (record { namespace = namespace; name = name; version = some version })
unfolding parse_spec parse_name
parse_spec-agent_key namespace name version h i plain given =
    let slash =
      all_weaken in_namespace _ (codes namespace) namespace_no_slash
        (word_inside in_namespace namespace h) in
    let at_sign = all_weaken in_name _ (codes name) name_no_at (word_inside in_name name i) in
    let named : str_eq version "" ≡ false = ground (arith, eq_iff version "") in
    rw
      (
        key_parts namespace name version,
        cut-append 47 namespace (name ++ String.◌∷◌ "@" version) "/" slash refl,
        cut-append 64 name version "@" at_sign refl,
        h,
        i,
        plain,
        named,
      )
      refl
