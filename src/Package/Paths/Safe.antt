-- ===== src/Package/Paths/Safe.antt =====
-- Which paths `assertSafeArchivePath` lets through, and where they lead.
use open_agent_hub.Prelude.{
  String, Bool, true, false, ◌≡◌, ◌↔◌, inl, inr, arith, refl, ap, sym, ◌∙◌, subst, ◌||◌, not,
  if◌then◌else◌, List, [], ◌∷◌, ◌++◌, ℕ, eqb, str_eq, eq_refl, eq_iff, codes, starts_codes, prepend,
  split_where, any, any_code, keep, ok, throw_if, ◌>>◌, Bool-cases, code,
}
use Prim.Native.String
use text.Mathlib.TextLemmas.{nil-append, cons-append, append_assoc}
use open_agent_hub.Package.Paths.{
  is_slash, is_separator, starts_separator, is_absolute, is_up, has_up, resolve_parts, resolve,
  slashed, path_text, escapes, assert_safe_archive_path,
}

-- the part before the first separator, and the parts behind it
first_part : (ℕ → Bool) → String → String
first_part sep String.[] = ""
first_part sep (String.◌∷◌ c s) =
    let rest = first_part sep s in if sep (code c) then "" else String.◌∷◌ c rest

later_parts : (ℕ → Bool) → String → List String
later_parts sep String.[] = []
later_parts sep (String.◌∷◌ c s) =
    let rest = later_parts sep s in if sep (code c) then first_part sep s ∷ rest else rest

split_where_lem :
    (sep : ℕ → Bool) (s : String) → split_where sep s ≡ first_part sep s ∷ later_parts sep s
unfolding split_where first_part later_parts prepend
split_where_lem sep String.[] = refl
split_where_lem sep (String.◌∷◌ c s) = elim (Bool-cases (sep (code c))) [
  | inl e ↦ rw (e, split_where_lem sep s) refl
  | inr e ↦ rw (e, split_where_lem sep s) refl
]

has_backslash : String → Bool
has_backslash s = any_code (λ c. eqb c 92) s

abbrev Finer : String → Type 0
Finer s =
    (any is_up (later_parts is_slash s) ≡ true → any is_up (later_parts is_separator s) ≡ true)
    × (has_backslash (first_part is_slash s) ≡ false
        → first_part is_separator s ≡ first_part is_slash s)

up_first : (p : String) → is_up p ≡ true → has_backslash p ≡ false
unfolding has_backslash
up_first p h = rw ((eq_iff p "..").0 h) refl

any-Finer :
    (s : String)
    → Finer s
    → any is_up (first_part is_slash s ∷ later_parts is_slash s) ≡ true
    → any is_up (first_part is_separator s ∷ later_parts is_separator s) ≡ true
any-Finer s (later, first) h = elim (Bool-cases (is_up (first_part is_slash s))) [
  | inl up ↦ rw (first (up_first (first_part is_slash s) up)) (ground arith)
  | inr not_up ↦ ground arith
]

-- a part between slashes without a backslash is a part between separators
finer : (s : String) → Finer s
unfolding first_part later_parts has_backslash
finer String.[] = ((λ h. h), (λ h. refl))
finer (String.◌∷◌ c s) = elim (Bool-cases (is_slash (code c))) [
  | inl e ↦ rw e ((λ h. any-Finer s (finer s) h), (λ h. refl))
  | inr e ↦ elim (Bool-cases (eqb (code c) 92)) [
    | inl b ↦
        rw (e, b)
          ((λ h. any-Finer s (finer s) (ground arith)), (λ h. absurd (ground (arith, b, h))))
    | inr b ↦ rw (e, b) ((finer s).0, (λ h. ap (String.◌∷◌ c) ((finer s).1 (ground (arith, b, h)))))
  ]
]

pub has_up-slash : (s : String) → has_up s ≡ false → any is_up (split_where is_slash s) ≡ false
has_up-slash s h = elim (Bool-cases (any is_up (split_where is_slash s))) [
  | inr e ↦ e
  | inl e ↦ absurd (
      ground (
        arith,
        h,
        split_where_lem is_separator s,
        any-Finer s (finer s) (subst (λ x. any is_up x ≡ true) (split_where_lem is_slash s) e),
      ))
]

-- a part that names a place: not "" and not "."
abbrev pub is_named : String → Bool
is_named p = not (str_eq p "" || str_eq p ".")

module _ {A : Type 0} where
  append_nil : (xs : List A) → xs ++ [] ≡ xs
  append_nil [] = refl
  append_nil (x ∷ xs) = ap (λ t. x ∷ t) (append_nil xs)

  append_one : (xs ys : List A) (a : A) → (xs ++ a ∷ []) ++ ys ≡ xs ++ a ∷ ys
  append_one [] ys a = refl
  append_one (x ∷ xs) ys a = ap (λ t. x ∷ t) (append_one xs ys a)

resolve_parts_lem :
    (at ps : List String) → any is_up ps ≡ false → resolve_parts at ps ≡ at ++ keep is_named ps
unfolding resolve_parts
resolve_parts_lem at [] h = sym (append_nil at)
resolve_parts_lem at (p ∷ ps) h =
    let not_up : is_up p ≡ false = ground arith in
    let rest : any is_up ps ≡ false = ground arith in
    elim (Bool-cases (str_eq p "" || str_eq p ".")) [
      | inl e ↦ rw e (resolve_parts_lem at ps rest)
      | inr e ↦
          rw (e, not_up)
            (resolve_parts_lem (at ++ p ∷ []) ps rest ∙ append_one at (keep is_named ps) p)
    ]

codes-append : (s t : String) → codes (String.◌++◌ s t) ≡ codes s ++ codes t
codes-append String.[] t = rw (nil-append t) refl
codes-append (String.◌∷◌ c s) t = rw (cons-append c s t) (ap (λ r. code c ∷ r) (codes-append s t))

starts_codes-append : (xs ys zs : List ℕ) → starts_codes (xs ++ ys) (xs ++ zs) ≡ starts_codes ys zs
starts_codes-append [] ys zs = refl
starts_codes-append (x ∷ xs) ys zs = ground (arith, starts_codes-append xs ys zs)

slashed-append : (xs ys : List String) → slashed (xs ++ ys) ≡ String.◌++◌ (slashed xs) (slashed ys)
unfolding slashed
slashed-append [] ys = sym (nil-append (slashed ys))
slashed-append (x ∷ xs) ys = simp (slashed-append xs ys, append_assoc)

-- a path below another one starts with it and a slash
starts_slashed :
    (root : List String) (m : String) (ms : List String)
    → starts_codes (codes (String.◌++◌ (slashed root) "/")) (codes (slashed (root ++ m ∷ ms)))
      ≡ true
unfolding slashed
starts_slashed root m ms =
    let z = String.◌++◌ m (slashed ms) in
    rw
      (
        slashed-append root (m ∷ ms),
        codes-append (slashed root) "/",
        codes-append (slashed root) (String.◌++◌ "/" z),
        codes-append "/" z,
      )
      (starts_codes-append (codes (slashed root)) (codes "/") (codes "/" ++ codes z))

not_slash : (cs : List ℕ) → starts_separator cs ≡ false → starts_codes (47 ∷ []) cs ≡ false
not_slash [] h = refl
not_slash (c ∷ cs) h = ground arith

-- where an entry leads that is not absolute and has no part ".."
pub resolve_lem :
    (root : List String) (entry : String)
    → is_absolute entry ≡ false
    → has_up entry ≡ false
    → resolve root entry ≡ root ++ keep is_named (split_where is_slash entry)
unfolding resolve
resolve_lem root entry relative plain =
    let no_slash : starts_codes (47 ∷ []) (codes entry) ≡ false =
      not_slash (codes entry) (ground arith) in
    rw no_slash (resolve_parts_lem root (split_where is_slash entry) (has_up-slash entry plain))

below_lem :
    (r : String) (rs more : List String) (entry : String)
    → resolve (r ∷ rs) entry ≡ (r ∷ rs) ++ more
    → escapes (r ∷ rs) entry ≡ false
unfolding escapes path_text
below_lem r rs [] entry e = rw (e, append_nil rs) (rw (eq_refl (path_text (r ∷ rs))) refl)
below_lem r rs (m ∷ ms) entry e = rw (e, escapes) (rw (starts_slashed (r ∷ rs) m ms) (ground arith))

all_pass :
    (a b c d e : Bool) (m n o p q : String)
    → (throw_if a m >> throw_if b n >> throw_if c o >> throw_if d p >> throw_if e q) ≡ ok tt
    → (a ≡ false) × (b ≡ false) × (c ≡ false) × (d ≡ false) × (e ≡ false)
all_pass a b c d e m n o p q h = ground arith

-- For a destination other than the root directory: a path is let through exactly if it is not
-- empty, has no NUL, is not absolute and has no part ".." between slashes of either kind; then it
-- leads to the destination or below it. The last check never refuses what the others let through.
pub assert_safe_archive_path_iff :
    (r : String) (rs : List String) (entry : String)
    → (assert_safe_archive_path entry (r ∷ rs) ≡ ok tt) ↔ (
        (str_eq entry "" ≡ false)
        × (any_code (λ c. eqb c 0) entry ≡ false)
        × (is_absolute entry ≡ false)
        × (has_up entry ≡ false)
        × ((more : List String) × (resolve (r ∷ rs) entry ≡ (r ∷ rs) ++ more)))
unfolding assert_safe_archive_path
assert_safe_archive_path_iff r rs entry = (
  (λ h.
      let (a, b, c, d, _) =
        all_pass (str_eq entry "") (any_code (λ c. eqb c 0) entry) (is_absolute entry)
          (has_up entry) (escapes (r ∷ rs) entry) _ _ _ _ _ h in
      (a, b, c, d, (keep is_named (split_where is_slash entry), resolve_lem (r ∷ rs) entry c d))),
  (λ (a, b, c, d, (more, below)). rw (a, b, c, d, below_lem r rs more entry below) refl),
)
