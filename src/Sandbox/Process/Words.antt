-- ===== src/Sandbox/Process/Words.antt =====
-- Which commands the process sandbox accepts, and the words that it starts.
use open_agent_hub.Prelude.{
  none, true, false, ◌≡◌, ◌≢◌, ◌↔◌, ◌⊎◌, inl, inr, arith, refl, ap, sym, subst, ◌∙◌, ℕ, Char, List,
  [], ◌∷◌, String, ◌++◌, not, keep, find, code, codes, any_code, split_where, prepend, In, ok,
  thrown, eq_iff, Bool-cases, Option-cases, find-eq-none, find-eq-some, In-of_keep, str_eq,
}
use open_agent_hub.Sandbox.Process.{
  is_space, is_metacharacter, is_nonempty, words, metacharacter_error, check_tokens, split_command,
}

-- A word: not empty, and without white space.
abbrev pub IsWord : String → Type 0
IsWord s = (s ≢ "") × (any_code is_space s ≡ false)

-- the characters of a text that are not white space, in order
abbrev pub visible : String → List ℕ
visible s = keep (λ c. not (is_space c)) (codes s)

abbrev pub visible_all : List String → List ℕ
visible_all [] = []
visible_all (s ∷ ss) = visible s ++ visible_all ss

-- Splitting keeps the characters between the separators, and puts none of the separators in a part.
abbrev AllClean : List String → Type 0
AllClean [] = Unit
AllClean (s ∷ ss) = (any_code is_space s ≡ false) × AllClean ss

prepend-AllClean :
    (c : Char) (parts : List String)
    → is_space (code c) ≡ false
    → AllClean parts
    → AllClean (prepend c parts)
unfolding prepend
prepend-AllClean c [] e h = (rw e, tt)
prepend-AllClean c (p ∷ ps) e h = (rw e h.0, h.1)

split_where-AllClean : (s : String) → AllClean (split_where is_space s)
unfolding split_where
split_where-AllClean String.[] = (refl, tt)
split_where-AllClean (String.◌∷◌ c s) = elim (Bool-cases (is_space (code c))) [
  | inl e ↦ rw e (refl, split_where-AllClean s)
  | inr e ↦ rw e (prepend-AllClean c (split_where is_space s) e (split_where-AllClean s))
]

visible-prepend :
    (c : Char) (parts : List String)
    → is_space (code c) ≡ false
    → visible_all (prepend c parts) ≡ code c ∷ visible_all parts
unfolding prepend
visible-prepend c [] e = rw e
visible-prepend c (p ∷ ps) e = rw e

visible-split_where : (s : String) → visible_all (split_where is_space s) ≡ visible s
unfolding split_where
visible-split_where String.[] = refl
visible-split_where (String.◌∷◌ c s) = elim (Bool-cases (is_space (code c))) [
  | inl e ↦ rw e (visible-split_where s)
  | inr e ↦
      rw e (
        visible-prepend c (split_where is_space s) e ∙ ap (λ r. code c ∷ r) (visible-split_where s))
]

In-AllClean :
    (w : String) (parts : List String) → AllClean parts → In w parts → any_code is_space w ≡ false
In-AllClean w [] h m = absurd m
In-AllClean w (p ∷ ps) h (inl e) = subst (λ x. any_code is_space x ≡ false) e h.0
In-AllClean w (p ∷ ps) h (inr m) = In-AllClean w ps h.1 m

words-IsWord : (command w : String) → In w (words command) → IsWord w
unfolding words is_nonempty
words-IsWord command w m =
    let (there, full) = In-of_keep is_nonempty (split_where is_space command) m in
    (
      (λ e. ground (arith, eq_iff w "")),
      In-AllClean w (split_where is_space command) (split_where-AllClean command) there,
    )

visible-keep : (parts : List String) → visible_all (keep is_nonempty parts) ≡ visible_all parts
unfolding is_nonempty
visible-keep [] = refl
visible-keep (p ∷ ps) = elim (Bool-cases (str_eq p "")) [
  | inl e ↦ rw e (visible-keep ps ∙ sym (ap (λ x. visible x ++ visible_all ps) ((eq_iff p "").0 e)))
  | inr e ↦ rw e (ap (λ r. visible p ++ r) (visible-keep ps))
]

check_tokens_ok :
    (tokens result : List String)
    → check_tokens tokens ≡ ok result
    → (result ≡ tokens) × (tokens ≢ []) × (find (any_code is_metacharacter) tokens ≡ none)
unfolding check_tokens
check_tokens_ok [] result h = cc
check_tokens_ok (w ∷ ws) result h = ground arith

-- A command that is accepted gives at least one word; each is free of white space and of shell
-- metacharacters and is not empty; and together they hold all the characters of the command that
-- are not white space, in their order.
pub split_command_sound :
    (command : String) (tokens : List String)
    → split_command command ≡ ok tokens
    → (tokens ≢ [])
      × ((w : String) → In w tokens → IsWord w × (any_code is_metacharacter w ≡ false))
      × (visible_all tokens ≡ visible command)
unfolding split_command
split_command_sound command tokens h =
    let (same, some_word, safe) = check_tokens_ok (words command) tokens h in
    rw same (
      some_word,
      (λ w m. (
        words-IsWord command w m,
        find-eq-none (any_code is_metacharacter) (words command) safe m,
      )),
      unfold words in (visible-keep (split_where is_space command) ∙ visible-split_where command),
    )

check_tokens_refuses :
    (tokens : List String)
    → ((message : String) × (check_tokens tokens ≡ thrown message))
      ↔ ((tokens ≡ []) ⊎ ((w : String) × In w tokens × (any_code is_metacharacter w ≡ true)))
unfolding check_tokens
check_tokens_refuses [] = ((λ h. inl refl), (λ h. ("empty command", refl)))
check_tokens_refuses (v ∷ vs) = elim (Option-cases (find (any_code is_metacharacter) (v ∷ vs))) [
  | inl absent ↦ (
    (λ (message, h). let z = rw (absent, check_tokens) at h in cc),
    (λ h. elim h [
      | inl e ↦ cc
      | inr (w, m, bad) ↦
          let fine = find-eq-none (any_code is_metacharacter) (v ∷ vs) absent m in cc
    ]),
  )
  | inr (t, found) ↦ (
    (λ h.
        let (m, bad) = find-eq-some (any_code is_metacharacter) (v ∷ vs) found in inr (t, m, bad)),
    (λ h. (metacharacter_error t, rw (found, check_tokens) refl)),
  )
]

-- A command is refused exactly when it is blank or one of its words holds a metacharacter.
pub split_command_refuses_iff :
    (command : String)
    → ((message : String) × (split_command command ≡ thrown message)) ↔ (
        (words command ≡ [])
        ⊎ ((w : String) × In w (words command) × (any_code is_metacharacter w ≡ true)))
unfolding split_command
split_command_refuses_iff command = check_tokens_refuses (words command)
