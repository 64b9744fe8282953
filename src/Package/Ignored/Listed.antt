-- ===== src/Package/Ignored/Listed.antt =====
-- Which files `listProjectFiles` lists.
use open_agent_hub.Prelude.{
  String, Bool, true, false, ◌≡◌, ◌↔◌, ◌⊎◌, inl, inr, arith, refl, ap, sym, ◌∙◌, subst, ◌&&◌,
  if◌then◌else◌, List, [], ◌∷◌, ◌++◌, In, In-of_append, In-append_left, In-append_right, Bool-cases,
}
use open_agent_hub.Package.Ignored.{
  Entries, no_entries, a_file, a_directory, a_special, keeps_directory, keeps_file, walk,
  list_project_files,
}

-- Below the entries there is a file at the path.
abbrev pub FileAt : Entries → List String → Type 0
FileAt no_entries p = ⊥
FileAt (a_file name es) p = (p ≡ name ∷ []) ⊎ FileAt es p
FileAt (a_directory name content es) p =
    ((q : List String) × (p ≡ name ∷ q) × FileAt content q) ⊎ FileAt es p
FileAt (a_special name es) p = FileAt es p

-- the names of a path: directories that are entered, and a file that is kept
abbrev pub keeps_path : List String → Bool
keeps_path [] = false
keeps_path (name ∷ []) = keeps_file name
keeps_path (name ∷ next ∷ p) = keeps_directory name && keeps_path (next ∷ p)

-- a listed path below `rel`
abbrev Listed : List String → Entries → List String → Type 0
Listed rel es p = (q : List String) × (p ≡ rel ++ q) × FileAt es q × (keeps_path q ≡ true)

append_one :
    (xs : List String) (a : String) (ys : List String) → (xs ++ a ∷ []) ++ ys ≡ xs ++ a ∷ ys
append_one [] a ys = refl
append_one (x ∷ xs) a ys = ap (λ t. x ∷ t) (append_one xs a ys)

In-of_if :
    {A : Type 0} (a : A) (b : Bool) (xs ys : List A)
    → In a (if b then xs else ys)
    → ((b ≡ true) × In a xs) ⊎ In a ys
In-of_if a true xs ys h = inl (refl, h)
In-of_if a false xs ys h = inr h

-- no file stands at the empty path
file_named : (es : Entries) → FileAt es [] → ⊥
file_named no_entries h = h
file_named (a_file name es) (inl e) = cc
file_named (a_file name es) (inr h) = file_named es h
file_named (a_directory name content es) (inl (q, e, h)) = cc
file_named (a_directory name content es) (inr h) = file_named es h
file_named (a_special name es) h = file_named es h

-- the names of a path through a directory
keeps_below :
    (name : String) (es : Entries) (q : List String)
    → FileAt es q
    → keeps_path (name ∷ q) ≡ (keeps_directory name && keeps_path q)
keeps_below name es [] h = absurd (file_named es h)
keeps_below name es (x ∷ q) h = refl

Listed-of_walk :
    (rel : List String) (es : Entries) (p : List String) → In p (walk rel es) → Listed rel es p
unfolding walk
Listed-of_walk rel no_entries p h = absurd h
Listed-of_walk rel (a_file name es) p h =
    elim (In-of_if p (keeps_file name) ((rel ++ name ∷ []) ∷ walk rel es) (walk rel es) h) [
      | inl (k, inl e) ↦ (name ∷ [], sym e, inl refl, k)
      | inl (k, inr m) ↦ (let (q, e, f, kq) = Listed-of_walk rel es p m in (q, e, inr f, kq))
      | inr m ↦ (let (q, e, f, kq) = Listed-of_walk rel es p m in (q, e, inr f, kq))
    ]
Listed-of_walk rel (a_directory name content es) p h =
    let below = walk (rel ++ name ∷ []) content in
    let rest = walk rel es in
    elim (In-of_if p (keeps_directory name) (below ++ rest) rest h) [
      | inl (k, m) ↦ elim (In-of_append p below rest m) [
        | inl m ↦
            let (q, e, f, kq) = Listed-of_walk (rel ++ name ∷ []) content p m in
            (
              name ∷ q,
              e ∙ append_one rel name q,
              inl (q, refl, f),
              rw (keeps_below name content q f) (ground arith),
            )
        | inr m ↦ let (q, e, f, kq) = Listed-of_walk rel es p m in (q, e, inr f, kq)
      ]
      | inr m ↦ let (q, e, f, kq) = Listed-of_walk rel es p m in (q, e, inr f, kq)
    ]
Listed-of_walk rel (a_special name es) p h = Listed-of_walk rel es p h

walk-Listed :
    (rel : List String) (es : Entries) (p : List String) → Listed rel es p → In p (walk rel es)
unfolding walk
walk-Listed rel no_entries p (q, e, h, k) = absurd h
walk-Listed rel (a_file name es) p (q, e, inl f, k) =
    let kept : keeps_file name ≡ true = ground arith in rw kept (inl (rw (e, f) refl))
walk-Listed rel (a_file name es) p (q, e, inr f, k) = elim (Bool-cases (keeps_file name)) [
  | inl b ↦ rw b (inr (walk-Listed rel es p (q, e, f, k)))
  | inr b ↦ rw b (walk-Listed rel es p (q, e, f, k))
]
walk-Listed rel (a_directory name content es) p (q, e, inl (q', e', f), k) =
    let both : (keeps_directory name && keeps_path q') ≡ true =
      sym (keeps_below name content q' f) ∙ subst (λ x. keeps_path x ≡ true) e' k in
    let kept : keeps_directory name ≡ true = ground arith in
    rw kept (
      In-append_left p (walk (rel ++ name ∷ []) content) (walk rel es) (
        walk-Listed (rel ++ name ∷ []) content p
          (q', e ∙ rw e' (sym (append_one rel name q')), f, ground arith)))
walk-Listed rel (a_directory name content es) p (q, e, inr f, k) =
    elim (Bool-cases (keeps_directory name)) [
      | inl b ↦ rw b (
          In-append_right p (walk (rel ++ name ∷ []) content) (walk rel es)
            (walk-Listed rel es p (q, e, f, k)))
      | inr b ↦ rw b (walk-Listed rel es p (q, e, f, k))
    ]
walk-Listed rel (a_special name es) p (q, e, f, k) = walk-Listed rel es p (q, e, f, k)

-- The listed files are exactly the files of the directory each of whose directories is entered and
-- whose own name is kept: none of its names is ignored, and no directory on its way is hidden.
pub list_project_files_iff :
    (es : Entries) (p : List String)
    → In p (list_project_files es) ↔ (FileAt es p × (keeps_path p ≡ true))
unfolding list_project_files
list_project_files_iff es p = (
  (λ h. let (q, e, f, k) = Listed-of_walk [] es p h in (rw e f, rw e k)),
  (λ (f, k). walk-Listed [] es p (p, refl, f, k)),
)
