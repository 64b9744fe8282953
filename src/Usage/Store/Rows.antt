-- ===== src/Usage/Store/Rows.antt =====
-- Rows and the identifiers of their runs.
use open_agent_hub.Prelude.{
  String, ◌≡◌, ◌↔◌, inl, inr, arith, refl, ap, ◌∙◌, sym, subst, List, [], ◌∷◌, not, keep, includes,
  In, In-of_keep, In-keep, In-of_includes, includes_of_In, Distinct, Bool-cases,
}
use open_agent_hub.Usage.Tables.{RunFacts}
use open_agent_hub.Usage.Store.{run_ids}

pub In-run_ids : (r : RunFacts) (rs : List RunFacts) → In r rs → In r.run_id (run_ids rs)
In-run_ids r [] h = absurd h
In-run_ids r (x ∷ xs) (inl e) = inl (ap (λ (y : RunFacts). y.run_id) e)
In-run_ids r (x ∷ xs) (inr h) = inr (In-run_ids r xs h)

pub In-of_run_ids :
    (id : String) (rs : List RunFacts)
    → In id (run_ids rs)
    → (r : RunFacts) × In r rs × (r.run_id ≡ id)
In-of_run_ids id [] h = absurd h
In-of_run_ids id (x ∷ xs) (inl e) = (x, inl refl, e)
In-of_run_ids id (x ∷ xs) (inr h) = let (r, m, e) = In-of_run_ids id xs h in (r, inr m, e)

-- With distinct identifiers a run is known by its identifier.
pub run_of_id :
    (q r : RunFacts) (rs : List RunFacts)
    → Distinct (run_ids rs)
    → In q rs
    → In r rs
    → q.run_id ≡ r.run_id
    → q ≡ r
run_of_id q r [] d m n e = absurd m
run_of_id q r (x ∷ xs) (fresh, d) (inl a) (inl b) e = sym a ∙ b
run_of_id q r (x ∷ xs) (fresh, d) (inl a) (inr n) e = absurd (
    fresh (
      subst (λ i. In i (run_ids xs)) (sym (ap (λ (y : RunFacts). y.run_id) a ∙ e))
        (In-run_ids r xs n)))
run_of_id q r (x ∷ xs) (fresh, d) (inr m) (inl b) e = absurd (
    fresh (
      subst (λ i. In i (run_ids xs)) (e ∙ sym (ap (λ (y : RunFacts). y.run_id) b))
        (In-run_ids q xs m)))
run_of_id q r (x ∷ xs) (fresh, d) (inr m) (inr n) e = run_of_id q r xs d m n e

-- What a filter by membership of an identifier leaves.
pub In-keep-not-includes :
    {A : Type 0} (id : A → String) (ids : List String) (a : A) (xs : List A)
    → In a (keep (λ x. not (includes (id x) ids)) xs) ↔ (In a xs × (¬ (In (id a) ids)))
In-keep-not-includes id ids a xs = (
  (λ h.
      let (m, t) = In-of_keep (λ x. not (includes (id x) ids)) xs h in
      (m, (λ listed. let y = includes_of_In (id a) ids listed in ground arith))),
  (λ (m, free).
      In-keep (λ x. not (includes (id x) ids)) xs m
        (elim (Bool-cases (includes (id a) ids)) [
          | inl y ↦ absurd (free (In-of_includes (id a) ids y))
          | inr n ↦ rw n refl
        ])),
)
