-- ===== src/Usage/Store/Pruning.antt =====
-- Which runs a pruning removes, and what goes with them.
use open_agent_hub.Prelude.{
  String, ◌≡◌, ◌↔◌, inl, inr, arith, ap, ◌∙◌, sym, subst, List, not, keep, includes, In, In-of_keep,
  In-keep, In-of_includes, includes_of_In, Bool-cases, length, ◌+◌, keep_cong, length-keep-not,
}
use open_agent_hub.Usage.Tables.{RunFacts, UsageSample, ResourceSample, UsageStore}
use open_agent_hub.Usage.Store.{run_ids, remove_runs}
use open_agent_hub.Usage.Store.Rows.{In-run_ids, In-of_run_ids, In-keep-not-includes}

abbrev pub doomed : UsageStore → List String → List RunFacts
doomed s ids = keep (λ (r : RunFacts). includes r.run_id ids) s.runs

-- an identifier that is removed is listed and stands in the table
In-doomed :
    (s : UsageStore) (ids : List String) (id : String)
    → In id (run_ids (doomed s ids)) ↔ (In id ids × In id (run_ids s.runs))
In-doomed s ids id = (
  (λ h.
      let (r, m, e) = In-of_run_ids id (doomed s ids) h in
      let (there, listed) = In-of_keep (λ (x : RunFacts). includes x.run_id ids) s.runs m in
      (
        subst (λ i. In i ids) e (In-of_includes r.run_id ids listed),
        subst (λ i. In i (run_ids s.runs)) e (In-run_ids r s.runs there),
      )),
  (λ (listed, there).
      let (r, m, e) = In-of_run_ids id s.runs there in
      let kept =
        In-keep (λ (x : RunFacts). includes x.run_id ids) s.runs m
          (includes_of_In r.run_id ids (subst (λ i. In i ids) (sym e) listed)) in
      subst (λ i. In i (run_ids (doomed s ids))) e (In-run_ids r (doomed s ids) kept)),
)

In-without :
    {A : Type 0} (s : UsageStore) (ids : List String) (id : A → String) (a : A) (xs : List A)
    → In a (keep (λ x. not (includes (id x) (run_ids (doomed s ids)))) xs)
      ↔ (In a xs × (¬ (In (id a) ids × In (id a) (run_ids s.runs))))
In-without s ids id a xs =
    let rule = In-keep-not-includes id (run_ids (doomed s ids)) a xs in
    let member = In-doomed s ids (id a) in
    (
      (λ h. let (m, free) = rule.0 h in (m, (λ both. free (member.1 both)))),
      (λ (m, free). rule.1 (m, (λ listed. free (member.0 listed)))),
    )

abbrev pub survivors : UsageStore → List String → List RunFacts
survivors s ids = keep (λ (r : RunFacts). not (includes r.run_id (run_ids (doomed s ids)))) s.runs

pub In-survivors :
    (s : UsageStore) (ids : List String) (r : RunFacts)
    → In r (survivors s ids) ↔ (In r s.runs × (¬ (In r.run_id ids)))
In-survivors s ids r =
    let rule = In-without s ids (λ (x : RunFacts). x.run_id) r s.runs in
    (
      (λ h. let (m, free) = rule.0 h in (m, (λ listed. free (listed, In-run_ids r s.runs m)))),
      (λ (m, free). rule.1 (m, (λ both. free both.0))),
    )

survivors_eq :
    (s : UsageStore) (ids : List String)
    → survivors s ids ≡ keep (λ (r : RunFacts). not (includes r.run_id ids)) s.runs
survivors_eq s ids =
    keep_cong (λ (r : RunFacts). not (includes r.run_id (run_ids (doomed s ids))))
      (λ (r : RunFacts). not (includes r.run_id ids)) s.runs (λ r m. ap not (same r m))
  where
    same :
        (r : RunFacts)
        → In r s.runs
        → includes r.run_id (run_ids (doomed s ids)) ≡ includes r.run_id ids
    same r m =
        let member = In-doomed s ids r.run_id in
        elim (Bool-cases (includes r.run_id ids)) [
          | inl e ↦
              let there = member.1 (In-of_includes r.run_id ids e, In-run_ids r s.runs m) in
              includes_of_In r.run_id (run_ids (doomed s ids)) there ∙ sym e
          | inr e ↦ elim (Bool-cases (includes r.run_id (run_ids (doomed s ids)))) [
            | inl f ↦
                let listed = member.0 (In-of_includes r.run_id (run_ids (doomed s ids)) f) in
                absurd (let t = includes_of_In r.run_id ids listed.0 in ground arith)
            | inr f ↦ f ∙ sym e
          ]
        ]

-- Removing runs takes away exactly the listed runs, and with each of them, and with no other run, the
-- usage and resource samples that name it; the count is that of the rows removed.
pub remove_runs_lem :
    (s : UsageStore) (ids : List String)
    → let (s', removed) = remove_runs s ids in
      ((r : RunFacts) → In r s'.runs ↔ (In r s.runs × (¬ (In r.run_id ids))))
      × ((u : UsageSample)
          → In u s'.token_usage
            ↔ (In u s.token_usage × (¬ (In u.run_id ids × In u.run_id (run_ids s.runs)))))
      × ((u : ResourceSample)
          → In u s'.resource_samples
            ↔ (In u s.resource_samples × (¬ (In u.run_id ids × In u.run_id (run_ids s.runs)))))
      × (removed + length s'.runs ≡ length s.runs)
unfolding remove_runs
remove_runs_lem s ids =
    let gone = run_ids (doomed s ids) in
    (
      (λ r. In-survivors s ids r),
      (λ u. In-without s ids (λ (x : UsageSample). x.run_id) u s.token_usage),
      (λ u. In-without s ids (λ (x : ResourceSample). x.run_id) u s.resource_samples),
      ap (λ xs. length (doomed s ids) + length xs) (survivors_eq s ids)
          ∙ length-keep-not (λ (r : RunFacts). includes r.run_id ids) s.runs,
    )
