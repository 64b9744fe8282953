-- ===== src/Examples/Usages.antt =====
-- The usage database at concrete inputs.
use open_agent_hub.Prelude.{◌≡◌, ◌↔◌, inl, inr, arith, [], ◌∷◌, ◌+◌, In, Distinct, length, eq_iff}
use open_agent_hub.Usage.Tables.{RunFacts, UsageSample, ResourceSample}
use open_agent_hub.Usage.Store.{run_ids, remove_runs}
use open_agent_hub.Usage.Store.Pruning.{remove_runs_lem}
use open_agent_hub.Examples.Data.{three_runs}

three-Distinct : Distinct (run_ids three_runs.runs)
three-Distinct = (
  (λ h. elim h [
    | inl e ↦ ground (arith, eq_iff "r-1" "r-2")
    | inr h ↦ elim h [ inl e ↦ ground (arith, eq_iff "r-1" "r-3") | inr z ↦ z ]
  ]),
  ((λ h. elim h [ inl e ↦ ground (arith, eq_iff "r-2" "r-3") | inr z ↦ z ]), ((λ z. z), tt)),
)

remove_runs_lem_example :
    let (s', removed) = remove_runs three_runs ("r-1" ∷ "r-7" ∷ []) in
    ((r : RunFacts)
      → In r s'.runs ↔ (In r three_runs.runs × (¬ (In r.run_id ("r-1" ∷ "r-7" ∷ [])))))
    × ((u : UsageSample)
        → In u s'.token_usage ↔ (
            In u three_runs.token_usage
            × (¬ (In u.run_id ("r-1" ∷ "r-7" ∷ []) × In u.run_id (run_ids three_runs.runs)))))
    × ((u : ResourceSample)
        → In u s'.resource_samples ↔ (
            In u three_runs.resource_samples
            × (¬ (In u.run_id ("r-1" ∷ "r-7" ∷ []) × In u.run_id (run_ids three_runs.runs)))))
    × (removed + length s'.runs ≡ length three_runs.runs)
remove_runs_lem_example = remove_runs_lem three_runs ("r-1" ∷ "r-7" ∷ [])
