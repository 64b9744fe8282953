-- ===== src/Usage/Store/Runs.antt =====
-- The table of runs has one row for each run, and the row is what was last reported.
use open_agent_hub.Prelude.{
  String, none, some, ◌≡◌, inl, inr, arith, refl, ap, List, [], ◌∷◌, ◌++◌, if◌then◌else◌, str_eq,
  eq_iff, In, Distinct, Distinct-append_one, Bool-cases, ◌&&◌, is_some, Option-cases,
}
use open_agent_hub.Usage.Tables.{RunFacts, UsageStore}
use open_agent_hub.Usage.Store.{update_run, find_run, sync_run, run_ids}

find_run-update_run :
    (run : RunFacts) (rs : List RunFacts) (id : String)
    → find_run id (update_run run rs) ≡ (
        if str_eq run.run_id id && is_some (find_run run.run_id rs)
        then some run
        else find_run id rs)
unfolding find_run update_run
find_run-update_run run [] id = ground arith
find_run-update_run run (r ∷ rs) id = ground (
  arith,
  find_run-update_run run rs id,
  eq_iff r.run_id run.run_id,
  eq_iff run.run_id id,
  eq_iff r.run_id id,
)

find_run-append :
    (run : RunFacts) (rs : List RunFacts) (id : String)
    → find_run run.run_id rs ≡ none
    → find_run id (rs ++ run ∷ []) ≡ (if str_eq run.run_id id then some run else find_run id rs)
unfolding find_run
find_run-append run [] id h = refl
find_run-append run (r ∷ rs) id h = ground (
  arith,
  find_run-append run rs id,
  eq_iff r.run_id run.run_id,
  eq_iff run.run_id id,
  eq_iff r.run_id id,
)

run_ids-update_run :
    (run : RunFacts) (rs : List RunFacts) → run_ids (update_run run rs) ≡ run_ids rs
unfolding update_run
run_ids-update_run run [] = refl
run_ids-update_run run (r ∷ rs) = elim (Bool-cases (str_eq r.run_id run.run_id)) [
  | inl e ↦ rw e (cc ((eq_iff r.run_id run.run_id).0 e, run_ids-update_run run rs))
  | inr e ↦ rw e (ap (λ i. r.run_id ∷ i) (run_ids-update_run run rs))
]

run_ids-append :
    (run : RunFacts) (rs : List RunFacts) → run_ids (rs ++ run ∷ []) ≡ run_ids rs ++ run.run_id ∷ []
run_ids-append run [] = refl
run_ids-append run (r ∷ rs) = ap (λ i. r.run_id ∷ i) (run_ids-append run rs)

absent_of_find_run :
    (id : String) (rs : List RunFacts) → find_run id rs ≡ none → ¬ (In id (run_ids rs))
unfolding find_run
absent_of_find_run id [] h m = m
absent_of_find_run id (r ∷ rs) h m = ground (arith, eq_iff r.run_id id, absent_of_find_run id rs)

-- Reporting a run makes its row the one that is found for it, and leaves every other row as it was;
-- the table holds no second row for any run.
pub sync_run_lem :
    (s : UsageStore) (run : RunFacts)
    → Distinct (run_ids s.runs)
    → ((id : String)
        → find_run id (sync_run s run).runs
          ≡ (if str_eq run.run_id id then some run else find_run id s.runs))
      × Distinct (run_ids (sync_run s run).runs)
unfolding sync_run
sync_run_lem s run d = elim (Option-cases (find_run run.run_id s.runs)) [
  | inl absent ↦
      rw (absent, sync_run)
        (
          (λ id. find_run-append run s.runs id absent),
          rw (run_ids-append run s.runs) (
              Distinct-append_one (run_ids s.runs) run.run_id d
                (absent_of_find_run run.run_id s.runs absent)),
        )
  | inr (old, found) ↦
      rw (found, sync_run)
        (
          (λ id. ground (arith, found, find_run-update_run run s.runs id)),
          rw (run_ids-update_run run s.runs) d,
        )
]
