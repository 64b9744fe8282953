-- ===== src/Usage/Store/Newest.antt =====
-- Pruning spares the runs that are active, and of the others the newest.
use open_agent_hub.Prelude.{
  String, Option, none, some, true, false, ◌≡◌, ◌⊎◌, inl, inr, arith, refl, subst, List, [], ◌∷◌,
  ◌&&◌, keep, In, In-of_keep, In-keep, Distinct, Bool-cases, In-of_append, and_true, ℕ, zero, suc,
  text_lt, codes, codes_lt_asymm, not_codes_lt_trans, includes, In-of_includes, includes_of_In,
}
use open_agent_hub.Usage.Tables.{RunFacts, UsageStore}
use open_agent_hub.Usage.Store.{
  PruneOptions, run_ids, is_settled, insert_newest, newest_first, drop, prune_candidates, old_ids,
  surplus_ids, prune,
}
use open_agent_hub.Usage.Store.Rows.{In-run_ids, In-of_run_ids, run_of_id}
use open_agent_hub.Usage.Store.Pruning.{survivors, In-survivors}

-- No later run stands behind an earlier one.
abbrev NewestFirst : List RunFacts → Type 0
NewestFirst [] = Unit
NewestFirst (x ∷ xs) =
    ((y : RunFacts) → In y xs → text_lt x.created_at y.created_at ≡ false) × NewestFirst xs

In-of_insert_newest :
    (r y : RunFacts) (xs : List RunFacts) → In y (insert_newest r xs) → (r ≡ y) ⊎ In y xs
unfolding insert_newest
In-of_insert_newest r y [] h = elim h [ inl e ↦ inl e | inr z ↦ inr z ]
In-of_insert_newest r y (x ∷ xs) h = elim (Bool-cases (text_lt r.created_at x.created_at)) [
  | inl e ↦ elim (let k : (x ≡ y) ⊎ In y (insert_newest r xs) = rw e at h in k) [
    | inl same ↦ inr (inl same)
    | inr m ↦ elim (In-of_insert_newest r y xs m) [ inl a ↦ inl a | inr b ↦ inr (inr b) ]
  ]
  | inr e ↦ let k : (r ≡ y) ⊎ (x ≡ y) ⊎ In y xs = rw e at h in k
]

In-insert_newest_self : (r : RunFacts) (xs : List RunFacts) → In r (insert_newest r xs)
unfolding insert_newest
In-insert_newest_self r [] = inl refl
In-insert_newest_self r (x ∷ xs) = elim (Bool-cases (text_lt r.created_at x.created_at)) [
  | inl e ↦ rw e (inr (In-insert_newest_self r xs))
  | inr e ↦ rw e (inl refl)
]

In-insert_newest : (r y : RunFacts) (xs : List RunFacts) → In y xs → In y (insert_newest r xs)
unfolding insert_newest
In-insert_newest r y [] h = absurd h
In-insert_newest r y (x ∷ xs) h = elim (Bool-cases (text_lt r.created_at x.created_at)) [
  | inl e ↦ rw e (elim h [ inl a ↦ inl a | inr b ↦ inr (In-insert_newest r y xs b) ])
  | inr e ↦ rw e (inr h)
]

In-of_newest_first : (y : RunFacts) (xs : List RunFacts) → In y (newest_first xs) → In y xs
unfolding newest_first
In-of_newest_first y [] h = absurd h
In-of_newest_first y (x ∷ xs) h = elim (In-of_insert_newest x y (newest_first xs) h) [
  | inl e ↦ inl e
  | inr m ↦ inr (In-of_newest_first y xs m)
]

In-newest_first : (y : RunFacts) (xs : List RunFacts) → In y xs → In y (newest_first xs)
unfolding newest_first
In-newest_first y [] h = absurd h
In-newest_first y (x ∷ xs) (inl e) =
    subst (λ z. In z (insert_newest x (newest_first xs))) e
      (In-insert_newest_self x (newest_first xs))
In-newest_first y (x ∷ xs) (inr m) = In-insert_newest x y (newest_first xs) (In-newest_first y xs m)

insert_newest-NewestFirst :
    (r : RunFacts) (xs : List RunFacts) → NewestFirst xs → NewestFirst (insert_newest r xs)
unfolding insert_newest
insert_newest-NewestFirst r [] h = ((λ y m. absurd m), tt)
insert_newest-NewestFirst r (x ∷ xs) (first, h) =
    elim (Bool-cases (text_lt r.created_at x.created_at)) [
      | inl e ↦ rw e (
        (λ y m. elim (In-of_insert_newest r y xs m) [
          | inl same ↦
              subst (λ (z : RunFacts). text_lt x.created_at z.created_at ≡ false) same
                (codes_lt_asymm (codes r.created_at) (codes x.created_at) e)
          | inr there ↦ first y there
        ]),
        insert_newest-NewestFirst r xs h,
      )
      | inr e ↦ rw e (
        (λ y m. elim m [
          | inl same ↦ subst (λ (z : RunFacts). text_lt r.created_at z.created_at ≡ false) same e
          | inr there ↦
              not_codes_lt_trans (codes r.created_at) (codes x.created_at) (codes y.created_at) e
                (first y there)
        ]),
        (first, h),
      )
    ]

newest_first-NewestFirst : (xs : List RunFacts) → NewestFirst (newest_first xs)
unfolding newest_first
newest_first-NewestFirst [] = tt
newest_first-NewestFirst (x ∷ xs) =
    insert_newest-NewestFirst x (newest_first xs) (newest_first-NewestFirst xs)

In-of_drop : (n : ℕ) (y : RunFacts) (xs : List RunFacts) → In y (drop n xs) → In y xs
In-of_drop zero y xs h = h
In-of_drop (suc n) y [] h = absurd h
In-of_drop (suc n) y (x ∷ xs) h = inr (In-of_drop n y xs h)

-- What is dropped is not newer than what is not.
not_newer_of_drop :
    (n : ℕ) (q r : RunFacts) (xs : List RunFacts)
    → NewestFirst xs
    → In r (drop n xs)
    → In q xs
    → ¬ (In q (drop n xs))
    → text_lt q.created_at r.created_at ≡ false
not_newer_of_drop zero q r xs h m there spared = absurd (spared there)
not_newer_of_drop (suc n) q r [] h m there spared = absurd m
not_newer_of_drop (suc n) q r (x ∷ xs) (first, h) m (inl e) spared =
    subst (λ (z : RunFacts). text_lt z.created_at r.created_at ≡ false) e
      (first r (In-of_drop n r xs m))
not_newer_of_drop (suc n) q r (x ∷ xs) (first, h) m (inr there) spared =
    not_newer_of_drop n q r xs h m there spared

-- the candidates by number
abbrev pub surplus_runs : UsageStore → ℕ → List RunFacts
surplus_runs s n = drop n (newest_first (keep is_settled s.runs))

surplus-settled :
    (s : UsageStore) (n : ℕ) (r : RunFacts)
    → In r (surplus_runs s n)
    → In r s.runs × (is_settled r ≡ true)
surplus-settled s n r m =
    let settled = keep is_settled s.runs in
    In-of_keep is_settled s.runs
      (In-of_newest_first r settled (In-of_drop n r (newest_first settled) m))

abbrev IsSettledRun : UsageStore → String → Type 0
IsSettledRun s id = (r : RunFacts) × In r s.runs × (is_settled r ≡ true) × (r.run_id ≡ id)

old-settled :
    (cutoff : ℕ → String) (s : UsageStore) (days : Option ℕ) (id : String)
    → In id (old_ids cutoff s days)
    → IsSettledRun s id
unfolding old_ids
old-settled cutoff s none id h = absurd h
old-settled cutoff s (some days) id h =
    let old = λ (r : RunFacts). text_lt r.created_at (cutoff days) && is_settled r in
    let (r, m, e) = In-of_run_ids id (keep old s.runs) h in
    let (there, passed) = In-of_keep old s.runs m in
    (r, there, (and_true (text_lt r.created_at (cutoff days)) (is_settled r) passed).1, e)

surplus_ids-settled :
    (s : UsageStore) (n : Option ℕ) (id : String) → In id (surplus_ids s n) → IsSettledRun s id
unfolding surplus_ids
surplus_ids-settled s none id h = absurd h
surplus_ids-settled s (some n) id h =
    let (r, m, e) = In-of_run_ids id (surplus_runs s n) h in
    let (there, settled) = surplus-settled s n r m in (r, there, settled, e)

candidate-settled :
    (cutoff : ℕ → String) (s : UsageStore) (opts : PruneOptions) (id : String)
    → In id (prune_candidates cutoff s opts)
    → IsSettledRun s id
unfolding prune_candidates
candidate-settled cutoff s opts id h =
    elim (In-of_append id (old_ids cutoff s opts.older_than_days) (surplus_ids s opts.keep_runs)
      h) [
        | inl o ↦ old-settled cutoff s opts.older_than_days id o
        | inr p ↦ surplus_ids-settled s opts.keep_runs id p
      ]

-- A run that is starting, running or stopping is never pruned.
pub prune-active :
    (cutoff : ℕ → String) (s : UsageStore) (opts : PruneOptions) (r : RunFacts)
    → Distinct (run_ids s.runs)
    → In r s.runs
    → is_settled r ≡ false
    → In r (prune cutoff s opts).0.runs
unfolding prune
prune-active cutoff s opts r d m active = (In-survivors s (prune_candidates cutoff s opts) r).1 (
  m,
  (λ listed.
      let (q, n, settled, e) = candidate-settled cutoff s opts r.run_id listed in
      let same = run_of_id q r s.runs d n m e in
      let t = subst (λ (z : RunFacts). is_settled z ≡ true) same settled in ground arith),
)

surplus_of_removed :
    (s : UsageStore) (n : ℕ) (gone : RunFacts)
    → Distinct (run_ids s.runs)
    → In gone s.runs
    → ¬ (In gone (survivors s (run_ids (surplus_runs s n))))
    → In gone (surplus_runs s n)
surplus_of_removed s n gone d was missing =
    let ids = run_ids (surplus_runs s n) in
    elim (Bool-cases (includes gone.run_id ids)) [
      | inl e ↦
          let (r, m, same) =
            In-of_run_ids gone.run_id (surplus_runs s n) (In-of_includes gone.run_id ids e) in
          let there = (surplus-settled s n r m).0 in
          subst (λ z. In z (surplus_runs s n)) (run_of_id r gone s.runs d there was same) m
      | inr e ↦ absurd (
          missing (
            (In-survivors s ids gone).1
              (was, (λ listed. let t = includes_of_In gone.run_id ids listed in ground arith))))
    ]

-- Pruning down to a number of runs removes no settled run that is newer than one that it leaves.
pub prune-newest :
    (cutoff : ℕ → String) (s : UsageStore) (n : ℕ) (gone left : RunFacts)
    → Distinct (run_ids s.runs)
    → let s' = (prune cutoff s (record { older_than_days = none; keep_runs = some n })).0 in
      In gone s.runs
      → ¬ (In gone s'.runs)
      → In left s'.runs
      → is_settled left ≡ true
      → text_lt left.created_at gone.created_at ≡ false
unfolding prune prune_candidates
prune-newest cutoff s n gone left d was missing stays settled =
    let surplus = surplus_runs s n in
    let ids = run_ids surplus in
    let (there, spared) = (In-survivors s ids left).0 stays in
    not_newer_of_drop n left gone (newest_first (keep is_settled s.runs))
      (newest_first-NewestFirst (keep is_settled s.runs))
      (surplus_of_removed s n gone d was missing)
      (In-newest_first left (keep is_settled s.runs) (In-keep is_settled s.runs there settled))
      (λ m. spared (In-run_ids left surplus m))
