-- ===== src/Usage/Collect/Codex/Deltas.antt =====
-- Running totals are counted once: what is observed of them adds up to their growth.
use open_agent_hub.Prelude.{
  String, Option, none, some, ◌≡◌, ◌∙◌, refl, sym, subst, arith, inl, inr, ◌&&◌, if◌then◌else◌,
  List, [], ◌∷◌, ◌++◌, Bool-cases, str_eq, eq_iff, eq_refl, is_text, ℤ, pos, ◌+ℤ◌, ◌-ℤ◌, int_laws,
}
use open_agent_hub.Usage.Tables.{ExternalUsageRow, UsageStore, CodexTotal}
use open_agent_hub.Usage.Store.{find_total, put_total, get_codex_total, set_codex_total}
use open_agent_hub.Usage.Collect.Codex.{
  Reading, CumulativeTotal, last_input, last_output, has_not_grown, total_row,
  totals_to_observation,
}

find_total-put_total :
    (source model source' model' : String) (new : CodexTotal)
    (totals : List ((String × String) × CodexTotal))
    → find_total source' model' (put_total source model new totals) ≡ (
        if str_eq source source' && str_eq model model'
        then some new
        else find_total source' model' totals)
unfolding find_total put_total
find_total-put_total source model source' model' new [] = refl
find_total-put_total source model source' model' new (((k, m), t) ∷ rest) = ground (
  arith,
  find_total-put_total source model source' model' new rest,
  eq_iff k source,
  eq_iff m model,
  eq_iff k source',
  eq_iff m model',
  eq_iff source source',
  eq_iff model model',
)

abbrev rows_of : Option ExternalUsageRow → List ExternalUsageRow
rows_of none = []
rows_of (some row) = row ∷ []

-- The rows that the totals of a list add, each to the store that the ones before it leave.
unfoldable pub observe_all :
    Reading → String → UsageStore → List CumulativeTotal → UsageStore × List ExternalUsageRow
observe_all r source s [] = (s, [])
observe_all r source s (t ∷ ts) =
    let (s', obs) = totals_to_observation r s t source in
    let (after, rows) = observe_all r source s' ts in (after, rows_of obs ++ rows)

-- the sum of a column over the rows of a model
unfoldable pub sum_of : (ExternalUsageRow → ℤ) → String → List ExternalUsageRow → ℤ
sum_of column model [] = pos 0
sum_of column model (row ∷ rows) =
    let rest = sum_of column model rows in
    if is_text row.model model then column row +ℤ rest else rest

zero_add : (a : ℤ) → pos 0 +ℤ a ≡ a
zero_add a = omega int_laws

add_zero : (a : ℤ) → a +ℤ pos 0 ≡ a
add_zero a = omega int_laws

add_assoc : (a b c : ℤ) → a +ℤ b +ℤ c ≡ a +ℤ (b +ℤ c)
add_assoc a b c = omega int_laws

regain : (old new : ℤ) → new ≡ old +ℤ (new -ℤ old +ℤ pos 0)
regain old new = omega int_laws

sum_of-append :
    (column : ExternalUsageRow → ℤ) (model : String) (xs ys : List ExternalUsageRow)
    → sum_of column model (xs ++ ys) ≡ sum_of column model xs +ℤ sum_of column model ys
unfolding sum_of
sum_of-append column model [] ys = sym (zero_add (sum_of column model ys))
sum_of-append column model (x ∷ xs) ys =
    let ih = sum_of-append column model xs ys in
    elim (Bool-cases (is_text x.model model)) [
      | inl e ↦
          rw (e, ih) (sym (add_assoc (column x) (sum_of column model xs) (sum_of column model ys)))
      | inr e ↦ rw e ih
    ]

joined :
    (column : ExternalUsageRow → ℤ) (model : String) (before between : ℤ)
    (rows later : List ExternalUsageRow)
    → between ≡ before +ℤ sum_of column model rows
    → between +ℤ sum_of column model later ≡ before +ℤ sum_of column model (rows ++ later)
joined column model before between rows later e =
    rw (e, sum_of-append column model rows later)
      (add_assoc before (sum_of column model rows) (sum_of column model later))

module _ (r : Reading) (source model : String) where
  -- the last totals of the model, and the sums of the rows
  abbrev last_of : UsageStore → ℤ × ℤ
  last_of s = let last = get_codex_total s source model in (last_input last, last_output last)

  abbrev sums : List ExternalUsageRow → ℤ × ℤ
  sums rows = (sum_of (λ row. row.tokens_in) model rows, sum_of (λ row. row.tokens_out) model rows)

  abbrev pub IsGrowth : UsageStore → UsageStore → List ExternalUsageRow → Type 0
  IsGrowth before after rows =
      ((last_of after).0 ≡ (last_of before).0 +ℤ (sums rows).0)
      × ((last_of after).1 ≡ (last_of before).1 +ℤ (sums rows).1)

  step-IsGrowth :
      (s : UsageStore) (t : CumulativeTotal)
      → IsGrowth s
          (totals_to_observation r s t source).0
          (rows_of (totals_to_observation r s t source).1)
  unfolding totals_to_observation get_codex_total set_codex_total sum_of total_row is_text
  step-IsGrowth s t =
      let last = get_codex_total s source t.model in
      elim (Bool-cases
        (has_not_grown (t.tokens_in -ℤ last_input last) (t.tokens_out -ℤ last_output last))) [
          | inl still ↦ rw still (sym (add_zero (last_of s).0), sym (add_zero (last_of s).1))
          | inr grown ↦ elim (Bool-cases (str_eq t.model model)) [
            | inr other ↦
                rw
                  (
                    grown,
                    other,
                    find_total-put_total source t.model source model
                        (record { last_input = t.tokens_in; last_output = t.tokens_out })
                        s.codex_totals,
                    eq_refl source,
                  )
                  (rw other (sym (add_zero (last_of s).0), sym (add_zero (last_of s).1)))
            | inl here ↦
                let q : t.model ≡ model = (eq_iff t.model model).0 here in
                let new : CodexTotal = record {
                  last_input = t.tokens_in;
                  last_output = t.tokens_out;
                } in
                let old = find_total source t.model s.codex_totals in
                rw
                  (
                    grown,
                    find_total-put_total source t.model source model new s.codex_totals,
                    eq_refl source,
                    here,
                  )
                  (
                    subst
                        (λ k.
                          t.tokens_in
                          ≡ last_input (find_total source k s.codex_totals)
                            +ℤ (t.tokens_in -ℤ last_input old +ℤ pos 0))
                        q (regain (last_input old) t.tokens_in),
                    subst
                        (λ k.
                          t.tokens_out
                          ≡ last_output (find_total source k s.codex_totals)
                            +ℤ (t.tokens_out -ℤ last_output old +ℤ pos 0))
                        q (regain (last_output old) t.tokens_out),
                  )
          ]
        ]

  -- Whatever running totals a session reports, one after the other, the counts of the rows that are
  -- observed for a model add up to the growth of the totals that are kept for it, input and output
  -- alike, also where a total falls.
  pub observe_all-IsGrowth :
      (ts : List CumulativeTotal) (s : UsageStore)
      → IsGrowth s (observe_all r source s ts).0 (observe_all r source s ts).1
  unfolding observe_all sum_of
  observe_all-IsGrowth [] s = (sym (add_zero (last_of s).0), sym (add_zero (last_of s).1))
  observe_all-IsGrowth (t ∷ ts) s =
      let (s', obs) = totals_to_observation r s t source in
      let (in1, out1) = step-IsGrowth s t in
      let (in2, out2) = observe_all-IsGrowth ts (totals_to_observation r s t source).0 in
      (
        in2 ∙ joined (λ row. row.tokens_in) model _ _ _ _ in1,
        out2 ∙ joined (λ row. row.tokens_out) model _ _ _ _ out1,
      )
