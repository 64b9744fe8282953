-- ===== src/Usage/Store.antt =====
-- runtime/src/usage.ts: the statements that `UsageStore` runs on its tables. The hook that is called
-- after a change is left out.
use open_agent_hub.Prelude.{
  String, Option, none, some, Bool, true, false, ◌&&◌, ◌||◌, not, if◌then◌else◌, List, [], ◌∷◌,
  ◌++◌, ℕ, ltb, keep, any, find, map, includes, length, str_eq, text_lt, Object, lookup, insert,
  get_or_default, is_some, ℤ, pos,
}
use open_agent_hub.Usage.Tables.{
  Real, UsageProvider, claude, codex, opencode, ExternalUsageRow, LimitSource, LimitRow,
  SourceCursor, RunFacts, UsageSample, ResourceSample, CodexTotal, UsageStore, empty_store,
}
pub mod Rows
pub mod Runs
pub mod External
pub mod Pruning
pub mod Newest

-- `UPDATE runs SET … WHERE run_id = ?`
unfoldable pub update_run : RunFacts → List RunFacts → List RunFacts
update_run run [] = []
update_run run (r ∷ rs) =
    let rest = update_run run rs in if str_eq r.run_id run.run_id then run ∷ rest else r ∷ rest

-- `SELECT state FROM runs WHERE run_id = ?`
unfoldable pub find_run : String → List RunFacts → Option RunFacts
find_run id [] = none
find_run id (r ∷ rs) = if str_eq r.run_id id then some r else find_run id rs

unfoldable pub sync_run : UsageStore → RunFacts → UsageStore
sync_run s run =
    if is_some (find_run run.run_id s.runs)
    then record s { runs = update_run run s.runs }
    else record s { runs = s.runs ++ run ∷ [] }

-- `now` is the time of the call.
unfoldable pub record_usage : String → UsageStore → UsageSample → UsageStore
record_usage now s sample =
    let row = record sample {
      tokens_reasoning = some (get_or_default sample.tokens_reasoning 0);
      tokens_cache = some (get_or_default sample.tokens_cache 0);
      recorded_at = some (get_or_default sample.recorded_at now);
    } in
    record s { token_usage = s.token_usage ++ row ∷ [] }

unfoldable pub record_resource_sample : String → UsageStore → ResourceSample → UsageStore
record_resource_sample now s sample =
    let row = record sample { sampled_at = some (get_or_default sample.sampled_at now) } in
    record s { resource_samples = s.resource_samples ++ row ∷ [] }

unfoldable pub set_setting : UsageStore → String → String → UsageStore
set_setting s key value = record s { settings = insert key value s.settings }

unfoldable pub get_setting : UsageStore → String → Option String
get_setting s key = lookup key s.settings

unfoldable pub eq_provider : UsageProvider → UsageProvider → Bool
eq_provider claude claude = true
eq_provider codex codex = true
eq_provider opencode opencode = true
eq_provider _ _ = false

-- `provider = ? AND source = ? AND event_key = ?`
unfoldable pub same_event : UsageProvider → String → String → ExternalUsageRow → Bool
same_event provider source key row =
    eq_provider row.provider provider && (str_eq row.source source && str_eq row.event_key key)

unfoldable pub has_external : UsageStore → UsageProvider → String → String → Bool
has_external s provider source key = any (same_event provider source key) s.external_usage

-- `INSERT OR IGNORE`, under the constraint UNIQUE (provider, source, event_key)
unfoldable pub record_external : UsageStore → ExternalUsageRow → UsageStore × Bool
record_external s obs =
    let row = record obs {
      cache_read = some (get_or_default obs.cache_read (pos 0));
      cache_write = some (get_or_default obs.cache_write (pos 0));
    } in
    if has_external s obs.provider obs.source obs.event_key
    then (s, false)
    else (record s { external_usage = s.external_usage ++ row ∷ [] }, true)

same_limit : UsageProvider → String → LimitRow → Bool
same_limit provider window row = eq_provider row.provider provider && str_eq row.window window

-- `INSERT … ON CONFLICT(provider, window) DO UPDATE`
upsert_limit_in : LimitRow → List LimitRow → List LimitRow
upsert_limit_in obs [] = obs ∷ []
upsert_limit_in obs (r ∷ rs) =
    if same_limit obs.provider obs.window r then obs ∷ rs else r ∷ upsert_limit_in obs rs

unfoldable pub upsert_limit : UsageStore → LimitRow → UsageStore
unfolding upsert_limit_in same_limit
upsert_limit s obs = record s { limits = upsert_limit_in obs s.limits }

-- the two DELETE statements, and how many rows each removed
unfoldable pub clear_provider_usage : UsageStore → UsageProvider → UsageStore × (ℕ × ℕ)
clear_provider_usage s provider =
    let usage = keep (λ (r : ExternalUsageRow). eq_provider r.provider provider) s.external_usage in
    let limits = keep (λ (r : LimitRow). eq_provider r.provider provider) s.limits in
    (
      record s {
        external_usage =
            keep (λ (r : ExternalUsageRow). not (eq_provider r.provider provider)) s.external_usage;
        limits = keep (λ (r : LimitRow). not (eq_provider r.provider provider)) s.limits;
      },
      (length usage, length limits),
    )

unfoldable pub get_source_cursor : UsageStore → String → Option SourceCursor
get_source_cursor s source = lookup source s.source_cursors

unfoldable pub set_source_cursor : String → UsageStore → String → ℕ → ℕ → ℕ → UsageStore
set_source_cursor now s source size mtime_ms offset =
    let cursor : SourceCursor = record {
      size = size;
      mtime_ms = mtime_ms;
      offset = offset;
      seen_at = now;
    } in
    record s { source_cursors = insert source cursor s.source_cursors }

-- `codex_totals`, by source and model
unfoldable pub find_total :
    String → String → List ((String × String) × CodexTotal) → Option CodexTotal
find_total source model [] = none
find_total source model (((k, m), t) ∷ rest) =
    if str_eq k source && str_eq m model then some t else find_total source model rest

unfoldable pub put_total :
    String
    → String
    → CodexTotal
    → List ((String × String) × CodexTotal)
    → List ((String × String) × CodexTotal)
put_total source model new [] = ((source, model), new) ∷ []
put_total source model new (((k, m), t) ∷ rest) =
    if str_eq k source && str_eq m model
    then ((k, m), new) ∷ rest
    else ((k, m), t) ∷ put_total source model new rest

unfoldable pub get_codex_total : UsageStore → String → String → Option CodexTotal
get_codex_total s source model = find_total source model s.codex_totals

unfoldable pub set_codex_total : UsageStore → String → String → ℤ → ℤ → UsageStore
set_codex_total s source model last_input last_output =
    let total : CodexTotal = record { last_input = last_input; last_output = last_output } in
    record s { codex_totals = put_total source model total s.codex_totals }

-- `state NOT IN ('starting','running','stopping')`
unfoldable pub is_settled : RunFacts → Bool
is_settled r = not (includes r.state ("starting" ∷ "running" ∷ "stopping" ∷ []))

-- `ORDER BY created_at DESC`; rows of one time keep the order of their insertion
unfoldable pub insert_newest : RunFacts → List RunFacts → List RunFacts
insert_newest r [] = r ∷ []
insert_newest r (x ∷ xs) =
    if text_lt r.created_at x.created_at then x ∷ insert_newest r xs else r ∷ x ∷ xs

unfoldable pub newest_first : List RunFacts → List RunFacts
unfolding insert_newest
newest_first [] = []
newest_first (r ∷ rs) = insert_newest r (newest_first rs)

abbrev pub run_ids : List RunFacts → List String
run_ids [] = []
run_ids (r ∷ rs) = r.run_id ∷ run_ids rs

-- `LIMIT -1 OFFSET n`
abbrev pub drop {ℓ} : {A : Type ℓ} → ℕ → List A → List A
drop ℕ.zero xs = xs
drop (ℕ.suc n) [] = []
drop (ℕ.suc n) (x ∷ xs) = drop n xs

pub record PruneOptions : Type 0 where
  pub older_than_days : Option ℕ
  pub keep_runs : Option ℕ

-- the settled runs that were created before the cutoff
unfoldable pub old_ids : (ℕ → String) → UsageStore → Option ℕ → List String
old_ids cutoff s none = []
old_ids cutoff s (some days) =
    run_ids (keep (λ (r : RunFacts). text_lt r.created_at (cutoff days) && is_settled r) s.runs)

-- the settled runs behind the newest ones
unfoldable pub surplus_ids : UsageStore → Option ℕ → List String
surplus_ids s none = []
surplus_ids s (some n) = run_ids (drop n (newest_first (keep is_settled s.runs)))

-- The identifiers are a set in the source; a list of the same members serves, since they are only
-- compared. `cutoff` is the time of so many days ago.
unfoldable pub prune_candidates : (ℕ → String) → UsageStore → PruneOptions → List String
unfolding old_ids surplus_ids
prune_candidates cutoff s opts =
    old_ids cutoff s opts.older_than_days ++ surplus_ids s opts.keep_runs

-- `removeRuns` with the condition that the identifier is one of `ids`
unfoldable pub remove_runs : UsageStore → List String → UsageStore × ℕ
remove_runs s ids =
    let doomed = keep (λ (r : RunFacts). includes r.run_id ids) s.runs in
    let gone = run_ids doomed in
    (
      record s {
        runs = keep (λ (r : RunFacts). not (includes r.run_id gone)) s.runs;
        token_usage = keep (λ (u : UsageSample). not (includes u.run_id gone)) s.token_usage;
        resource_samples =
            keep (λ (u : ResourceSample). not (includes u.run_id gone)) s.resource_samples;
      },
      length doomed,
    )

-- the number of runs removed, and the number of usage rows that the result reports
unfoldable pub prune : (ℕ → String) → UsageStore → PruneOptions → UsageStore × (ℕ × ℕ)
unfolding remove_runs prune_candidates
prune cutoff s opts =
    let (s', removed) = remove_runs s (prune_candidates cutoff s opts) in (s', (removed, removed))

unfoldable pub prune_by_id : UsageStore → String → UsageStore × ℕ
unfolding remove_runs
prune_by_id s id = remove_runs s (id ∷ [])

-- `number > 0 ? number : undefined`; a text that is no number gives NaN, which passes no test
abbrev positive : Option ℕ → Option ℕ
positive none = none
positive (some n) = if ltb 0 n then some n else none

-- `raw ? Number(raw) : NaN`, by a reading of texts as whole numbers
abbrev setting_number : (String → Option ℕ) → Option String → Option ℕ
setting_number number none = none
setting_number number (some raw) = if str_eq raw "" then none else number raw

unfoldable pub prune_by_settings : (ℕ → String) → (String → Option ℕ) → UsageStore → UsageStore × ℕ
unfolding prune
prune_by_settings cutoff number s =
    let days = positive (setting_number number (get_setting s "retention.days")) in
    let keep_runs = positive (setting_number number (get_setting s "retention.max_runs")) in
    let (s', removed) = prune cutoff s (record { older_than_days = days; keep_runs = keep_runs }) in
    if not (is_some days) && not (is_some keep_runs) then (s, 0) else (s', removed.0)

unfoldable pub delete_all : UsageStore → UsageStore
delete_all s = empty_store
