-- ===== src/Examples/Collectors.antt =====
-- The collectors of usage at concrete inputs.
use open_agent_hub.Prelude.{
  ℕ, ℤ, pos, ◌+ℤ◌, String, Option, none, some, Bool, true, false, ◌≡◌, ◌≢◌, refl, List, [], ◌∷◌, In,
  eqb, ◌&&◌, str_eq,
}
use open_agent_hub.Usage.Tables.{codex, UsageStore, ExternalUsageRow, LimitRow, empty_store}
use open_agent_hub.Usage.Collect.Sessions.{FileStat, SessionFile, is_unchanged}
use open_agent_hub.Usage.Collect.Codex.{Reading, CumulativeTotal}
use open_agent_hub.Usage.Collect.Codex.Parsing.{nothing_parsed, parse_session_file}
use open_agent_hub.Usage.Collect.Codex.Deltas.{observe_all, IsGrowth, observe_all-IsGrowth}
use open_agent_hub.Usage.Collect.Codex.Cursors.{parse_session_file_cut}
use open_agent_hub.Usage.Collection.{
  Adapters, disabled_output, collect_providers_sync, revoke_provider,
}
use open_agent_hub.Usage.Collection.Revoked.{revoke_provider_lem}
use open_agent_hub.Examples.Data.{three_runs, observation}

-- no line is JSON; `late` tells whether the deadline has passed
abbrev reading : Bool → Reading
reading late = record {
  parse = λ line. none;
  read_number = λ s. none;
  decimal = λ n. "";
  now = "2026-02-01";
  seconds_from_now = λ n. "2026-02-02";
  is_late = λ path line. late;
}

abbrev total : ℕ → ℕ → CumulativeTotal
total input output = record { model = "gpt-5"; tokens_in = pos input; tokens_out = pos output }

observe_all-IsGrowth_example :
    IsGrowth
      (reading false)
      "session.jsonl"
      "gpt-5"
      empty_store
      (observe_all (reading false) "session.jsonl" empty_store (total 10 4 ∷ total 8 9 ∷ [])).0
      (observe_all (reading false) "session.jsonl" empty_store (total 10 4 ∷ total 8 9 ∷ [])).1
observe_all-IsGrowth_example =
    observe_all-IsGrowth (reading false) "session.jsonl" "gpt-5" (total 10 4 ∷ total 8 9 ∷ [])
      empty_store

abbrev session_stat : FileStat
session_stat = record { size = 14; mtime_ms = 1 }

abbrev session : SessionFile
session = record { path = "session.jsonl"; stat = some session_stat; raw = some "not JSON\nnor\n" }

parse_session_file_cut_example :
    ((parse_session_file (reading true) empty_store session).usage ≡ [])
    × ((parse_session_file (reading true) empty_store session).cut_short ≡ true)
    × (parse_session_file
          (reading false)
          (parse_session_file (reading true) empty_store session).store
          session
        ≡ nothing_parsed (parse_session_file (reading true) empty_store session).store)
unfolding is_unchanged open_agent_hub.Usage.Store.get_source_cursor open_agent_hub.Prelude.lookup
parse_session_file_cut_example =
    parse_session_file_cut (reading true) empty_store "session.jsonl" session_stat "not JSON\nnor\n"
      (reading false) refl refl

abbrev observed : UsageStore
observed = record three_runs {
  external_usage = observation ∷ [];
  settings = ("integration.codex.credentials", "1") ∷ [];
}

-- an adapter that always finds the same observation
abbrev adapters : Adapters
adapters = record {
  collect = λ provider s. (s, record (disabled_output provider true) { usage = observation ∷ [] });
  detected = λ provider. true;
}

revoke_provider_lem_example :
    let revoked : UsageStore = (revoke_provider observed codex).0 in
    ((row : ExternalUsageRow)
      → (In row revoked.external_usage → In row observed.external_usage × (row.provider ≢ codex))
        × (In row observed.external_usage → row.provider ≢ codex → In row revoked.external_usage))
    × ((row : LimitRow)
        → (In row revoked.limits → In row observed.limits × (row.provider ≢ codex))
          × (In row observed.limits → row.provider ≢ codex → In row revoked.limits))
    × ((collect_providers_sync adapters "2026-02-01" revoked (some (codex ∷ []))).0 ≡ revoked)
    × ((collect_providers_sync adapters "2026-02-01" revoked (some (codex ∷ []))).1.usage ≡ [])
revoke_provider_lem_example = revoke_provider_lem observed codex adapters "2026-02-01"
