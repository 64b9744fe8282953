-- ===== src/Usage/Collect/Codex/Parsing.antt =====
-- `parseSessionFile` and `collectCodex` of runtime/src/usage/codex.ts. The files that the walk through
-- the directory found are a list; the errors of the database are left out.
use open_agent_hub.Prelude.{
  trim, ℕ, suc, ◌+◌, String, Option, none, some, Bool, true, false, if◌then◌else◌, List, [], ◌∷◌,
  ◌++◌, str_eq, is_some, length, concat,
}
use open_agent_hub.Usage.Tables.{ExternalUsageRow, UsageStore}
use open_agent_hub.Usage.Store.{has_external, get_source_cursor, set_source_cursor, get_setting}
use open_agent_hub.Json.{Json}
use open_agent_hub.Usage.Collect.Sessions.{
  FileStat, SessionFile, complete_end, lines_between, is_unchanged, start_offset,
}
use open_agent_hub.Usage.Collect.Codex.{
  Reading, UsageRecord, CumulativeTotal, LimitObservation, find_usage_record, find_rate_limit,
  find_cumulative_total, totals_to_observation, record_to_observation,
}

-- The variables of the loop over the lines, with the store.
pub record Session : Type 0 where
  pub store : UsageStore
  pub usage : List ExternalUsageRow
  pub limits : List LimitObservation
  pub skipped_lines : ℕ

abbrev pub skip_line : Session → Session
skip_line s = record s { skipped_lines = suc s.skipped_lines }

-- an observation counts if its event is not known yet
unfoldable pub keep_observation : Session → Option ExternalUsageRow → Session
keep_observation s none = skip_line s
keep_observation s (some obs) =
    if has_external s.store obs.provider obs.source obs.event_key
    then skip_line s
    else record s { usage = s.usage ++ obs ∷ [] }

unfoldable pub take_total : Reading → String → Session → CumulativeTotal → Session
take_total r source s totals =
    let (store, obs) = totals_to_observation r s.store totals source in
    keep_observation (record s { store = store }) obs

unfoldable pub take_record : Reading → String → ℕ → Session → UsageRecord → Session
take_record r source line_no s rec = keep_observation s (record_to_observation r rec source line_no)

unfoldable pub take_limit : Session → Option LimitObservation → Session
take_limit s none = s
take_limit s (some rl) = record s { limits = s.limits ++ rl ∷ [] }

abbrev pub take_usage :
    Reading → String → ℕ → Session → Bool → Option CumulativeTotal → Option UsageRecord → Session
take_usage r source line_no s limited (some totals) rec = take_total r source s totals
take_usage r source line_no s limited none (some rec) = take_record r source line_no s rec
take_usage r source line_no s true none none = s
take_usage r source line_no s false none none = skip_line s

unfoldable pub take_item : Reading → String → ℕ → Session → Option Json → Session
take_item r source line_no s none = skip_line s
take_item r source line_no s (some value) =
    let rl = find_rate_limit r value in
    take_usage r source line_no (take_limit s rl) (is_some rl) (find_cumulative_total r value)
      (find_usage_record r value)

unfoldable pub take_line : Reading → String → ℕ → Session → String → Session
take_line r source line_no s line =
    let trimmed = trim line in
    let taken = take_item r source line_no s (r.parse trimmed) in
    if str_eq trimmed "" then s else taken

-- the loop, with the number of the last line and whether it was cut short
unfoldable pub take_lines : Reading → String → ℕ → Session → List String → Session × Bool
take_lines r source line_no s [] = (s, false)
take_lines r source line_no s (line ∷ rest) =
    let after = take_lines r source (suc line_no) (take_line r source (suc line_no) s line) rest in
    if r.is_late source (suc line_no) then (s, true) else after

pub record ParsedSession : Type 0 where
  pub store : UsageStore
  pub usage : List ExternalUsageRow
  pub limits : List LimitObservation
  pub ingested : ℕ
  pub skipped_lines : ℕ
  pub cut_short : Bool

abbrev pub nothing_parsed : UsageStore → ParsedSession
nothing_parsed s = record {
  store = s;
  usage = [];
  limits = [];
  ingested = 0;
  skipped_lines = 0;
  cut_short = false;
}

abbrev pub fresh_session : UsageStore → Session
fresh_session s = record { store = s; usage = []; limits = []; skipped_lines = 0 }

-- a file that is there, has changed and can be read
unfoldable pub parse_raw : Reading → UsageStore → String → FileStat → String → ParsedSession
parse_raw r s path st raw =
    let start = start_offset (get_source_cursor s path) st raw in
    let (session, cut) =
      take_lines r path 0 (fresh_session s) (lines_between start (complete_end raw) raw) in
    record {
      store = set_source_cursor r.now session.store path st.size st.mtime_ms (complete_end raw);
      usage = session.usage;
      limits = session.limits;
      ingested = length session.usage;
      skipped_lines = session.skipped_lines;
      cut_short = cut;
    }

abbrev parse_changed : Reading → UsageStore → String → FileStat → Option String → ParsedSession
parse_changed r s path st none = nothing_parsed s
parse_changed r s path st (some raw) = parse_raw r s path st raw

abbrev parse_stat : Reading → UsageStore → String → Option FileStat → Option String → ParsedSession
parse_stat r s path none raw = nothing_parsed s
parse_stat r s path (some st) raw =
    let parsed = parse_changed r s path st raw in
    if is_unchanged (get_source_cursor s path) st then nothing_parsed s else parsed

unfoldable pub parse_session_file : Reading → UsageStore → SessionFile → ParsedSession
parse_session_file r s file = parse_stat r s file.path file.stat file.raw

pub data ProviderStatus : Type 0 where
  ok unsupported locked error timeboxed disabled missing : ProviderStatus

-- The variables of `collectCodex`, which its result holds.
pub record Collected : Type 0 where
  pub store : UsageStore
  pub usage : List ExternalUsageRow
  pub limits : List LimitObservation
  pub status : ProviderStatus
  pub sources_scanned : ℕ
  pub events_ingested : ℕ
  pub events_skipped : ℕ

-- `if (parsed.cutShort && status === "ok") status = "timeboxed"`
unfoldable pub cut_status : ProviderStatus → Bool → ProviderStatus
cut_status ok true = timeboxed
cut_status status _ = status

unfoldable pub add_parsed : Collected → ParsedSession → Collected
add_parsed c p = record {
  store = p.store;
  usage = c.usage ++ p.usage;
  limits = c.limits ++ p.limits;
  status = cut_status c.status p.cut_short;
  sources_scanned = suc c.sources_scanned;
  events_ingested = c.events_ingested + p.ingested;
  events_skipped = c.events_skipped + p.skipped_lines;
}

-- the loop over the files; the deadline before a file is its line 0
unfoldable pub collect_files : Reading → Collected → List SessionFile → Collected
collect_files r c [] = c
collect_files r c (file ∷ rest) =
    let after = collect_files r (add_parsed c (parse_session_file r c.store file)) rest in
    if r.is_late file.path 0 then record c { status = timeboxed } else after

-- `providerEnabled`
unfoldable pub provider_enabled : UsageStore → String → Bool
provider_enabled s provider =
    elim (get_setting s (concat ("integration." ∷ provider ∷ ".enabled" ∷ []))) [
      | none ↦ true
      | some v ↦ str_eq v "1"
    ]

abbrev detected_status : Bool → ProviderStatus
detected_status true = ok
detected_status false = missing

unfoldable pub collect_codex : Reading → UsageStore → Bool → List SessionFile → Collected
collect_codex r s detected files =
    let start : Collected = record {
      store = s;
      usage = [];
      limits = [];
      status = detected_status detected;
      sources_scanned = 0;
      events_ingested = 0;
      events_skipped = 0;
    } in
    if provider_enabled s "codex"
    then collect_files r start files
    else record start { status = disabled }
