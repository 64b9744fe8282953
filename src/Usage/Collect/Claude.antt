-- ===== src/Usage/Collect/Claude.antt =====
-- The adapter of runtime/src/usage/claude.ts, with the prices of runtime/src/usage/pricing.ts.
use open_agent_hub.Prelude.{
  trim, ℕ, zero, suc, ◌+◌, String, Option, none, some, Bool, true, false, ◌&&◌, ◌||◌, not,
  if◌then◌else◌, List, [], ◌∷◌, ◌++◌, find, starts_with, truthy, str_eq, concat, get_or_default,
  is_some, length, ℤ, pos, ◌+ℤ◌, times,
}
use open_agent_hub.Usage.Tables.{Real, UsageProvider, claude, ExternalUsageRow, UsageStore}
use open_agent_hub.Usage.Store.{has_external, get_source_cursor, set_source_cursor}
use open_agent_hub.Json.{
  Json, Fields, fields, member, member_in, as_text, says, num, both_absent, and_then,
}
use open_agent_hub.Usage.Collect.Sessions.{
  FileStat, SessionFile, complete_end, lines_between, is_unchanged, start_offset,
}
use open_agent_hub.Usage.Collect.Codex.{Reading}
pub mod Events

-- The prices of a million tokens, in cents.
pub record ModelPrice : Type 0 where
  pub prefix_ : String
  pub input : ℕ
  pub output : ℕ
  pub cache_write : ℕ
  pub cache_read : ℕ

abbrev price : String → ℕ → ℕ → ℕ → ℕ → ModelPrice
price p i o w r = record { prefix_ = p; input = i; output = o; cache_write = w; cache_read = r }

abbrev pub pricing : List ModelPrice
pricing =
    price "claude-opus-4" 1500 7500 1875 150
    ∷ price "claude-sonnet-4" 300 1500 375 30
    ∷ price "claude-haiku-4" 100 500 125 10
    ∷ price "claude-3-5-haiku" 80 400 100 8
    ∷ price "claude-3-opus" 1500 7500 1875 150
    ∷ price "claude-3-sonnet" 300 1500 375 30
    ∷ price "claude-3-haiku" 25 125 30 3
    ∷ []

unfoldable pub claude_price : Option String → Option ModelPrice
claude_price none = none
claude_price (some model) =
    let match_ = find (λ (p : ModelPrice). starts_with p.prefix_ model) pricing in
    if str_eq model "" then none else match_

-- cents of a million tokens: eight decimal places
unfoldable pub cost_at : ModelPrice → ℤ → ℤ → Option ℤ → Option ℤ → Real
cost_at p tokens_in tokens_out cache_write cache_read = record {
  units =
      times p.input tokens_in
      +ℤ times p.output tokens_out
      +ℤ times p.cache_write (get_or_default cache_write (pos 0))
      +ℤ times p.cache_read (get_or_default cache_read (pos 0));
  scale = 8;
}

unfoldable pub estimate_claude_cost : Option String → ℤ → ℤ → Option ℤ → Option ℤ → Option Real
estimate_claude_cost model tokens_in tokens_out cache_write cache_read = elim (claude_price model) [
  | none ↦ none
  | some p ↦ some (cost_at p tokens_in tokens_out cache_write cache_read)
]

-- a whole number of dollars
abbrev dollars : Option ℤ → Option Real
dollars none = none
dollars (some n) = some (record { units = n; scale = 0 })

abbrev unless : Option ℤ → Option Real → Option Real
unless none estimated = estimated
unless (some exact) estimated = none

unfoldable pub claude_row : Reading → String → ℕ → Fields → Fields → Fields → ExternalUsageRow
claude_row r source line_no event message usage =
    let tokens_in = get_or_default (num r.read_number (member "input_tokens" usage)) (pos 0) in
    let tokens_out = get_or_default (num r.read_number (member "output_tokens" usage)) (pos 0) in
    let cache_write = num r.read_number (member "cache_creation_input_tokens" usage) in
    let cache_read = num r.read_number (member "cache_read_input_tokens" usage) in
    let cost_exact = num r.read_number (member "cost_usd" usage) in
    let model = as_text (member "model" message) in
    let occurred_at = get_or_default (as_text (member "timestamp" event)) r.now in
    record {
      provider = claude;
      source = source;
      session_id = as_text (member "session_id" message);
      model = model;
      tokens_in = tokens_in;
      tokens_out = tokens_out;
      cache_read = cache_read;
      cache_write = cache_write;
      cost_exact = dollars cost_exact;
      cost_estimated =
          unless cost_exact
            (estimate_claude_cost model tokens_in tokens_out cache_write cache_read);
      occurred_at = occurred_at;
      event_key =
          get_or_default (as_text (member "uuid" message))
            (concat (occurred_at ∷ "|" ∷ r.decimal (pos line_no) ∷ []));
    }

-- the observation, where one of the counts is there
unfoldable pub claude_observation :
    Reading → String → ℕ → Fields → Fields → Fields → Option ExternalUsageRow
claude_observation r source line_no event message usage =
    if both_absent (num r.read_number (member "input_tokens" usage))
      (num r.read_number (member "output_tokens" usage))
    then none
    else some (claude_row r source line_no event message usage)

unfoldable pub event_to_observation : Reading → Json → String → ℕ → Option ExternalUsageRow
event_to_observation r value source line_no = and_then (fields (some value)) (λ event.
    let found = and_then (fields (member "message" event)) (λ message.
      and_then (fields (member "usage" message))
        (claude_observation r source line_no event message)) in
    if says (member "type" event) "assistant" then found else none)

-- The variables of the loop over the lines of a file.
pub record ClaudeSession : Type 0 where
  pub usage : List ExternalUsageRow
  pub skipped_lines : ℕ

abbrev skip_line : ClaudeSession → ClaudeSession
skip_line c = record c { skipped_lines = suc c.skipped_lines }

unfoldable pub keep_event : UsageStore → ClaudeSession → Option ExternalUsageRow → ClaudeSession
keep_event s c none = skip_line c
keep_event s c (some obs) =
    if has_external s obs.provider obs.source obs.event_key
    then skip_line c
    else record c { usage = c.usage ++ obs ∷ [] }

abbrev take_event : Reading → UsageStore → String → ℕ → ClaudeSession → Option Json → ClaudeSession
take_event r s source line_no c none = skip_line c
take_event r s source line_no c (some value) =
    keep_event s c (event_to_observation r value source line_no)

unfoldable pub take_event_line :
    Reading → UsageStore → String → ℕ → ClaudeSession → String → ClaudeSession
take_event_line r s source line_no c line =
    let trimmed = trim line in
    let taken = take_event r s source line_no c (r.parse trimmed) in
    if str_eq trimmed "" then c else taken

unfoldable pub take_event_lines :
    Reading → UsageStore → String → ℕ → ClaudeSession → List String → ClaudeSession × Bool
take_event_lines r s source line_no c [] = (c, false)
take_event_lines r s source line_no c (line ∷ rest) =
    let after =
      take_event_lines r s source (suc line_no) (take_event_line r s source (suc line_no) c line)
        rest in
    if r.is_late source (suc line_no) then (c, true) else after

-- A session that was parsed: the store with its cursor, the variables and whether it was cut short.
abbrev ParsedClaude : Type 0
ParsedClaude = UsageStore × (ClaudeSession × Bool)

abbrev nothing : UsageStore → ParsedClaude
nothing s = (s, (record { usage = []; skipped_lines = 0 }, false))

unfoldable pub parse_claude_raw :
    Reading → UsageStore → String → FileStat → String → UsageStore × (ClaudeSession × Bool)
parse_claude_raw r s path st raw =
    let start = start_offset (get_source_cursor s path) st raw in
    let parsed =
      take_event_lines r s path 0 (record { usage = []; skipped_lines = 0 })
        (lines_between start (complete_end raw) raw) in
    (set_source_cursor r.now s path st.size st.mtime_ms (complete_end raw), parsed)

abbrev parse_stat : Reading → UsageStore → String → Option FileStat → Option String → ParsedClaude
parse_stat r s path none raw = nothing s
parse_stat r s path (some st) none = nothing s
parse_stat r s path (some st) (some raw) =
    if is_unchanged (get_source_cursor s path) st
    then nothing s
    else parse_claude_raw r s path st raw

unfoldable pub parse_claude_file :
    Reading → UsageStore → SessionFile → UsageStore × (ClaudeSession × Bool)
parse_claude_file r s file = parse_stat r s file.path file.stat file.raw
