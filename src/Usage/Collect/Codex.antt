-- ===== src/Usage/Collect/Codex.antt =====
-- The adapter of runtime/src/usage/codex.ts.
use open_agent_hub.Prelude.{
  trim, ℕ, zero, suc, ◌+◌, String, Option, none, some, Bool, true, false, ◌&&◌, ◌||◌, not,
  if◌then◌else◌, List, [], ◌∷◌, ◌++◌, str_eq, concat, get_or_default, or_else, is_some, truthy,
  length, ℤ, pos, ◌-ℤ◌, leb_ℤ, ltb_ℤ,
}
use open_agent_hub.Usage.Tables.{
  Real, UsageProvider, codex, ExternalUsageRow, LimitSource, SourceCursor, CodexTotal, UsageStore,
}
use open_agent_hub.Usage.Store.{
  has_external, get_source_cursor, set_source_cursor, get_codex_total, set_codex_total,
}
use open_agent_hub.Json.{
  Json, Fields, object, fields, member, member_in, as_text, is_true, says, num, both_absent,
  and_then,
}
use open_agent_hub.Usage.Collect.Sessions.{
  FileStat, SessionFile, complete_end, lines_between, is_unchanged, start_offset,
}
pub mod Parsing
pub mod Deltas
pub mod Cursors

-- What the code takes from the language and the clock: JSON.parse, `Number(s)`, the decimal form of
-- a number, the time as a text, the time so many seconds from now, and whether the deadline has
-- passed when a line of a file, by its number, is looked at.
pub record Reading : Type 0 where
  pub parse : String → Option Json
  pub read_number : String → Option ℤ
  pub decimal : ℤ → String
  pub now : String
  pub seconds_from_now : ℤ → String
  pub is_late : String → ℕ → Bool

pub record UsageRecord : Type 0 where
  pub tokens_in : ℤ
  pub tokens_out : ℤ
  pub cumulative : Bool
  pub model : Option String
  pub session_id : Option String
  pub timestamp : Option String
  pub id : Option String

pub record CumulativeTotal : Type 0 where
  pub model : String
  pub tokens_in : ℤ
  pub tokens_out : ℤ

-- Limits as the adapter observes them; the time of the observation is added when they are stored.
pub record LimitObservation : Type 0 where
  pub window : String
  pub units : String
  pub credits_total : Option ℤ
  pub credits_used : Option ℤ
  pub reset_at : Option String

-- `payload.usage` or `usage`, where it is an object
unfoldable pub usage_source : Fields → Option Fields
usage_source item =
    or_else (fields (member_in "usage" (fields (member "payload" item))))
      (fields (member "usage" item))

unfoldable pub usage_record : Reading → Fields → Fields → Option UsageRecord
usage_record r item source =
    let tokens_in = num r.read_number (member "input_tokens" source) in
    let tokens_out = num r.read_number (member "output_tokens" source) in
    let found : UsageRecord = record {
      tokens_in = get_or_default tokens_in (pos 0);
      tokens_out = get_or_default tokens_out (pos 0);
      cumulative = is_true (member "cumulative" source) || says (member "type" item) "summary";
      model = or_else (as_text (member "model" source)) (
          or_else (as_text (member "model" item))
            (as_text (member_in "model" (fields (member "payload" item)))));
      session_id =
          or_else (as_text (member "session_id" source)) (as_text (member "session_id" item));
      timestamp =
          or_else (as_text (member "observed_at" source)) (as_text (member "timestamp" item));
      id = or_else (as_text (member "id" source)) (as_text (member "id" item));
    } in
    if both_absent tokens_in tokens_out then none else some found

unfoldable pub find_usage_record : Reading → Json → Option UsageRecord
unfolding usage_record
find_usage_record r value =
    and_then (fields (some value)) (λ item. and_then (usage_source item) (usage_record r item))

-- `limit !== undefined && remaining !== undefined ? Math.max(0, limit - remaining) : remaining`
unfoldable pub credits_used : Option ℤ → Option ℤ → Option ℤ
credits_used none remaining = remaining
credits_used (some limit) none = none
credits_used (some limit) (some remaining) =
    let used = limit -ℤ remaining in some (if ltb_ℤ used (pos 0) then pos 0 else used)

abbrev reset_time : Reading → Option ℤ → Option String
reset_time r none = none
reset_time r (some n) = if leb_ℤ (pos 0) n then some (r.seconds_from_now n) else none

unfoldable pub limit_of : Reading → Fields → Option LimitObservation
limit_of r rl =
    let limit = num r.read_number (member "limit" rl) in
    let remaining = num r.read_number (member "remaining" rl) in
    let found : LimitObservation = record {
      window = "sliding";
      units = get_or_default (as_text (member "units" rl)) "requests";
      credits_total = limit;
      credits_used = credits_used limit remaining;
      reset_at = reset_time r (num r.read_number (member "reset_after" rl));
    } in
    if both_absent limit remaining then none else some found

unfoldable pub find_rate_limit : Reading → Json → Option LimitObservation
unfolding limit_of
find_rate_limit r value = and_then (fields (some value)) (λ item.
    let found = and_then (fields (member "payload" item)) (limit_of r) in
    if says (member "type" item) "ratelimit" then found else none)

abbrev total_of_model : Option String → Option ℤ → Option ℤ → Option CumulativeTotal
total_of_model none input output = none
total_of_model (some model) input output =
    let found : CumulativeTotal = record {
      model = model;
      tokens_in = get_or_default input (pos 0);
      tokens_out = get_or_default output (pos 0);
    } in
    if str_eq model "" || both_absent input output then none else some found

unfoldable pub find_cumulative_total : Reading → Json → Option CumulativeTotal
find_cumulative_total r value = and_then (fields (some value)) (λ item.
    and_then (fields (member_in "totals" (fields (member "payload" item)))) (λ totals.
      total_of_model (as_text (member "model" totals))
        (num r.read_number (member "input_tokens" totals))
        (num r.read_number (member "output_tokens" totals))))

abbrev pub last_input : Option CodexTotal → ℤ
last_input none = pos 0
last_input (some t) = t.last_input

abbrev pub last_output : Option CodexTotal → ℤ
last_output none = pos 0
last_output (some t) = t.last_output

-- `deltaIn <= 0 && deltaOut <= 0`
unfoldable pub has_not_grown : ℤ → ℤ → Bool
has_not_grown delta_in delta_out = leb_ℤ delta_in (pos 0) && leb_ℤ delta_out (pos 0)

unfoldable pub total_row : Reading → CumulativeTotal → String → ℤ → ℤ → ExternalUsageRow
total_row r totals source delta_in delta_out = record {
  provider = codex;
  source = source;
  session_id = none;
  model = some totals.model;
  tokens_in = delta_in;
  tokens_out = delta_out;
  cache_read = none;
  cache_write = none;
  cost_exact = none;
  cost_estimated = none;
  occurred_at = r.now;
  event_key = concat (
      "cum|"
      ∷ totals.model
      ∷ "|"
      ∷ r.decimal totals.tokens_in
      ∷ "|"
      ∷ r.decimal totals.tokens_out
      ∷ []);
}

-- The observation, if a count has grown, and the store with the new totals.
unfoldable pub totals_to_observation :
    Reading → UsageStore → CumulativeTotal → String → UsageStore × Option ExternalUsageRow
totals_to_observation r s totals source =
    let last = get_codex_total s source totals.model in
    let delta_in = totals.tokens_in -ℤ last_input last in
    let delta_out = totals.tokens_out -ℤ last_output last in
    if has_not_grown delta_in delta_out then (s, none) else (
      set_codex_total s source totals.model totals.tokens_in totals.tokens_out,
      some (total_row r totals source delta_in delta_out),
    )

-- `rec.id ?? \`${rec.timestamp ?? lineNo}|${lineNo}\``
unfoldable pub record_key : Reading → UsageRecord → ℕ → String
record_key r rec line_no =
    let number = r.decimal (pos line_no) in
    get_or_default rec.id (concat (get_or_default rec.timestamp number ∷ "|" ∷ number ∷ []))

unfoldable pub record_to_observation : Reading → UsageRecord → String → ℕ → Option ExternalUsageRow
record_to_observation r rec source line_no =
    let obs : ExternalUsageRow = record {
      provider = codex;
      source = source;
      session_id = rec.session_id;
      model = some (get_or_default rec.model "unknown");
      tokens_in = rec.tokens_in;
      tokens_out = rec.tokens_out;
      cache_read = none;
      cache_write = none;
      cost_exact = none;
      cost_estimated = none;
      occurred_at = get_or_default rec.timestamp r.now;
      event_key = record_key r rec line_no;
    } in
    if rec.cumulative then none else some obs
