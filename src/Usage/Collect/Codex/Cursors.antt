-- ===== src/Usage/Collect/Codex/Cursors.antt =====
-- The cursor of a session's file: what is read once is not read again.
use open_agent_hub.Prelude.{
  trim, ℕ, suc, ◌+◌, ◌≤◌, String, code, split_where, prepend, split_on, length-append, Option, none,
  some, ◌≡◌, refl, ap, arith, inl, inr, Bool, true, false, List, [], ◌∷◌, Bool-cases, is_some, eqb,
  length, lookup-insert_self,
}
use open_agent_hub.Usage.Tables.{UsageStore, SourceCursor, ExternalUsageRow}
use open_agent_hub.Usage.Store.{get_source_cursor, set_source_cursor}
use open_agent_hub.Json.{Json}
use open_agent_hub.Usage.Collect.Sessions.{
  FileStat, SessionFile, skip, upto, complete_end, lines_between, is_unchanged, start_offset,
}
use open_agent_hub.Usage.Collect.Codex.{
  Reading, LimitObservation, CumulativeTotal, UsageRecord, find_rate_limit, find_cumulative_total,
  find_usage_record, totals_to_observation, record_to_observation,
}
use open_agent_hub.Usage.Collect.Codex.Parsing.{
  nothing_parsed, Session, fresh_session, keep_observation, take_limit, take_item, take_usage,
  take_total, take_record, take_line, take_lines, parse_raw, parse_session_file,
}

split_cons :
    (sep : ℕ → Bool) (s : String) → (x : String) × (xs : List String) × (split_where sep s ≡ x ∷ xs)
unfolding split_where prepend
split_cons sep String.[] = ("", [], refl)
split_cons sep (String.◌∷◌ c s) = elim (Bool-cases (sep (code c))) [
  | inl e ↦ ("", split_where sep s, rw e refl)
  | inr e ↦ let (x, xs, q) = split_cons sep s in (String.◌∷◌ c x, xs, rw (e, q) refl)
]

lines_between_cons :
    (start stop : ℕ) (raw : String)
    → (x : String) × (xs : List String) × (lines_between start stop raw ≡ x ∷ xs)
unfolding lines_between split_on
lines_between_cons start stop raw = split_cons (λ c. eqb c 10) (skip start (upto stop raw))

-- the events and the lines that a session has counted
abbrev counted : Session → ℕ
counted s = length s.usage + s.skipped_lines

counted-keep_observation :
    (s : Session) (obs : Option ExternalUsageRow)
    → counted (keep_observation s obs) ≡ suc (counted s)
unfolding keep_observation
counted-keep_observation s none = omega arith
counted-keep_observation s (some obs) = ground (arith, length-append s.usage (obs ∷ []))

counted-take_limit :
    (s : Session) (rl : Option LimitObservation) → counted (take_limit s rl) ≡ counted s
unfolding take_limit
counted-take_limit s none = refl
counted-take_limit s (some rl) = refl

counted-take_usage :
    (r : Reading) (source : String) (n : ℕ) (s : Session) (limited : Bool)
    (totals : Option CumulativeTotal) (rec : Option UsageRecord)
    → counted (take_usage r source n s limited totals rec) ≤ suc (counted s)
unfolding take_total take_record
counted-take_usage r source n s limited (some totals) rec =
    let (store, obs) = totals_to_observation r s.store totals source in
    omega (
      arith,
      counted-keep_observation
          (record s { store = (totals_to_observation r s.store totals source).0 })
          (totals_to_observation r s.store totals source).1,
    )
counted-take_usage r source n s limited none (some rec) =
    omega (arith, counted-keep_observation s (record_to_observation r rec source n))
counted-take_usage r source n s true none none = omega arith
counted-take_usage r source n s false none none = omega arith

counted-take_item :
    (r : Reading) (source : String) (n : ℕ) (s : Session) (value : Option Json)
    → counted (take_item r source n s value) ≤ suc (counted s)
unfolding take_item
counted-take_item r source n s none = omega arith
counted-take_item r source n s (some value) = ground (
  arith,
  counted-take_limit s (find_rate_limit r value),
  counted-take_usage r source n (take_limit s (find_rate_limit r value))
      (is_some (find_rate_limit r value)) (find_cumulative_total r value)
      (find_usage_record r value),
)

counted-take_line :
    (r : Reading) (source : String) (n : ℕ) (s : Session) (line : String)
    → counted (take_line r source n s line) ≤ suc (counted s)
unfolding take_line
counted-take_line r source n s line =
    ground (arith, counted-take_item r source n s (r.parse (trim line)))

take_lines_bound :
    (r : Reading) (source : String) (n : ℕ) (s : Session) (lines : List String)
    → counted (take_lines r source n s lines).0 ≤ counted s + length lines
unfolding take_lines
take_lines_bound r source n s [] = omega arith
take_lines_bound r source n s (line ∷ rest) = ground (
  arith,
  take_lines_bound r source (suc n) (take_line r source (suc n) s line) rest,
  counted-take_line r source (suc n) s line,
)

take_lines_late :
    (r : Reading) (source : String) (s : Session) (lines : List String) (line : String)
    (rest : List String)
    → lines ≡ line ∷ rest
    → r.is_late source 1 ≡ true
    → take_lines r source 0 s lines ≡ (s, true)
unfolding take_lines
take_lines_late r source s lines line rest e late = rw (e, late) refl

module _ (r : Reading) (s : UsageStore) (path : String) (st : FileStat) (raw : String) where
  abbrev file : SessionFile
  file = record { path = path; stat = some st; raw = some raw }

  abbrev cursor_after : SourceCursor
  cursor_after = record {
    size = st.size;
    mtime_ms = st.mtime_ms;
    offset = complete_end raw;
    seen_at = r.now;
  }

  parse_raw_cursor : get_source_cursor (parse_raw r s path st raw).store path ≡ some cursor_after
  unfolding parse_raw get_source_cursor set_source_cursor
  parse_raw_cursor = lookup-insert_self path _ _

  changed_file :
      is_unchanged (get_source_cursor s path) st ≡ false
      → parse_session_file r s file ≡ parse_raw r s path st raw
  unfolding parse_session_file
  changed_file e = rw e refl

  unchanged_after :
      is_unchanged (get_source_cursor (parse_raw r s path st raw).store path) st ≡ true
  unfolding is_unchanged
  unchanged_after = rw parse_raw_cursor (ground arith)

  again :
      (later : Reading)
      → parse_session_file later (parse_raw r s path st raw).store file
        ≡ nothing_parsed (parse_raw r s path st raw).store
  unfolding parse_session_file
  again later = rw unchanged_after refl

  -- A file that has changed is read up to the end of its last line, which the cursor then names; the
  -- same file is not read again: a second parse finds nothing and changes nothing.
  pub parse_session_file_twice :
      is_unchanged (get_source_cursor s path) st ≡ false
      → (get_source_cursor (parse_session_file r s file).store path ≡ some cursor_after)
        × (parse_session_file r (parse_session_file r s file).store file
            ≡ nothing_parsed (parse_session_file r s file).store)
  parse_session_file_twice e = rw (changed_file e) (parse_raw_cursor, again r)

  late_raw :
      r.is_late path 1 ≡ true
      → ((parse_raw r s path st raw).usage ≡ []) × ((parse_raw r s path st raw).cut_short ≡ true)
  unfolding parse_raw
  late_raw late =
      let start = start_offset (get_source_cursor s path) st raw in
      let (line, rest, e) = lines_between_cons start (complete_end raw) raw in
      let q = take_lines_late r path (fresh_session s) _ line rest e late in
      (ap (λ (x : Session × Bool). x.0.usage) q, ap (λ (x : Session × Bool). x.1) q)

  -- Where the deadline has passed before the first line of a changed file, nothing is observed and
  -- the result says that the reading was cut short; still the lines count as read: no later reading
  -- of the same file observes anything.
  pub parse_session_file_cut :
      (later : Reading)
      → is_unchanged (get_source_cursor s path) st ≡ false
      → r.is_late path 1 ≡ true
      → ((parse_session_file r s file).usage ≡ [])
        × ((parse_session_file r s file).cut_short ≡ true)
        × (parse_session_file later (parse_session_file r s file).store file
            ≡ nothing_parsed (parse_session_file r s file).store)
  parse_session_file_cut later e late =
      let (none_yet, cut) = late_raw late in rw (changed_file e) (none_yet, cut, again later)

  -- Each line is counted at most once: the events that are ingested and the lines that are skipped
  -- are together at most the lines that were read.
  pub parse_raw_bounds :
      (parse_raw r s path st raw).ingested + (parse_raw r s path st raw).skipped_lines
      ≤ length
          (lines_between (start_offset (get_source_cursor s path) st raw) (complete_end raw) raw)
  unfolding parse_raw
  parse_raw_bounds =
      let lines =
        lines_between (start_offset (get_source_cursor s path) st raw) (complete_end raw) raw in
      omega (arith, take_lines_bound r path 0 (fresh_session s) lines)
