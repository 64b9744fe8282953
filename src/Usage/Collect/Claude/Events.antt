-- ===== src/Usage/Collect/Claude/Events.antt =====
-- The events of a session's file.
use open_agent_hub.Prelude.{
  trim, ℕ, suc, String, Option, none, some, ◌≡◌, refl, subst, arith, ◌⊎◌, inl, inr, false, List, [],
  ◌∷◌, In, In-of_append, Bool-cases, Option-cases, str_eq,
}
use mathlib.Core.Option.{some_inj}
use open_agent_hub.Usage.Tables.{claude, ExternalUsageRow, UsageStore}
use open_agent_hub.Usage.Store.{has_external, get_source_cursor}
use open_agent_hub.Json.{
  Json, Fields, fields, member, says, num, both_absent, and_then, and_then-eq-some,
}
use open_agent_hub.Usage.Collect.Sessions.{
  FileStat, complete_end, lines_between, is_unchanged, start_offset,
}
use open_agent_hub.Usage.Collect.Codex.{Reading}
use open_agent_hub.Usage.Collect.Claude.{
  ClaudeSession, claude_row, claude_observation, event_to_observation, keep_event, take_event,
  take_event_line, take_event_lines, parse_claude_raw, parse_claude_file,
}

-- An observation of this adapter, of this file, of an event that the store does not know, with a
-- cost that is either exact or estimated.
pub record IsNewEvent (s : UsageStore) (path : String) (obs : ExternalUsageRow) : Type 0 where
  pub mine : obs.provider ≡ claude
  pub here : obs.source ≡ path
  pub unknown : has_external s obs.provider obs.source obs.event_key ≡ false
  pub one_cost : (obs.cost_exact ≡ none) ⊎ (obs.cost_estimated ≡ none)

abbrev IsMine : String → ExternalUsageRow → Type 0
IsMine path obs =
    (obs.provider ≡ claude)
    × (obs.source ≡ path)
    × ((obs.cost_exact ≡ none) ⊎ (obs.cost_estimated ≡ none))

abbrev AllNew : UsageStore → String → List ExternalUsageRow → Type 0
AllNew s path rows = (obs : ExternalUsageRow) → In obs rows → IsNewEvent s path obs

claude_row-IsMine :
    (r : Reading) (path : String) (n : ℕ) (event message usage : Fields)
    → IsMine path (claude_row r path n event message usage)
unfolding claude_row
claude_row-IsMine r path n event message usage = (
  refl,
  refl,
  elim (Option-cases (num r.read_number (member "cost_usd" usage))) [
    | inl e ↦ inl (rw e refl)
    | inr (c, e) ↦ inr (rw e refl)
  ],
)

claude_observation-IsMine :
    (r : Reading) (path : String) (n : ℕ) (event message usage : Fields) (obs : ExternalUsageRow)
    → claude_observation r path n event message usage ≡ some obs
    → IsMine path obs
unfolding claude_observation
claude_observation-IsMine r path n event message usage obs h =
    elim (Bool-cases (
      both_absent (num r.read_number (member "input_tokens" usage))
        (num r.read_number (member "output_tokens" usage)))) [
          | inl none_there ↦ absurd (ground arith)
          | inr there ↦
              let e : claude_row r path n event message usage ≡ obs = some_inj.0 (rw there at h) in
              subst (IsMine path) e (claude_row-IsMine r path n event message usage)
        ]

-- what the adapter looks for in an event of an assistant
abbrev event_found : Reading → String → ℕ → Fields → Option ExternalUsageRow
event_found r path n event = and_then (fields (member "message" event)) (λ message.
    and_then (fields (member "usage" message)) (claude_observation r path n event message))

event_to_observation-IsMine :
    (r : Reading) (value : Json) (path : String) (n : ℕ) (obs : ExternalUsageRow)
    → event_to_observation r value path n ≡ some obs
    → IsMine path obs
unfolding event_to_observation
event_to_observation-IsMine r value path n obs h =
    let (event, is, h1) = and_then-eq-some (fields (some value)) _ h in
    elim (Bool-cases (says (member "type" event) "assistant")) [
      | inr other ↦ absurd (ground arith)
      | inl assistant ↦
          let found : event_found r path n event ≡ some obs = rw assistant at h1 in
          let (message, there, h2) = and_then-eq-some (fields (member "message" event)) _ found in
          let (usage, given, h3) = and_then-eq-some (fields (member "usage" message)) _ h2 in
          claude_observation-IsMine r path n event message usage obs h3
    ]

module _ (r : Reading) (s : UsageStore) (path : String) where
  keep_event-AllNew :
      (c : ClaudeSession) (found : Option ExternalUsageRow)
      → ((obs : ExternalUsageRow) → found ≡ some obs → IsMine path obs)
      → AllNew s path c.usage
      → AllNew s path (keep_event s c found).usage
  unfolding keep_event
  keep_event-AllNew c none mine new = new
  keep_event-AllNew c (some row) mine new =
      elim (Bool-cases (has_external s row.provider row.source row.event_key)) [
        | inl known ↦ rw known new
        | inr fresh ↦ rw fresh (λ obs m. elim (In-of_append obs c.usage (row ∷ []) m) [
          | inl old ↦ new obs old
          | inr one ↦ elim one [
            | inl e ↦
                let (a, b, d) = mine row refl in
                subst (IsNewEvent s path) e
                  (record { mine = a; here = b; unknown = fresh; one_cost = d })
            | inr z ↦ absurd z
          ]
        ])
      ]

  take_event-AllNew :
      (n : ℕ) (c : ClaudeSession) (value : Option Json)
      → AllNew s path c.usage
      → AllNew s path (take_event r s path n c value).usage
  take_event-AllNew n c none new = new
  take_event-AllNew n c (some value) new =
      keep_event-AllNew c _ (event_to_observation-IsMine r value path n) new

  take_event_lines-AllNew :
      (n : ℕ) (c : ClaudeSession) (lines : List String)
      → AllNew s path c.usage
      → AllNew s path (take_event_lines r s path n c lines).0.usage
  unfolding take_event_lines take_event_line
  take_event_lines-AllNew n c [] new = new
  take_event_lines-AllNew n c (line ∷ rest) new = elim (Bool-cases (r.is_late path (suc n))) [
    | inl late ↦ rw late new
    | inr on ↦ rw on (
        take_event_lines-AllNew (suc n) _ rest (elim (Bool-cases (str_eq (trim line) "")) [
          | inl blank ↦ rw blank new
          | inr full ↦ rw full (take_event-AllNew (suc n) c (r.parse (trim line)) new)
        ]))
  ]

  -- Every observation that the reading of a session's file yields is of this adapter and of this
  -- file, is of an event that the store did not know, and has an exact or an estimated cost but not
  -- both.
  pub parse_claude_file_new :
      (stat : Option FileStat) (raw : Option String) (obs : ExternalUsageRow)
      → In obs (parse_claude_file r s (record { path = path; stat = stat; raw = raw })).1.0.usage
      → IsNewEvent s path obs
  unfolding parse_claude_file parse_claude_raw
  parse_claude_file_new none raw obs m = absurd m
  parse_claude_file_new (some st) none obs m = absurd m
  parse_claude_file_new (some st) (some raw) obs m =
      elim (Bool-cases (is_unchanged (get_source_cursor s path) st)) [
        | inl old ↦ absurd (rw old at m)
        | inr new ↦
            take_event_lines-AllNew 0 (record { usage = []; skipped_lines = 0 })
              (lines_between (start_offset (get_source_cursor s path) st raw) (complete_end raw)
                raw)
              (λ obs z. absurd z) obs (rw new at m)
      ]
