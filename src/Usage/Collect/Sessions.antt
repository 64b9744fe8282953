-- ===== src/Usage/Collect/Sessions.antt =====
-- The files of sessions, as `parseSessionFile` of runtime/src/usage/codex.ts and of claude.ts reads
-- them: from where the last reading ended, up to the last end of a line. Positions count characters
-- of the basic plane.
use open_agent_hub.Prelude.{
  ℕ, zero, suc, String, code, Option, none, some, Bool, true, false, ◌&&◌, ◌||◌, if◌then◌else◌,
  List, leb, ltb, eqb, split_on, get_or_default,
}
use open_agent_hub.Usage.Tables.{SourceCursor}

-- `statSync`
pub record FileStat : Type 0 where
  pub size : ℕ
  pub mtime_ms : ℕ

-- A file of a session; `stat` and `raw` are absent where the call throws.
pub record SessionFile : Type 0 where
  pub path : String
  pub stat : Option FileStat
  pub raw : Option String

-- The position behind the last end of a line in a text that starts at `at`; `best` is the last one
-- before it.
unfoldable pub end_from : ℕ → ℕ → String → ℕ
end_from at best String.[] = best
end_from at best (String.◌∷◌ c s) = end_from (suc at) (if eqb (code c) 10 then suc at else best) s

-- `completeEnd`
unfoldable pub complete_end : String → ℕ
complete_end raw = end_from 0 0 raw

-- `raw.charCodeAt(n)`
unfoldable pub code_at : ℕ → String → Option ℕ
code_at n String.[] = none
code_at zero (String.◌∷◌ c s) = some (code c)
code_at (suc n) (String.◌∷◌ c s) = code_at n s

unfoldable pub skip : ℕ → String → String
skip zero s = s
skip (suc n) String.[] = String.[]
skip (suc n) (String.◌∷◌ c s) = skip n s

unfoldable pub upto : ℕ → String → String
upto zero s = String.[]
upto (suc n) String.[] = String.[]
upto (suc n) (String.◌∷◌ c s) = String.◌∷◌ c (upto n s)

-- `raw.slice(offset, end).split("\n")`
unfoldable pub lines_between : ℕ → ℕ → String → List String
lines_between offset end_ raw = split_on 10 (skip offset (upto end_ raw))

-- The cursor is of this state of the file.
unfoldable pub is_unchanged : Option SourceCursor → FileStat → Bool
is_unchanged none st = false
is_unchanged (some cursor) st = eqb cursor.size st.size && eqb cursor.mtime_ms st.mtime_ms

-- `cursorOffset === 0 || raw.charCodeAt(cursorOffset - 1) === 10`
unfoldable pub at_boundary : ℕ → String → Bool
at_boundary zero raw = true
at_boundary (suc n) raw = eqb (get_or_default (code_at n raw) 0) 10

-- where the cursor lets the reading start
unfoldable pub cursor_offset : Option SourceCursor → FileStat → String → ℕ
cursor_offset none st raw = 0
cursor_offset (some cursor) st raw =
    if leb cursor.offset st.size
      && (eqb st.mtime_ms cursor.mtime_ms || at_boundary cursor.offset raw)
    then cursor.offset
    else 0

-- `offset`
unfoldable pub start_offset : Option SourceCursor → FileStat → String → ℕ
start_offset cursor st raw =
    let offset = cursor_offset cursor st raw in if ltb (complete_end raw) offset then 0 else offset
