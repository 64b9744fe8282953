-- ===== src/Control/Tail.antt =====
-- `readLogTail`, `initLogFollow` and `readLogFollow` of cli/src/lib/control-plane.ts: the end of the
-- daemon's log, and what is added to it. The files are the contents that can be read, in the order in
-- which the code visits them: the log itself first, then the rotated ones.
use open_agent_hub.Prelude.{
  ℕ, zero, suc, ◌+◌, ◌-◌, ◌≡◌, ◌≢◌, refl, ap, arith, String, code, Option, none, some, ◌||◌, not,
  if◌then◌else◌, List, [], ◌∷◌, ◌++◌, map, ltb, leb, eqb, length, length-append, str_eq, eq_refl,
  split_on, join,
}

unfoldable pub drop : {A : Type 0} → ℕ → List A → List A
drop zero xs = xs
drop (suc n) [] = []
drop (suc n) (x ∷ xs) = drop n xs

unfoldable pub take : {A : Type 0} → ℕ → List A → List A
take zero xs = []
take (suc n) [] = []
take (suc n) (x ∷ xs) = x ∷ take n xs

-- `if (lines.at(-1) === "") lines.pop()`
unfoldable pub pop_empty : List String → List String
pop_empty [] = []
pop_empty (s ∷ []) = if str_eq s "" then [] else s ∷ []
pop_empty (s ∷ t ∷ ss) = s ∷ pop_empty (t ∷ ss)

-- `xs.slice(-n)` for a positive number
unfoldable pub slice_last : {A : Type 0} → ℕ → List A → List A
slice_last n xs = drop (length xs - n) xs

-- the lines of each file that are taken, until no line remains to be read
unfoldable pub take_chunks : ℕ → List (Option String) → List (List String)
take_chunks zero files = []
take_chunks (suc n) [] = []
take_chunks (suc n) (none ∷ files) = take_chunks (suc n) files
take_chunks (suc n) (some text ∷ files) =
    let tail = slice_last (suc n) (pop_empty (split_on 10 text)) in
    tail ∷ take_chunks (suc n - length tail) files

-- `s.replace(/^\n+/, "")`
unfoldable pub drop_newlines : String → String
drop_newlines String.[] = String.[]
drop_newlines (String.◌∷◌ c s) =
    let rest = drop_newlines s in if eqb (code c) 10 then rest else String.◌∷◌ c s

unfoldable pub read_log_tail : ℕ → List (Option String) → String
read_log_tail lines files = drop_newlines (join "\n" (map (join "\n") (take_chunks lines files)))

-- A file at a moment: its device and inode, and its bytes.
pub record LogFile : Type 0 where
  pub identity : String
  pub content : List ℕ

pub record LogFollowState : Type 0 where
  pub offset : ℕ
  pub identity : String

unfoldable pub init_log_follow : LogFile → LogFollowState
init_log_follow file = record { offset = length file.content; identity = file.identity }

-- the offset, or the start of a file that is another one or has become shorter
unfoldable pub follow_offset : LogFile → LogFollowState → ℕ
follow_offset file state =
    if not (str_eq file.identity state.identity) || ltb (length file.content) state.offset
    then 0
    else state.offset

-- `s.replace(/\n$/, "")`
unfoldable pub strip_newline : String → String
strip_newline String.[] = String.[]
strip_newline (String.◌∷◌ c String.[]) =
    if eqb (code c) 10 then String.[] else String.◌∷◌ c String.[]
strip_newline (String.◌∷◌ c (String.◌∷◌ d s)) = String.◌∷◌ c (strip_newline (String.◌∷◌ d s))

abbrev line_of : (List ℕ → String) → List ℕ → Option String
line_of decode [] = none
line_of decode (b ∷ bs) = some (strip_newline (decode (b ∷ bs)))

-- The file is looked at, opened and read, and looked at again; `decode` reads UTF-8.
unfoldable pub read_log_follow :
    (List ℕ → String)
    → LogFile
    → LogFile
    → LogFile
    → LogFollowState
    → LogFollowState × Option String
read_log_follow decode seen opened closing state =
    let offset = follow_offset seen state in
    let bytes = take (length seen.content - offset) (drop offset opened.content) in
    if leb (length seen.content) offset
    then (record { offset = offset; identity = seen.identity }, none)
    else (
      record { offset = length closing.content; identity = seen.identity },
      line_of decode bytes,
    )

drop-append : {A : Type 0} (xs ys : List A) → drop (length xs) (xs ++ ys) ≡ ys
unfolding drop
drop-append [] ys = refl
drop-append (x ∷ xs) ys = drop-append xs ys

take-append : {A : Type 0} (xs ys : List A) → take (length xs) (xs ++ ys) ≡ xs
unfolding take
take-append [] ys = refl
take-append (x ∷ xs) ys = ap (λ r. x ∷ r) (take-append xs ys)

length-drop : {A : Type 0} (n : ℕ) (xs : List A) → length (drop n xs) ≡ length xs - n
unfolding drop
length-drop zero xs = omega arith
length-drop (suc n) [] = omega arith
length-drop (suc n) (x ∷ xs) = ground (arith, length-drop n xs)

-- the lines of a list of files that can be read
abbrev pub all_lines : List (Option String) → ℕ
all_lines [] = 0
all_lines (none ∷ files) = all_lines files
all_lines (some text ∷ files) = length (pop_empty (split_on 10 text)) + all_lines files

abbrev pub count : List (List String) → ℕ
count [] = 0
count (c ∷ cs) = length c + count cs

-- The tail has as many lines as were asked for, or all lines of the files that can be read if these
-- are fewer.
pub take_chunks_lem :
    (lines : ℕ) (files : List (Option String))
    → count (take_chunks lines files)
      ≡ (if leb lines (all_lines files) then lines else all_lines files)
unfolding take_chunks slice_last
take_chunks_lem zero files = ground arith
take_chunks_lem (suc n) [] = ground arith
take_chunks_lem (suc n) (none ∷ files) = take_chunks_lem (suc n) files
take_chunks_lem (suc n) (some text ∷ files) =
    let lines = pop_empty (split_on 10 text) in
    let tail = drop (length lines - suc n) lines in
    ground
      (arith, length-drop (length lines - suc n) lines, take_chunks_lem (suc n - length tail) files)

-- For a log that has grown and is only added to: a reading that starts where the last one ended
-- gives the text of the bytes that were new when the file was looked at, less an end of line at its
-- end; the next one starts at the size that the file has at the end, so that the bytes added in
-- between are left out.
pub read_log_follow_lem :
    (decode : List ℕ → String) (identity : String) (old new meanwhile later : List ℕ)
    → new ≢ []
    → read_log_follow decode
        (record { identity = identity; content = old ++ new })
        (record { identity = identity; content = old ++ (new ++ meanwhile) })
        (record { identity = identity; content = old ++ (new ++ (meanwhile ++ later)) })
        (record { offset = length old; identity = identity })
      ≡ (
        record {
          offset = length old + (length new + (length meanwhile + length later));
          identity = identity;
        },
        some (strip_newline (decode new)),
      )
unfolding read_log_follow follow_offset
read_log_follow_lem decode identity old [] meanwhile later h = absurd (h refl)
read_log_follow_lem decode identity old (b ∷ bs) meanwhile later h =
    let new = b ∷ bs in
    ground (
      arith,
      eq_refl identity,
      drop-append old (new ++ meanwhile),
      take-append new meanwhile,
      length-append old new,
      length-append old (new ++ (meanwhile ++ later)),
      length-append new (meanwhile ++ later),
      length-append meanwhile later,
    )
