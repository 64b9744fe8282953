-- ===== src/Supervisor/Logs.antt =====
-- `rotateRunLog` of cli/src/lib/supervisor.ts, and `rotateLogs` of cli/src/lib/control-plane.ts,
-- which is the same code for the log of the daemon. A file of the log is known by its number: 0 is
-- the log itself, i is the file with the suffix `.i`. Its content is a list of bytes.
use open_agent_hub.Prelude.{
  Option, none, some, false, ◌≡◌, arith, refl, ◌∙◌, if◌then◌else◌, List, ℕ, zero, suc, ◌-◌, ◌≤◌,
  ◌<◌, ltb, eqb, length, inl, inr, is_some, Option-cases,
}

abbrev pub LogFiles : Type 0
LogFiles = ℕ → Option (List ℕ)

abbrev pub set_file : ℕ → Option (List ℕ) → LogFiles → LogFiles
set_file i content files j = if eqb i j then content else files j

-- `if (existsSync(from)) renameSync(from, to)`
abbrev pub rename_file : ℕ → ℕ → LogFiles → LogFiles
rename_file from to files =
    if is_some (files from) then set_file from none (set_file to (files from) files) else files

-- the loop, with the number of rounds that are left: `i` is one less
shift_files : ℕ → LogFiles → LogFiles
shift_files zero files = files
shift_files (suc i) files = shift_files i (rename_file i (suc i) files)

-- `max_files` is the constant 3 of the source, `max_bytes` is 5 * 1024 * 1024
unfoldable pub rotate_logs : ℕ → ℕ → LogFiles → LogFiles
unfolding shift_files
rotate_logs max_bytes max_files files = elim (files 0) [
  | none ↦ files
  | some log ↦
      if ltb (length log) max_bytes
      then files
      else shift_files (max_files - 1) (set_file (max_files - 1) none files)
]

-- what a shift of the files below `n` gives: the file `n` is the one with a free place before
shifted : ℕ → LogFiles → LogFiles
shifted n files zero = if ltb 0 n then none else files 0
shifted n files (suc k) = if ltb k n then files k else files (suc k)

rename_free :
    (i : ℕ) (files : LogFiles) (j : ℕ)
    → files (suc i) ≡ none
    → rename_file i (suc i) files j
      ≡ (if eqb i j then none else if eqb (suc i) j then files i else files j)
rename_free i files j free = elim (Option-cases (files i)) [
  | inl e ↦ rw e (ground arith)
  | inr (a, e) ↦ rw e (ground arith)
]

shifted-rename :
    (i : ℕ) (files : LogFiles) (j : ℕ)
    → files (suc i) ≡ none
    → shifted i (rename_file i (suc i) files) j ≡ shifted (suc i) files j
unfolding shifted
shifted-rename i files zero free = rw (rename_free i files zero free) (ground arith)
shifted-rename i files (suc k) free =
    rw (rename_free i files k free, rename_free i files (suc k) free) (grind arith)

shift_files_lem :
    (n : ℕ) (files : LogFiles) (j : ℕ) → files n ≡ none → shift_files n files j ≡ shifted n files j
unfolding shift_files shifted
shift_files_lem zero files zero free = refl
shift_files_lem zero files (suc k) free = ground arith
shift_files_lem (suc i) files j free =
    shift_files_lem i (rename_file i (suc i) files) j (rename_free i files i free ∙ ground arith)
    ∙ shifted-rename i files j free

-- the place that is cleared does not show
shifted-set_file :
    (n : ℕ) (files : LogFiles) (j : ℕ)
    → 0 < n
    → shifted n (set_file n none files) j ≡ shifted n files j
unfolding shifted
shifted-set_file n files zero h = ground arith
shifted-set_file n files (suc k) h = ground arith

rotate_logs-shifted :
    (max_bytes n : ℕ) (files : LogFiles) (log : List ℕ)
    → files zero ≡ some log
    → max_bytes ≤ length log
    → 0 < n
    → (j : ℕ) → rotate_logs max_bytes (suc n) files j ≡ shifted n files j
unfolding rotate_logs
rotate_logs-shifted max_bytes n files log e big kept j =
    let below : ltb (length log) max_bytes ≡ false = ground arith in
    let last : suc n - 1 ≡ n = omega arith in
    rw (e, rotate_logs)
      (rw (below, last)
        (shift_files_lem n (set_file n none files) j (ground arith)
          ∙ shifted-set_file n files j kept))

-- Rotating leaves a log that is missing or below the limit as it is. Otherwise the log is gone, each
-- other file that is kept is the one before it, the oldest is lost, and files beyond the number that
-- is kept are as they were.
pub rotate_logs_lem :
    (max_bytes n : ℕ) (files : LogFiles)
    → (files zero ≡ none → rotate_logs max_bytes (suc n) files ≡ files)
      × ((log : List ℕ)
          → files zero ≡ some log
          → (length log < max_bytes → rotate_logs max_bytes (suc n) files ≡ files)
            × (max_bytes ≤ length log
                → 0 < n
                → (rotate_logs max_bytes (suc n) files zero ≡ none)
                  × ((k : ℕ)
                      → (k < n → rotate_logs max_bytes (suc n) files (suc k) ≡ files k)
                        × (n ≤ k → rotate_logs max_bytes (suc n) files (suc k) ≡ files (suc k)))))
unfolding rotate_logs shifted
rotate_logs_lem max_bytes n files = (
  (λ e. rw (e, rotate_logs) refl),
  (λ log e. (
    (λ small. rw (e, rotate_logs) (ground arith)),
    (λ big kept.
        let moved = rotate_logs-shifted max_bytes n files log e big kept in
        (
          moved zero ∙ ground arith,
          (λ k. ((λ h. moved (suc k) ∙ ground arith), (λ h. moved (suc k) ∙ ground arith))),
        )),
  )),
)
