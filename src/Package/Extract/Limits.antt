-- ===== src/Package/Extract/Limits.antt =====
-- What an extraction writes and how it settles, for any order of the events.
use open_agent_hub.Prelude.{
  String, ◌≡◌, ◌⊎◌, inl, inr, arith, refl, List, [], ◌∷◌, ℕ, ◌+◌, ◌≤◌, ltb, eqb, length, Result, ok,
  thrown, is_some, Bool-cases, get_or_default, concat,
}
use open_agent_hub.Package.Paths.{assert_safe_archive_path}
use open_agent_hub.Package.Extract.{
  UnpackLimits, ReadEntry, EntryType, a_directory, a_file, another, Extraction, start_extraction,
  fail, finish, strip_here, open_file, on_entry, on_written, Event, entry, written, failed, ended,
  on_event, extract,
}

abbrev pub sizes : List (String × ℕ) → ℕ
sizes [] = 0
sizes ((_, n) ∷ fs) = n + sizes fs

abbrev pub IsSafe : List String → String → Type 0
IsSafe root p = assert_safe_archive_path p root ≡ ok tt

abbrev pub AllFiles : UnpackLimits → List String → List (String × ℕ) → Type 0
AllFiles limits root [] = Unit {0}
AllFiles limits root ((p, n) ∷ fs) =
    IsSafe root p × (n ≤ limits.max_single_file_bytes) × AllFiles limits root fs

abbrev pub AllSafe : List String → List String → Type 0
AllSafe root [] = Unit {0}
AllSafe root (p ∷ ps) = IsSafe root p × AllSafe root ps

-- What stands on disk: safe paths only, each file within its limit, and all of them within the limits
-- on their number and their total size.
abbrev pub IsWithin : UnpackLimits → List String → Extraction → Type 0
IsWithin limits root s =
    AllFiles limits root s.files
    × AllSafe root s.directories
    × (length s.files ≤ limits.max_files)
    × (sizes s.files ≤ limits.max_total_bytes)

-- the counters are no less than what stands on disk
abbrev IsCounted : Extraction → Type 0
IsCounted s = (length s.files ≤ s.file_count) × (sizes s.files ≤ s.total_bytes)

abbrev IsSound : UnpackLimits → List String → Extraction → Type 0
IsSound limits root s = IsWithin limits root s × IsCounted s

fail-files : (m : String) (s : Extraction) → (fail m s).files ≡ s.files
unfolding fail
fail-files m s = ground arith

pub ok_cases : (r : Result (Unit {0})) → (r ≡ ok tt) ⊎ ((m : String) × (r ≡ thrown m))
ok_cases (ok u) = inl refl
ok_cases (thrown m) = inr (m, refl)

module _ (limits : UnpackLimits) (root : List String) where
  fail-IsSound :
      (m : String) (s : Extraction) → IsSound limits root s → IsSound limits root (fail m s)
  unfolding fail
  fail-IsSound m s h = elim (Bool-cases (is_some s.settled)) [ inl e ↦ rw e h | inr e ↦ rw e h ]

  finish-IsSound : (s : Extraction) → IsSound limits root s → IsSound limits root (finish s)
  unfolding finish
  finish-IsSound s h = elim (Bool-cases (is_some s.settled)) [
    | inl e ↦ rw e h
    | inr e ↦ elim (Bool-cases (eqb s.pending_writes 0)) [
      | inl f ↦ rw (e, f) h
      | inr f ↦ rw (e, f) h
    ]
  ]

  open_file-IsSound :
      (safe : String) (size : ℕ) (s : Extraction)
      → IsSafe root safe
      → IsSound limits root s
      → IsSound limits root (open_file limits safe size s)
  unfolding open_file
  open_file-IsSound safe size s p ((files, dirs, number, total), (counted, measured)) =
      let one_more : length s.files ≤ s.file_count + 1 = omega arith in
      let bytes : sizes s.files ≤ s.total_bytes + size = omega arith in
      elim (Bool-cases (ltb limits.max_files (s.file_count + 1))) [
        | inl a ↦ rw a (fail-IsSound _ _ ((files, dirs, number, total), (one_more, measured)))
        | inr a ↦ elim (Bool-cases (ltb limits.max_single_file_bytes size)) [
          | inl b ↦
              rw (a, b) (fail-IsSound _ _ ((files, dirs, number, total), (one_more, measured)))
          | inr b ↦ elim (Bool-cases (ltb limits.max_total_bytes (s.total_bytes + size))) [
            | inl c ↦
                rw (a, b, c) (fail-IsSound _ _ ((files, dirs, number, total), (one_more, bytes)))
            | inr c ↦
                rw (a, b, c)
                  (
                    ((p, ground arith, files), dirs, ground arith, ground arith),
                    (omega arith, omega arith),
                  )
          ]
        ]
      ]

  -- the branches for the types of entries
  opened :
      (t : EntryType) (size : ℕ) (safe : String) (s : Extraction)
      → IsSafe root safe
      → IsSound limits root s
      → IsSound limits root (elim t [
        | a_directory ↦ record s { directories = safe ∷ s.directories }
        | a_file ↦ open_file limits safe size s
        | another kind ↦
            fail (concat ("unsupported entry type '" ∷ kind ∷ "' in archive: " ∷ safe ∷ [])) s
      ])
  opened a_directory size safe s p ((files, dirs, number, total), counted) =
      ((files, (p, dirs), number, total), counted)
  opened a_file size safe s p h = open_file-IsSound safe size s p h
  opened (another kind) size safe s p h = fail-IsSound _ s h

  on_entry-IsSound :
      (e : ReadEntry) (s : Extraction)
      → IsSound limits root s
      → IsSound limits root (on_entry limits root e s)
  unfolding on_entry
  on_entry-IsSound e s h =
      let safe = strip_here e.path in
      elim (ok_cases (assert_safe_archive_path safe root)) [
        | inr (m, bad) ↦ rw (bad, on_entry) (fail-IsSound m s h)
        | inl good ↦
            rw (good, on_entry) (opened e.entry_type (get_or_default e.size 0) safe s good h)
      ]

  on_written-IsSound :
      (p : String) (s : Extraction) → IsSound limits root s → IsSound limits root (on_written p s)
  unfolding on_written
  on_written-IsSound p s h = finish-IsSound _ h

  on_event-IsSound :
      (e : Event) (s : Extraction)
      → IsSound limits root s
      → IsSound limits root (on_event limits root e s)
  unfolding on_event
  on_event-IsSound (entry e) s h = on_entry-IsSound e s h
  on_event-IsSound (written p) s h = on_written-IsSound p s h
  on_event-IsSound (failed m) s h = fail-IsSound m s h
  on_event-IsSound ended s h = finish-IsSound s h

  extract-IsSound :
      (es : List Event) (s : Extraction)
      → IsSound limits root s
      → IsSound limits root (extract limits root es s)
  unfolding extract
  extract-IsSound [] s h = h
  extract-IsSound (e ∷ es) s h = extract-IsSound es _ (on_event-IsSound e s h)

  -- Whatever the archive holds and in whatever order the events come, also after an error: each file
  -- and directory that was made has a safe path, each file is within the limit for one file, and all
  -- of them are within the limits on their number and their total size.
  pub extract-IsWithin :
      (es : List Event) → IsWithin limits root (extract limits root es start_extraction)
  extract-IsWithin es =
      (extract-IsSound es start_extraction
        ((tt, tt, omega arith, omega arith), (omega arith, omega arith))).0
