-- ===== src/Package/Extract/Settling.antt =====
-- When the promise of an extraction settles.
use open_agent_hub.Prelude.{
  String, Option, some, false, ◌≡◌, inl, inr, arith, refl, if◌then◌else◌, List, [], ◌∷◌, ℕ, ◌+◌,
  ◌≤◌, ltb, Result, ok, get_or_default, concat,
}
use open_agent_hub.Package.Paths.{assert_safe_archive_path}
use open_agent_hub.Package.Extract.{
  UnpackLimits, ReadEntry, EntryType, a_directory, a_file, another, Extraction, start_extraction,
  fail, finish, strip_here, open_file, on_entry, on_written, Event, entry, written, failed, ended,
  on_event, extract, is_manifest_name, base_name,
}
use open_agent_hub.Package.Extract.Limits.{ok_cases}

-- The outcome of an extraction.
abbrev Outcome : Type 0
Outcome = Option (Result (List String))

module _ (limits : UnpackLimits) (root : List String) (o : Result (List String)) where
  fail-settled : (m : String) (s : Extraction) → s.settled ≡ some o → (fail m s).settled ≡ some o
  unfolding fail
  fail-settled m s h = rw (h, fail) refl

  finish-settled : (s : Extraction) → s.settled ≡ some o → (finish s).settled ≡ some o
  unfolding finish
  finish-settled s h = rw (h, finish) refl

  open_file-settled :
      (safe : String) (size : ℕ) (s : Extraction)
      → s.settled ≡ some o
      → (open_file limits safe size s).settled ≡ some o
  unfolding open_file fail
  open_file-settled safe size s h = ground arith

  entry-settled :
      (t : EntryType) (size : ℕ) (safe : String) (s : Extraction)
      → s.settled ≡ some o
      → (elim t as (λ _. Extraction) [
        | a_directory ↦ record s { directories = safe ∷ s.directories }
        | a_file ↦ open_file limits safe size s
        | another kind ↦
            fail (concat ("unsupported entry type '" ∷ kind ∷ "' in archive: " ∷ safe ∷ [])) s
      ]).settled
        ≡ some o
  entry-settled a_directory size safe s h = h
  entry-settled a_file size safe s h = open_file-settled safe size s h
  entry-settled (another kind) size safe s h = fail-settled _ s h

  on_entry-settled :
      (e : ReadEntry) (s : Extraction)
      → s.settled ≡ some o
      → (on_entry limits root e s).settled ≡ some o
  unfolding on_entry
  on_entry-settled e s h =
      let safe = strip_here e.path in
      elim (ok_cases (assert_safe_archive_path safe root)) [
        | inr (m, bad) ↦ rw (bad, on_entry) (fail-settled m s h)
        | inl good ↦
            rw (good, on_entry) (entry-settled e.entry_type (get_or_default e.size 0) safe s h)
      ]

  on_event-settled :
      (e : Event) (s : Extraction)
      → s.settled ≡ some o
      → (on_event limits root e s).settled ≡ some o
  unfolding on_event on_written
  on_event-settled (entry e) s h = on_entry-settled e s h
  on_event-settled (written p) s h = finish-settled _ h
  on_event-settled (failed m) s h = fail-settled m s h
  on_event-settled ended s h = finish-settled s h

  -- The first outcome stays, whatever comes after it.
  pub extract-settled :
      (es : List Event) (s : Extraction)
      → s.settled ≡ some o
      → (extract limits root es s).settled ≡ some o
  unfolding extract
  extract-settled [] s h = h
  extract-settled (e ∷ es) s h = extract-settled es _ (on_event-settled e s h)

-- A regular file that passes all checks of the handler.
abbrev pub IsAccepted : UnpackLimits → List String → ReadEntry → Type 0
IsAccepted limits root e =
    (assert_safe_archive_path (strip_here e.path) root ≡ ok tt)
    × (e.entry_type ≡ a_file)
    × (1 ≤ limits.max_files)
    × (get_or_default e.size 0 ≤ limits.max_single_file_bytes)
    × (get_or_default e.size 0 ≤ limits.max_total_bytes)

on_entry-IsAccepted :
    (limits : UnpackLimits) (root : List String) (e : ReadEntry)
    → IsAccepted limits root e
    → on_entry limits root e start_extraction ≡ record start_extraction {
      total_bytes = 0 + get_or_default e.size 0;
      file_count = 1;
      pending_writes = 1;
      files = (strip_here e.path, get_or_default e.size 0) ∷ [];
    }
unfolding on_entry open_file
on_entry-IsAccepted limits root e (good, kind, a, b, c) =
    let few : ltb limits.max_files 1 ≡ false = ground arith in
    let small : ltb limits.max_single_file_bytes (get_or_default e.size 0) ≡ false = ground arith in
    let below : ltb limits.max_total_bytes (0 + get_or_default e.size 0) ≡ false = ground arith in
    rw (good, on_entry) (rw kind (rw (few, small, below) refl))

-- The extraction resolves as soon as the first file is written, where no other file was opened in
-- between, even if the archive goes on: the files that follow do not count for the manifest, and
-- an entry that is refused later does not reject it.
pub extract_early :
    (limits : UnpackLimits) (root : List String) (e : ReadEntry) (rest : List Event)
    → IsAccepted limits root e
    → (extract limits root (entry e ∷ written (strip_here e.path) ∷ rest) start_extraction).settled
      ≡ some (
          ok (
            if is_manifest_name (base_name (strip_here e.path))
            then strip_here e.path ∷ []
            else []))
unfolding extract on_event on_written finish
extract_early limits root e rest accepted =
    extract-settled limits root _ rest _
      (rw (on_entry-IsAccepted limits root e accepted, on_written) refl)
