-- ===== src/Package/Extract.antt =====
-- `extractArchive` and the checks of `unpackAgent` in sdk/src/package.ts. The tar parser and the file
-- streams call the handlers below; the order of their calls is a list of events. A path on disk is
-- the text behind the destination.
use open_agent_hub.Prelude.{
  String, Option, none, some, Bool, true, false, ◌&&◌, ◌||◌, not, if◌then◌else◌, List, [], ◌∷◌,
  ◌++◌, ℕ, ◌+◌, ◌-◌, ◌*◌, ltb, eqb, str_eq, code, split_on, concat, Result, ok, thrown, throw_if,
  ◌>>◌, ◌>>=◌, is_some, get_or_default, last,
}
use Prim.Native.String
use open_agent_hub.Package.Paths.{assert_safe_archive_path}
pub mod Limits
pub mod Settling

pub record UnpackLimits : Type 0 where
  pub max_total_bytes : ℕ
  pub max_single_file_bytes : ℕ
  pub max_files : ℕ

abbrev pub default_unpack_limits : UnpackLimits
default_unpack_limits = record {
  max_total_bytes = 200 * 1024 * 1024;
  max_single_file_bytes = 50 * 1024 * 1024;
  max_files = 5000;
}

pub data EntryType : Type 0 where
  a_directory a_file : EntryType
  another : String → EntryType

pub record ReadEntry : Type 0 where
  pub path : String
  pub entry_type : EntryType
  pub size : Option ℕ

-- What the closure of the promise keeps, and what it made on disk: files with their announced size,
-- and directories.
pub record Extraction : Type 0 where
  pub total_bytes : ℕ
  pub file_count : ℕ
  pub pending_writes : ℕ
  pub settled : Option (Result (List String))
  pub manifest_candidates : List String
  pub files : List (String × ℕ)
  pub directories : List String

abbrev pub start_extraction : Extraction
start_extraction = record {
  total_bytes = 0;
  file_count = 0;
  pending_writes = 0;
  settled = none;
  manifest_candidates = [];
  files = [];
  directories = [];
}

-- `fail`
unfoldable pub fail : String → Extraction → Extraction
fail message s = if is_some s.settled then s else record s { settled = some (thrown message) }

-- `finish`, without an error
unfoldable pub finish : Extraction → Extraction
finish s =
    if is_some s.settled
    then s
    else if eqb s.pending_writes 0
    then record s { settled = some (ok s.manifest_candidates) }
    else s

-- `entry.path.replace(/^\.\//, "")`
unfoldable pub strip_here : String → String
strip_here (String.◌∷◌ a (String.◌∷◌ b s)) =
    if eqb (code a) 46 && eqb (code b) 47 then s else String.◌∷◌ a (String.◌∷◌ b s)
strip_here s = s

-- a regular file that passed the path checks: counted, measured, and opened for writing
unfoldable pub open_file : UnpackLimits → String → ℕ → Extraction → Extraction
open_file limits safe size s =
    let counted = record s { file_count = s.file_count + 1 } in
    let measured = record counted { total_bytes = s.total_bytes + size } in
    if ltb limits.max_files counted.file_count
    then fail "too many files in archive" counted
    else if ltb limits.max_single_file_bytes size
    then fail (concat ("file too large in archive: " ∷ safe ∷ [])) counted
    else if ltb limits.max_total_bytes measured.total_bytes
    then fail "archive exceeds total size limit" measured
    else record measured { pending_writes = s.pending_writes + 1; files = (safe, size) ∷ s.files }

-- the handler of "entry"
unfoldable pub on_entry : UnpackLimits → List String → ReadEntry → Extraction → Extraction
on_entry limits root e s =
    let safe = strip_here e.path in
    elim (assert_safe_archive_path safe root) [
      | thrown message ↦ fail message s
      | ok _ ↦ elim e.entry_type [
        | a_directory ↦ record s { directories = safe ∷ s.directories }
        | a_file ↦ open_file limits safe (get_or_default e.size 0) s
        | another kind ↦
            fail (concat ("unsupported entry type '" ∷ kind ∷ "' in archive: " ∷ safe ∷ [])) s
      ]
    ]

-- `safe.split("/").pop()`
abbrev pub base_name : String → String
base_name safe = get_or_default (last (split_on 47 safe)) ""

abbrev pub is_manifest_name : String → Bool
is_manifest_name base = str_eq base "agent.yaml" || str_eq base "manifest.yaml"

-- The handler of "finish" of a written file. A file is written after it was opened, so the number of
-- pending writes does not fall below 0.
unfoldable pub on_written : String → Extraction → Extraction
on_written safe s =
    let found =
      if is_manifest_name (base_name safe)
      then s.manifest_candidates ++ safe ∷ []
      else s.manifest_candidates in
    finish (record s { pending_writes = s.pending_writes - 1; manifest_candidates = found })

-- The events. `failed` is an error of the parser, of the archive's stream, of an entry or of a file
-- that is written, which is also the event of an entry whose data exceeds the limit.
pub data Event : Type 0 where
  entry : ReadEntry → Event
  written : String → Event
  failed : String → Event
  ended : Event

unfoldable pub on_event : UnpackLimits → List String → Event → Extraction → Extraction
on_event limits root (entry e) s = on_entry limits root e s
on_event limits root (written safe) s = on_written safe s
on_event limits root (failed message) s = fail message s
on_event limits root ended s = finish s

unfoldable pub extract : UnpackLimits → List String → List Event → Extraction → Extraction
extract limits root [] s = s
extract limits root (e ∷ es) s = extract limits root es (on_event limits root e s)
