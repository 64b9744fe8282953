-- ===== src/Examples/Archives.antt =====
-- Archives and signatures at concrete inputs.
use open_agent_hub.Prelude.{
  String, Option, none, some, Bool, true, false, ◌≡◌, ◌≢◌, ◌↔◌, inl, inr, refl, arith, List, [],
  ◌∷◌, ◌++◌, ℕ, In, Result, ok, thrown, str_eq, any_code, eqb, if◌then◌else◌, eq_iff, eq_refl,
}
use open_agent_hub.Package.Paths.{assert_safe_archive_path, is_absolute, has_up, resolve}
use open_agent_hub.Package.Paths.Safe.{assert_safe_archive_path_iff}
use open_agent_hub.Package.Ignored
use open_agent_hub.Package.Ignored.{Entries, no_entries, list_project_files}
use open_agent_hub.Package.Ignored.Listed.{FileAt, keeps_path, list_project_files_iff}
use open_agent_hub.Package.Signature.{
  sign_archive, verify_signature_file, verify_signature_file_strict, sign_archive-verify,
}
use open_agent_hub.Package.Extract.{
  UnpackLimits, default_unpack_limits, ReadEntry, Event, entry, written, failed, ended,
  start_extraction, extract, Extraction, is_manifest_name, base_name, strip_here,
}
use open_agent_hub.Package.Extract
use open_agent_hub.Package.Extract.Limits.{IsWithin, extract-IsWithin}
use open_agent_hub.Package.Extract.Settling.{IsAccepted, extract_early}
use open_agent_hub.Examples.Data.{toy}

assert_safe_archive_path_iff_example :
    (assert_safe_archive_path "src\\..\\..\\x" ("agents" ∷ []) ≡ ok tt) ↔ (
      (str_eq "src\\..\\..\\x" "" ≡ false)
      × (any_code (λ c. eqb c 0) "src\\..\\..\\x" ≡ false)
      × (is_absolute "src\\..\\..\\x" ≡ false)
      × (has_up "src\\..\\..\\x" ≡ false)
      × ((more : List String) × (resolve ("agents" ∷ []) "src\\..\\..\\x"
            ≡ ("agents" ∷ []) ++ more)))
assert_safe_archive_path_iff_example = assert_safe_archive_path_iff "agents" [] "src\\..\\..\\x"

-- a project with a key in a directory
abbrev project : Entries
project =
    Ignored.a_directory "src" (Ignored.a_file "main.py" (Ignored.a_file "server.pem" no_entries))
      (Ignored.a_file "agent.yaml" no_entries)

list_project_files_iff_example :
    In ("src" ∷ "server.pem" ∷ []) (list_project_files project)
    ↔ (FileAt project ("src" ∷ "server.pem" ∷ []) × (keeps_path ("src" ∷ "server.pem" ∷ []) ≡ true))
list_project_files_iff_example = list_project_files_iff project ("src" ∷ "server.pem" ∷ [])

abbrev regular : String → ReadEntry
regular path = record { path = path; entry_type = Extract.a_file; size = some 10 }

extract-IsWithin_example : IsWithin default_unpack_limits ("agents" ∷ []) (
    extract default_unpack_limits
      ("agents" ∷ [])
      (entry (regular "/etc/passwd") ∷ entry (regular "main.py") ∷ ended ∷ [])
      start_extraction)
extract-IsWithin_example =
    extract-IsWithin default_unpack_limits ("agents" ∷ [])
      (entry (regular "/etc/passwd") ∷ entry (regular "main.py") ∷ ended ∷ [])

safe_main : assert_safe_archive_path (strip_here "./main.py") ("agents" ∷ []) ≡ ok tt
unfolding assert_safe_archive_path strip_here open_agent_hub.Prelude.split_where
    open_agent_hub.Prelude.prepend open_agent_hub.Package.Paths.escapes
    open_agent_hub.Package.Paths.path_text resolve open_agent_hub.Package.Paths.resolve_parts
safe_main = refl

accepted : IsAccepted default_unpack_limits ("agents" ∷ []) (regular "./main.py")
accepted = (safe_main, refl, ground arith, ground arith, ground arith)

extract_early_example :
    (extract default_unpack_limits
      ("agents" ∷ [])
      (entry (regular "./main.py")
        ∷ written (strip_here "./main.py")
        ∷ entry (regular "agent.yaml")
        ∷ written "agent.yaml"
        ∷ ended
        ∷ [])
      start_extraction).settled
    ≡ some (
        ok (
          if is_manifest_name (base_name (strip_here "./main.py"))
          then strip_here "./main.py" ∷ []
          else []))
extract_early_example =
    extract_early default_unpack_limits ("agents" ∷ []) (regular "./main.py")
      (entry (regular "agent.yaml") ∷ written "agent.yaml" ∷ ended ∷ []) accepted

toy_verifies : (payload : String) → str_eq payload payload ≡ true
toy_verifies payload = eq_refl payload

given_key : ◌≢◌ {A = String} "secret" ""
given_key e = ground (arith, eq_iff "secret" "")

sign_archive-verify_example :
    (verify_signature_file_strict toy
        (sign_archive toy "acme/weather" "1.2.0" "archive" "secret")
        "archive"
      ≡ ok tt)
    × ((other : String)
        → other ≢ "archive"
        → (verify_signature_file toy
              (sign_archive toy "acme/weather" "1.2.0" "archive" "secret")
              other
            ≡ false)
          × (verify_signature_file_strict toy
                (sign_archive toy "acme/weather" "1.2.0" "archive" "secret")
                other
              ≡ thrown "checksum mismatch: archive does not match signature"))
sign_archive-verify_example =
    sign_archive-verify toy "acme/weather" "1.2.0" "archive" "secret" toy_verifies given_key
