-- ===== src/Sandbox/Container.antt =====
-- runtime/src/sandbox/container.ts: the arguments that `docker` is started with. `Host` holds what
-- the program reads from its surroundings: three variables, SHA-256 in hexadecimal, and the path of
-- the temporary file for secrets.
use open_agent_hub.Prelude.{
  String, Option, none, some, Bool, true, false, ◌&&◌, ◌||◌, not, if◌then◌else◌, List, [], ◌∷◌,
  ◌++◌, ℕ, ◌+◌, ◌-◌, Char, code, eqb, leb, keep, map, includes, concat, join, codes, contains_codes,
  Object, truthy, get_or_default, is_some, any, str_eq, Result, ok, thrown, ◌>>=◌, ◌>>◌, throw_if,
}
use open_agent_hub.Manifest
use open_agent_hub.Manifest.{Dependencies, RuntimeLanguage}
use open_agent_hub.Sandbox.Spec.{SandboxSpec}
use open_agent_hub.Sandbox.Process.{has_items}
pub mod Environment

pub record Host : Type 0 where
  pub image_digest_python : Option String
  pub image_digest_node : Option String
  pub runtime_version : Option String
  pub sha256_prefix : List ℕ → String
  pub env_file_path : String

image_tag_other : String
image_tag_other = "python:3.12-slim"

-- `IMAGE_TAGS[language] ?? IMAGE_TAGS.other`
unfoldable pub image_tag : RuntimeLanguage → String
unfolding image_tag_other
image_tag Manifest.python = "python:3.12-slim"
image_tag Manifest.node = "node:22-bookworm-slim"
image_tag _ = image_tag_other

image_digest : Host → RuntimeLanguage → String
image_digest host Manifest.node = get_or_default host.image_digest_node ""
image_digest host _ = get_or_default host.image_digest_python ""

unfoldable pub resolve_image : Host → RuntimeLanguage → String
unfolding image_tag image_digest
resolve_image host lang =
    let digest = image_digest host lang in
    if str_eq digest "" then image_tag lang else concat (image_tag lang ∷ "@" ∷ digest ∷ [])

-- `toLowerCase`, on the letters that names and versions of packages have
abbrev lower : ℕ → ℕ
lower c = if leb b'A' c && leb c b'Z' then c + 32 else c

-- `replace(/[^a-z0-9@._-]/g, "-")`
abbrev slug_code : ℕ → ℕ
slug_code c =
    if (leb b'a' c && leb c b'z')
      || (leb b'0' c && leb c b'9')
      || eqb c b'@'
      || eqb c b'.'
      || eqb c b'_'
      || eqb c b'-'
    then c
    else b'-'

unfoldable pub deps_volume_name : Host → SandboxSpec → String
deps_volume_name host spec =
    let name = concat (spec.manifest.name ∷ "@" ∷ spec.manifest.version ∷ []) in
    let slug = map (λ c. slug_code (lower c)) (codes name) in
    concat ("oah-deps-" ∷ host.sha256_prefix slug ∷ [])

label : String → String → List String
label k v = "--label" ∷ concat (k ∷ "=" ∷ v ∷ []) ∷ []

label_flags : Host → SandboxSpec → List String
unfolding label
label_flags host spec =
    label "oah.manager"
      (concat ("openagenthub-runtime-" ∷ get_or_default host.runtime_version "0.x" ∷ []))
    ++ (label "oah.package" spec.manifest.name
        ++ (label "oah.version" spec.manifest.version
            ++ (label "oah.sandbox" "container"
                ++ (label "oah.run_id" (get_or_default spec.run_id "unknown")
                    ++ (label "oah.interface" (get_or_default spec.interface_name "cli")
                        ++ label "oah.digest" (get_or_default spec.package_digest "unknown"))))))

-- the flags that every container gets
abbrev pub hardening : List String
hardening =
    "--rm" ∷ "--cap-drop" ∷ "ALL" ∷ "--security-opt" ∷ "no-new-privileges" ∷ "--pids-limit" ∷ "256"
    ∷ "--memory" ∷ "512m" ∷ "--cpus" ∷ "1" ∷ "--user" ∷ "10001:10001" ∷ []

network_flags : SandboxSpec → List String
network_flags spec = if spec.network then [] else "--network" ∷ "none" ∷ []

file_flags : SandboxSpec → List String
file_flags spec =
    if includes "filesystem" spec.granted
    then "--tmpfs" ∷ "/work:rw,size=64m" ∷ []
    else "--read-only" ∷ "--tmpfs" ∷ "/tmp:rw,size=32m" ∷ []

unfoldable pub base_flags : Host → SandboxSpec → List String
unfolding label_flags network_flags file_flags
base_flags host spec =
    hardening ++ (label_flags host spec ++ (network_flags spec ++ file_flags spec))

-- `${k}=${v}`
abbrev pub assignment : String × String → String
assignment e = concat (e.0 ∷ "=" ∷ e.1 ∷ [])

unfoldable pub env_flags_of : Object String → List String
env_flags_of [] = []
env_flags_of (e ∷ es) = "--env" ∷ assignment e ∷ env_flags_of es

unfoldable pub env_flags : SandboxSpec → List String
unfolding env_flags_of
env_flags spec = env_flags_of spec.env

mount_flags : SandboxSpec → List String
mount_flags spec =
    "--volume" ∷ concat (spec.agent_dir ∷ ":/app:ro" ∷ []) ∷ "--workdir" ∷ "/app" ∷ []

abbrev is_python : RuntimeLanguage → Bool
is_python Manifest.python = true
is_python _ = false

resolve_command : SandboxSpec → String → String
resolve_command spec cmd =
    let env_line =
      if is_python spec.manifest.runtime.language
      then "export PYTHONPATH=/deps"
      else "export NODE_PATH=/deps/node_modules" in
    concat ("set -e; " ∷ env_line ∷ "; cd /app && " ∷ cmd ∷ [])

unfoldable pub build_run_args : Host → SandboxSpec → String → Option String → List String
unfolding mount_flags resolve_command
build_run_args host spec command env_file =
    let flags : List String = elim env_file [
      | none ↦ env_flags spec
      | some path ↦ "--env-file" ∷ path ∷ []
    ] in
    "run"
    ∷ "--interactive"
    ∷ (base_flags host spec
        ++ (flags
            ++ (mount_flags spec
                ++ ("--volume"
                    ∷ concat (deps_volume_name host spec ∷ ":/deps" ∷ [])
                    ∷ resolve_image host spec.manifest.runtime.language
                    ∷ "/bin/sh"
                    ∷ "-c"
                    ∷ resolve_command spec command
                    ∷ []))))

abbrev upper : ℕ → ℕ
upper c = if leb b'a' c && leb c b'z' then c - 32 else c

-- `/SECRET|TOKEN|KEY|PASSWORD/i.test(k)`
unfoldable pub is_secret_name : String → Bool
is_secret_name k =
    let name = map upper (codes k) in
    any (λ word. contains_codes (codes word) name) ("SECRET" ∷ "TOKEN" ∷ "KEY" ∷ "PASSWORD" ∷ [])

abbrev pub secret_entries : Object String → Object String
secret_entries env = keep (λ (e : String × String). is_secret_name e.0) env

-- `writeEnvFile`: the path and the text of the file, if one is written
unfoldable pub write_env_file : Host → SandboxSpec → Option (String × String)
write_env_file host spec = elim (secret_entries spec.env) [
  | [] ↦ none
  | e ∷ es ↦ some (host.env_file_path, join "\n" (map assignment (e ∷ es)))
]

abbrev pub path_of : Option (String × String) → Option String
path_of none = none
path_of (some (path, text)) = some path

-- What `run` and `runInteractive` start, and the file that stands beside it meanwhile.
unfoldable pub run : Host → SandboxSpec → String → List String × Option (String × String)
unfolding write_env_file
run host spec command =
    let file = write_env_file host spec in (build_run_args host spec command (path_of file), file)

-- `quote`: each `'` becomes `'\''`
quote_codes : String → String
quote_codes String.[] = ""
quote_codes (String.◌∷◌ c s) =
    let rest = quote_codes s in
    if eqb (code c) b'\'' then concat ("'\\''" ∷ rest ∷ []) else String.◌∷◌ c rest

quote : String → String
unfolding quote_codes
quote s = concat ("'" ∷ quote_codes s ∷ "'" ∷ [])

abbrev no_dependencies : Dependencies
no_dependencies = record { pip = none; npm = none; system = none }

-- `deps.pip!.map(quote)`: a TypeError where the list is absent
quoted : Option (List String) → Result (List String)
quoted none = thrown "Cannot read properties of undefined (reading 'map')"
quoted (some xs) = ok (map quote xs)

install_command : SandboxSpec → Dependencies → Result String
unfolding quote quoted
install_command spec deps =
    if is_python spec.manifest.runtime.language
    then (do
      items ← quoted deps.pip
      ok (concat ("pip install --no-cache-dir --target /deps " ∷ join " " items ∷ [])))
    else (do
      items ← quoted deps.npm
      ok (
          concat
            ("npm install --prefix /deps --no-audit --no-fund --silent " ∷ join " " items ∷ [])))

install_run_args : Host → SandboxSpec → String → List String
install_run_args host spec cmd =
    "run"
    ∷ (base_flags host spec
        ++ (env_flags spec
            ++ ("--volume"
                ∷ concat (deps_volume_name host spec ∷ ":/deps" ∷ [])
                ∷ resolve_image host spec.manifest.runtime.language
                ∷ "/bin/sh"
                ∷ "-c"
                ∷ cmd
                ∷ [])))

install_work : Host → SandboxSpec → Dependencies → Result (Option (List String))
install_work host spec deps = do
  throw_if (not spec.network) "agent declares dependencies but network permission was not granted"
  cmd ← install_command spec deps
  ok (some (install_run_args host spec cmd))

-- The run that installs the dependencies, if there are any: `none` when there is nothing to do.
-- The checks that the image is there, and the clean-up after a failure, are left to the caller.
unfoldable pub install_args : Host → SandboxSpec → Result (Option (List String))
unfolding install_work install_command install_run_args
install_args host spec =
    let deps = get_or_default spec.manifest.dependencies no_dependencies in
    if has_items deps.pip || has_items deps.npm then install_work host spec deps else ok none
