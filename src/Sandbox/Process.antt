-- ===== src/Sandbox/Process.antt =====
-- runtime/src/sandbox/process.ts: the path without a container. Commands are split into words and
-- started without a shell.
use open_agent_hub.Prelude.{
  String, Option, none, some, Bool, true, false, ◌&&◌, ◌||◌, not, if◌then◌else◌, List, [], ◌∷◌,
  ◌++◌, ℕ, eqb, leb, keep, find, str_eq, split_where, any_code, concat, Result, ok, thrown, ◌>>=◌,
  ◌>>◌, throw_if, get_or_default, length, is_some, ltb,
}
use open_agent_hub.Manifest
use open_agent_hub.Manifest.{Dependencies, RuntimeLanguage}
use open_agent_hub.Sandbox.Spec.{SandboxSpec}
use open_agent_hub.Sandbox.Policy.{TrustLevel, trusted, local, untrusted, unknown}
pub mod Words
pub mod Install

-- `\s` of a regular expression
unfoldable pub is_space : ℕ → Bool
is_space c =
    (leb 9 c && leb c 13)
    || eqb c 32
    || eqb c 160
    || eqb c 0x1680
    || (leb 0x2000 c && leb c 0x200a)
    || eqb c 0x2028
    || eqb c 0x2029
    || eqb c 0x202f
    || eqb c 0x205f
    || eqb c 0x3000
    || eqb c 0xfeff

-- the class `[;&|<>`$()]`
unfoldable pub is_metacharacter : ℕ → Bool
is_metacharacter c =
    eqb c b';'
    || eqb c b'&'
    || eqb c b'|'
    || eqb c b'<'
    || eqb c b'>'
    || eqb c b'`'
    || eqb c b'$'
    || eqb c b'('
    || eqb c b')'

unfoldable pub is_nonempty : String → Bool
is_nonempty s = not (str_eq s "")

-- `command.trim().split(/\s+/).filter(Boolean)`: the runs between white space that are not empty
unfoldable pub words : String → List String
words command = keep is_nonempty (split_where is_space command)

abbrev pub metacharacter_error : String → String
metacharacter_error t =
    concat ("shell metacharacters are not allowed on the process sandbox path: '" ∷ t ∷ "'" ∷ [])

-- the checks of `splitCommand` on the words
unfoldable pub check_tokens : List String → Result (List String)
check_tokens [] = thrown "empty command"
check_tokens (w ∷ ws) = elim (find (any_code is_metacharacter) (w ∷ ws)) [
  | some t ↦ thrown (metacharacter_error t)
  | none ↦ ok (w ∷ ws)
]

unfoldable pub split_command : String → Result (List String)
unfolding check_tokens
split_command command = check_tokens (words command)

pub record ProcessSandbox : Type 0 where
  pub spec : SandboxSpec
  pub python_bin : String
  pub prepared : Bool

abbrev pub unprepared : SandboxSpec → String → ProcessSandbox
unprepared spec bin = record { spec = spec; python_bin = bin; prepared = false }

-- the constructor, which takes trusted and local agents alone
unfoldable pub new_process_sandbox : SandboxSpec → TrustLevel → String → Result ProcessSandbox
new_process_sandbox spec trusted bin = ok (unprepared spec bin)
new_process_sandbox spec local bin = ok (unprepared spec bin)
new_process_sandbox spec _ bin =
    thrown
      "ProcessSandbox requires a 'trusted' or 'local' agent; untrusted/unknown agents must use container isolation"

abbrev is_python : RuntimeLanguage → Bool
is_python Manifest.python = true
is_python _ = false

abbrev is_node : RuntimeLanguage → Bool
is_node Manifest.node = true
is_node _ = false

-- `deps && deps.length > 0`
abbrev pub has_items : Option (List String) → Bool
has_items none = false
has_items (some xs) = ltb 0 (length xs)

abbrev no_dependencies : Dependencies
no_dependencies = record { pip = none; npm = none; system = none }

-- A program to start, with its arguments; starting it may throw.
abbrev pub Exec : Type 0
Exec = List String → Result (Unit {0})

-- `path.join` of parts that are plain names
unfoldable pub join_path : String → String → String
join_path dir name = concat (dir ∷ "/" ∷ name ∷ [])

wrap_venv : Result (Unit {0}) → Result (Unit {0})
wrap_venv (ok u) = ok u
wrap_venv (thrown e) = thrown (concat ("failed to create virtual environment: " ∷ e ∷ []))

install_python : ProcessSandbox → List String → Exec → Result (Unit {0})
unfolding wrap_venv
install_python b pip exec = do
  throw_if (not b.spec.network)
      "agent declares pip dependencies but network permission was not granted"
  wrap_venv (exec (b.python_bin ∷ "-m" ∷ "venv" ∷ join_path b.spec.agent_dir ".venv" ∷ []))
  exec (
      join_path (join_path (join_path b.spec.agent_dir ".venv") "bin") "pip"
      ∷ "install"
      ∷ "--disable-pip-version-check"
      ∷ "--quiet"
      ∷ pip)

install_node : ProcessSandbox → List String → Exec → Result (Unit {0})
install_node b npm exec = do
  throw_if (not b.spec.network)
      "agent declares npm dependencies but network permission was not granted"
  exec ("npm" ∷ "install" ∷ "--no-audit" ∷ "--no-fund" ∷ "--silent" ∷ npm)

install : ProcessSandbox → Exec → Result (Unit {0})
unfolding install_python install_node
install b exec =
    let deps = get_or_default b.spec.manifest.dependencies no_dependencies in
    let lang = b.spec.manifest.runtime.language in
    if is_python lang && has_items deps.pip
    then install_python b (get_or_default deps.pip []) exec
    else if is_node lang && has_items deps.npm
    then install_node b (get_or_default deps.npm []) exec
    else ok tt

unfoldable pub prepare : ProcessSandbox → Exec → Result ProcessSandbox
unfolding install
prepare b exec = if b.prepared then ok b else do install b exec; ok (record b { prepared = true })

-- What `run` and `runInteractive` hand to `spawn`: the program and its arguments.
unfoldable pub start : ProcessSandbox → Exec → String → Result (ProcessSandbox × List String)
start b exec command = do ready ← prepare b exec; tokens ← split_command command; ok (ready, tokens)
