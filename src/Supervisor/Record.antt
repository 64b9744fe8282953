-- ===== src/Supervisor/Record.antt =====
-- The record of a run, the files of the directory of runs, and the usage database that follows them.
use open_agent_hub.Prelude.{
  String, Option, none, some, Bool, true, false, ◌&&◌, not, if◌then◌else◌, List, [], ◌∷◌, ℕ, Object,
  lookup, insert, remove, text_lt, keep, is_some, codes, concat,
}
use open_agent_hub.Usage.Store
use open_agent_hub.Usage.Tables.{UsageStore, RunFacts}
pub mod Files

pub data RunState : Type 0 where
  starting running stopping exited failed orphaned : RunState

pub data RunHealth : Type 0 where
  unknown ok unhealthy : RunHealth

pub data ExitReason : Type 0 where
  exit signal timeout oom manual_stop crashed container_gone supervisor_gone : ExitReason

pub data RestartPolicy : Type 0 where
  never always : RestartPolicy

pub data RunInterface : Type 0 where
  cli mcp http : RunInterface

pub data RunSandbox : Type 0 where
  container process no_sandbox : RunSandbox

-- `managed` is always true.
pub record RunRecord : Type 0 where
  pub run_id : String
  pub agent_key : String
  pub version : String
  pub interface_name : RunInterface
  pub sandbox : RunSandbox
  pub state : RunState
  pub pid : Option ℕ
  pub container_id : Option String
  pub port : Option ℕ
  pub health : RunHealth
  pub timeout_ms : Option ℕ
  pub restart_policy : RestartPolicy
  pub created_at : String
  pub started_at : String
  pub ended_at : Option String
  pub exit_code : Option ℕ
  pub exit_reason : Option ExitReason
  pub digest : Option String
  pub model_provider : Option String
  pub model_name : Option String

unfoldable pub state_name : RunState → String
state_name starting = "starting"
state_name running = "running"
state_name stopping = "stopping"
state_name exited = "exited"
state_name failed = "failed"
state_name orphaned = "orphaned"

unfoldable pub health_name : RunHealth → String
health_name unknown = "unknown"
health_name ok = "ok"
health_name unhealthy = "unhealthy"

unfoldable pub reason_name : ExitReason → String
reason_name exit = "exit"
reason_name signal = "signal"
reason_name timeout = "timeout"
reason_name oom = "oom"
reason_name manual_stop = "manual-stop"
reason_name crashed = "crashed"
reason_name container_gone = "container-gone"
reason_name supervisor_gone = "supervisor-gone"

interface_text : RunInterface → String
interface_text cli = "cli"
interface_text mcp = "mcp"
interface_text http = "http"

sandbox_text : RunSandbox → String
sandbox_text container = "container"
sandbox_text process = "process"
sandbox_text no_sandbox = "none"

map_option : {A B : Type 0} → (A → B) → Option A → Option B
map_option f none = none
map_option f (some a) = some (f a)

unfoldable pub to_run_facts : RunRecord → RunFacts
unfolding interface_text sandbox_text map_option state_name health_name reason_name
to_run_facts r = record {
  run_id = r.run_id;
  agent_key = r.agent_key;
  version = r.version;
  interface_name = interface_text r.interface_name;
  sandbox = sandbox_text r.sandbox;
  state = state_name r.state;
  health = health_name r.health;
  exit_code = r.exit_code;
  exit_reason = map_option reason_name r.exit_reason;
  model_provider = r.model_provider;
  model_name = r.model_name;
  container_id = r.container_id;
  created_at = r.created_at;
  started_at = r.started_at;
  ended_at = r.ended_at;
}

-- A file of the directory: a record, JSON that is no record (no identifier, or an unknown state), or
-- a text that does not parse.
pub data RunFile : Type 0 where
  record_file : RunRecord → RunFile
  foreign_file : RunFile
  broken_file : RunFile

-- The directory of runs, by run identifier, and the usage database. `usage_fails` says that the
-- database throws, which the supervisor ignores.
pub record World : Type 0 where
  pub files : Object RunFile
  pub usage : UsageStore
  pub usage_fails : Bool

abbrev as_record : Option RunFile → Option RunRecord
as_record (some (record_file r)) = some r
as_record _ = none

unfoldable pub read_run : World → String → Option RunRecord
read_run w id = as_record (lookup id w.files)

unfoldable pub sync_run_to_usage : World → RunRecord → World
sync_run_to_usage w r =
    if w.usage_fails then w else record w { usage = Store.sync_run w.usage (to_run_facts r) }

unfoldable pub write_run : World → RunRecord → World
unfolding sync_run_to_usage
write_run w r = sync_run_to_usage (record w { files = insert r.run_id (record_file r) w.files }) r

unfoldable pub remove_run : World → String → World
remove_run w id =
    let w' = record w { files = remove id w.files } in
    if w.usage_fails then w' else record w' { usage = (Store.prune_by_id w.usage id).0 }

-- `JSON.parse` of every file: a broken one ends the whole listing
all_parse : Object RunFile → Bool
all_parse [] = true
all_parse ((_, broken_file) ∷ fs) = false
all_parse ((_, _) ∷ fs) = all_parse fs

records : Object RunFile → List RunRecord
records [] = []
records ((_, record_file r) ∷ fs) = r ∷ records fs
records ((_, _) ∷ fs) = records fs

-- `sort((a, b) => (a.createdAt < b.createdAt ? -1 : 1))`
insert_by_age : RunRecord → List RunRecord → List RunRecord
insert_by_age r [] = r ∷ []
insert_by_age r (x ∷ xs) =
    if text_lt x.created_at r.created_at then x ∷ insert_by_age r xs else r ∷ x ∷ xs

by_age : List RunRecord → List RunRecord
by_age [] = []
by_age (r ∷ rs) = insert_by_age r (by_age rs)

unfoldable pub list_runs : World → List RunRecord
unfolding all_parse records by_age insert_by_age
list_runs w = if all_parse w.files then by_age (records w.files) else []

unfoldable pub is_active_state : RunState → Bool
is_active_state starting = true
is_active_state running = true
is_active_state stopping = true
is_active_state _ = false

unfoldable pub run_is_active : RunRecord → Bool
unfolding is_active_state
run_is_active r = is_active_state r.state
