-- ===== src/Supervisor/Worker.antt =====
-- cli/src/commands/supervisor-run.ts: the worker that runs an agent and reports how it ended.
use open_agent_hub.Prelude.{
  String, Option, none, some, Bool, true, false, ◌&&◌, ◌||◌, not, if◌then◌else◌, List, [], ◌∷◌, ℕ,
  eqb, is_some, is_text, truthy, get_or_default,
}
use open_agent_hub.Usage.Store
use open_agent_hub.Usage.Tables
use open_agent_hub.Usage.Tables.{UsageSample, ResourceSample, Real}
use open_agent_hub.Supervisor.Record
use open_agent_hub.Supervisor.Record.{
  RunRecord, RunState, RunHealth, running, stopping, exited, failed, ExitReason, exit, timeout, oom,
  manual_stop, crashed, RunSandbox, container, World, read_run, write_run,
}
use open_agent_hub.Supervisor.Reconcile.{is_container}
use open_agent_hub.Supervisor.Stop.{is_stopping}
pub mod Endings

-- `readRun(record.runId) ?? record`
abbrev pub current : World → RunRecord → RunRecord
current w r = get_or_default (read_run w r.run_id) r

-- the first report: the record as it was read at the start, with the state "running"
unfoldable pub begin : World → RunRecord → World
begin w initial = write_run w (record initial { state = running })

-- `fail`, for a run that could not be prepared
unfoldable pub fail : String → World → RunRecord → World
fail now w r =
    let now_read = current w r in
    write_run w (record now_read {
      state = failed;
      exit_reason = some (if is_stopping now_read.state then manual_stop else crashed);
      exit_code = some 1;
      ended_at = some now;
    })

-- one round of the poller, which notes the identifier of the container
unfoldable pub poll_container : World → String → Option String → World
poll_container w id none = w
poll_container w id (some found) = elim (read_run w id) [
  | none ↦ w
  | some r ↦
      if is_text r.container_id found
      then w
      else write_run w (record r { container_id = some found })
]

abbrev is_manual : Option ExitReason → Bool
is_manual (some manual_stop) = true
is_manual _ = false

-- how a run ended, by the record, the time limit and the exit code
unfoldable pub end_reason : RunRecord → Bool → RunSandbox → ℕ → ExitReason
end_reason now_read timed_out sandbox code =
    if is_stopping now_read.state || is_manual now_read.exit_reason
    then manual_stop
    else if timed_out
    then timeout
    else if is_container sandbox && eqb code 137
    then oom
    else exit

abbrev is_manual_stop : ExitReason → Bool
is_manual_stop manual_stop = true
is_manual_stop _ = false

-- the record that `finalize` writes
unfoldable pub final_record : String → RunRecord → ℕ → ExitReason → RunRecord
final_record now r code reason = record r {
  state = if is_manual_stop reason then exited else if eqb code 0 then exited else failed;
  exit_code = some (if is_manual_stop reason then 0 else code);
  exit_reason = some reason;
  ended_at = some now;
}

-- What the worker reports beside the record: the usage lines that parsed, and a sample of the
-- container's resources.
pub record Report : Type 0 where
  pub samples : List UsageSample
  pub memory : Option ℕ
  pub cpu : Option Real
  pub stats_known : Bool

record_samples : String → String → Tables.UsageStore → List UsageSample → Tables.UsageStore
record_samples now id u [] = u
record_samples now id u (s ∷ ss) =
    record_samples now id (Store.record_usage now u (record s { run_id = id })) ss

-- `recordUsage` and `recordResourceSample`
unfoldable pub record_report : String → World → RunRecord → Report → World
unfolding record_samples
record_report now w r report =
    let u = record_samples now r.run_id w.usage report.samples in
    let id = (current w r).container_id in
    let sample : ResourceSample = record {
      run_id = r.run_id;
      mem_bytes = report.memory;
      cpu_percent = report.cpu;
      container_id = id;
      sampled_at = none;
    } in
    record w {
      usage =
          if truthy id && report.stats_known then Store.record_resource_sample now u sample else u;
    }

-- `finalize`: the first call reports the end; `finalizing` is set then, and later calls do nothing.
unfoldable pub finalize : String → Report → World → RunRecord → Bool → ℕ → ExitReason → World × Bool
finalize now report w r finalizing code reason =
    let w' = write_run w (final_record now (current w r) code reason) in
    if finalizing then (w, true) else (record_report now w' r report, true)

-- What `executeAgentRun` gave.
pub record Ended : Type 0 where
  pub code : ℕ
  pub timed_out : Bool
  pub sandbox : RunSandbox
  pub model_provider : String
  pub model_name : String

-- the answer of the HTTP probe, for a run with that interface and a port
abbrev pub report_health : World → RunRecord → Option RunHealth → World
report_health w r none = w
report_health w r (some h) = write_run w (record (current w r) { health = h })

-- the part of the worker behind a run that ended by itself
unfoldable pub complete :
    String → Report → World → RunRecord → Bool → Option RunHealth → Ended → World × Bool
complete now report before r finalizing health ended =
    let w = report_health before r health in
    let now_read = current w r in
    let reason = end_reason now_read ended.timed_out ended.sandbox ended.code in
    let w' = write_run w (record now_read {
      model_provider = some ended.model_provider;
      model_name = some ended.model_name;
    }) in
    finalize now report w' r finalizing ended.code reason
