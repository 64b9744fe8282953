-- ===== src/Supervisor/Reconcile.antt =====
-- `reconcileRun` and `reconcileRuns`: records are brought in line with what is alive. A probe says
-- what is.
use open_agent_hub.Prelude.{
  String, Option, none, some, Bool, true, false, ◌&&◌, not, if◌then◌else◌, List, [], ◌∷◌, ℕ, ◌+◌,
}
use open_agent_hub.Supervisor.Record
use open_agent_hub.Supervisor.Record.{
  RunRecord, RunState, exited, orphaned, RunSandbox, container, ExitReason, oom, signal, crashed,
  container_gone, supervisor_gone, run_is_active, World, write_run, list_runs,
}
pub mod Laws

pub record ContainerStatus : Type 0 where
  pub id : String
  pub running : Bool
  pub oom_killed : Bool

pub record RunProbe : Type 0 where
  pub is_alive : ℕ → Bool
  pub group_alive : ℕ → Bool
  pub container : String → Option ContainerStatus

ended : String → RunRecord → RunState → ExitReason → RunRecord
ended now r state reason = record r {
  state = state;
  exit_reason = some reason;
  ended_at = some now;
}

-- the branch of `reconcileRun` for a container
reconcile_container : String → RunRecord → Option ContainerStatus → RunRecord
reconcile_container now r none = ended now r exited container_gone
reconcile_container now r (some c) =
    if c.running
    then record r { container_id = some c.id }
    else ended now r exited (if c.oom_killed then oom else signal)

-- the branch for a process
reconcile_process : String → RunRecord → RunProbe → Option ℕ → RunRecord
reconcile_process now r probe none = ended now r exited crashed
reconcile_process now r probe (some pid) =
    if not (probe.is_alive pid) && not (probe.group_alive pid)
    then ended now r exited crashed
    else if not (probe.is_alive pid)
    then ended now r orphaned supervisor_gone
    else r

abbrev pub is_container : RunSandbox → Bool
is_container container = true
is_container _ = false

unfoldable pub reconcile_run : String → RunProbe → RunRecord → RunRecord
unfolding reconcile_container reconcile_process ended
reconcile_run now probe r =
    if not (run_is_active r)
    then r
    else if is_container r.sandbox
    then reconcile_container now r (probe.container r.run_id)
    else reconcile_process now r probe r.pid

unfoldable pub same_state : RunState → RunState → Bool
same_state Record.starting Record.starting = true
same_state Record.running Record.running = true
same_state Record.stopping Record.stopping = true
same_state Record.exited Record.exited = true
same_state Record.failed Record.failed = true
same_state Record.orphaned Record.orphaned = true
same_state _ _ = false

-- the loop of `reconcileRuns`: the records whose state changed are written
reconcile_each : String → RunProbe → World → ℕ → List RunRecord → World × ℕ
reconcile_each now probe w updated [] = (w, updated)
reconcile_each now probe w updated (r ∷ rs) =
    let next = reconcile_run now probe r in
    let changed = not (same_state next.state r.state) in
    reconcile_each now probe (if changed then write_run w next else w)
      (if changed then updated + 1 else updated) rs

unfoldable pub reconcile_runs : String → RunProbe → World → World × ℕ
unfolding reconcile_each
reconcile_runs now probe w = reconcile_each now probe w 0 (list_runs w)
