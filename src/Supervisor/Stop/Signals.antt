-- ===== src/Supervisor/Stop/Signals.antt =====
-- What `stopRun` of cli/src/lib/supervisor.ts sends to a container or a process group, with
-- `killProcessGroup`. Whether the group is alive is seen once before the signal, at each look while
-- the command waits, and once after the deadline.
use open_agent_hub.Prelude.{
  ℕ, String, Option, none, some, Bool, true, false, not, if◌then◌else◌, List, [], ◌∷◌, ◌++◌, ◌≡◌,
  ◌≢◌, ◌↔◌, arith, eqb, In, Option-cases, inl, inr, truthy, get_or_default,
}
use open_agent_hub.Supervisor.Record.{RunRecord, run_is_active}
use open_agent_hub.Supervisor.Reconcile.{is_container}
use open_agent_hub.Supervisor.Stop.{container_of}

pub data Sent : Type 0 where
  docker_stop : String → Sent
  term_group kill_group : ℕ → Sent

-- A process group as `processGroupAlive` sees it.
pub record Group : Type 0 where
  pub before : Bool
  pub after : Bool

unfoldable pub kill_process_group : Group → ℕ → List Sent
kill_process_group group pid =
    (if group.before then term_group pid ∷ [] else [])
    ++ (if group.after then kill_group pid ∷ [] else [])

-- `if (record.pid)`
abbrev kill_pid : Group → Option ℕ → List Sent
kill_pid group none = []
kill_pid group (some pid) = if eqb pid 0 then [] else kill_process_group group pid

abbrev stop_container : Option String → List Sent
stop_container id = if truthy id then docker_stop (get_or_default id "") ∷ [] else []

-- what `stopRun` sends for a record that it has read and that is active
unfoldable pub stop_signals : Option String → Group → RunRecord → List Sent
unfolding kill_process_group container_of
stop_signals found group r =
    let to_container = stop_container (container_of r.container_id found) in
    let to_group = kill_pid group r.pid in
    if not (run_is_active r) then [] else if is_container r.sandbox then to_container else to_group

-- A process group is killed exactly if the run is an active one that is no container, whose process
-- is known and still alive after the deadline.
pub kill_group_iff :
    (found : Option String) (group : Group) (r : RunRecord) (pid : ℕ)
    → In (kill_group pid) (stop_signals found group r) ↔ (
        (run_is_active r ≡ true)
        × (is_container r.sandbox ≡ false)
        × (r.pid ≡ some pid)
        × (pid ≢ 0)
        × (group.after ≡ true))
unfolding stop_signals kill_process_group
kill_group_iff found group r pid = elim (Option-cases r.pid) [
  | inl e ↦ rw e (ground arith)
  | inr (p, e) ↦ rw e (ground arith)
]
