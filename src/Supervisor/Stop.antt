-- ===== src/Supervisor/Stop.antt =====
-- `stopRun` and `settleRun`. What others do while the command waits is a
-- list of rounds: each says how the files changed since the last look, and whether the run is seen
-- dead. The list ends when the deadline has passed.
use open_agent_hub.Prelude.{
  String, Option, none, some, Bool, true, false, ◌&&◌, not, if◌then◌else◌, List, [], ◌∷◌, ℕ, Result,
  ok, thrown, concat, truthy, get_or_default, or_else,
}
use open_agent_hub.Supervisor.Record
use open_agent_hub.Supervisor.Record.{
  RunRecord, RunState, starting, running, stopping, exited, container, manual_stop, World, read_run,
  write_run, run_is_active, state_name,
}
use open_agent_hub.Supervisor.Reconcile.{is_container}
pub mod Settling
pub mod Race
pub mod Signals

pub record Round : Type 0 where
  pub others : World → World
  pub dead : Bool

abbrev pub is_stopping : RunState → Bool
is_stopping stopping = true
is_stopping _ = false

-- the record of a run that was stopped by hand
abbrev pub stopped_record : String → RunRecord → RunRecord
stopped_record now r = record r {
  state = exited;
  exit_code = some 0;
  exit_reason = some manual_stop;
  ended_at = some now;
}

-- what one look at the record decides: the final world and answer, or another round
abbrev look : String → Bool → World → Option RunRecord → Option (World × (Bool × RunRecord))
look now dead w none = none
look now dead w (some r) =
    if not (is_stopping r.state)
    then some (w, (true, r))
    else if dead
    then some (write_run w (stopped_record now r), (true, stopped_record now r))
    else none

unfoldable pub settle_run :
    String → String → RunRecord → World → List Round → World × (Bool × RunRecord)
settle_run now id fallback w [] =
    let r = get_or_default (read_run w id) fallback in (w, (not (run_is_active r), r))
settle_run now id fallback w (round ∷ rounds) =
    let w' = round.others w in
    elim (look now round.dead w' (read_run w' id)) [
      | some answer ↦ answer
      | none ↦ settle_run now id fallback w' rounds
    ]

-- `containerId`, or else the one that docker knows under the label of the run
unfoldable pub container_of : Option String → Option String → Option String
container_of known found = if truthy known then known else found

-- `stopRun`; `found` is the container that docker would name for the run, which counts only for a
-- container whose id its record does not know. The files change also where it throws. What is sent
-- to the container or the process group is in Signals; what these do about it is in the rounds.
unfoldable pub stop_run :
    String → Option String → List Round → World → String → World × Result (Bool × RunRecord)
stop_run now found rounds w id = elim (read_run w id) [
  | none ↦ (w, thrown (concat ("run " ∷ id ∷ " not found" ∷ [])))
  | some old ↦
      let r = record old { state = stopping } in
      let w' = write_run w r in
      let missing = is_container r.sandbox && not (truthy (container_of r.container_id found)) in
      let (w'', answer) = settle_run now id r w' rounds in
      if not (run_is_active old)
      then (
        w,
        thrown
            (concat ("run " ∷ id ∷ " is not running (state: " ∷ state_name old.state ∷ ")" ∷ [])),
      )
      else if missing
      then (
        write_run w' (record r { state = running }),
        thrown (
            concat ("run " ∷ id ∷ " has no matching container (label oah.run_id=" ∷ id ∷ ")" ∷ [])),
      )
      else (w'', ok answer)
]
