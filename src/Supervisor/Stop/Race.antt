-- ===== src/Supervisor/Stop/Race.antt =====
-- `stopRun` beside the first report of the worker.
use open_agent_hub.Prelude.{
  String, Option, some, Bool, true, ◌≡◌, arith, refl, List, ◌∷◌, ok, truthy,
}
use open_agent_hub.Supervisor.Record.{
  RunRecord, running, stopping, container, World, read_run, write_run, run_is_active,
}
use open_agent_hub.Supervisor.Record.Files.{read_run-write_run_self}
use open_agent_hub.Supervisor.Stop.{Round, settle_run, container_of, stop_run}
use open_agent_hub.Supervisor.Worker.{begin}

-- the worker's first report falls behind the command's own write
abbrev pub report_first : RunRecord → Bool → Round
report_first initial dead = record { others = λ w. begin w initial; dead = dead }

settle_run-begin :
    (now : String) (fallback : RunRecord) (w : World) (old : RunRecord) (dead : Bool)
    (rounds : List Round)
    → settle_run now old.run_id fallback w (report_first old dead ∷ rounds)
      ≡ (begin w old, (true, record old { state = running }))
unfolding settle_run begin
settle_run-begin now fallback w old dead rounds =
    rw (read_run-write_run_self w (record old { state = running }), settle_run) refl

-- For an active run that is no container, or whose container's id is known to its record or to
-- docker: a worker that read its record before the command marked it "stopping" writes the record
-- back as "running"; the command then answers that the run is stopped, with a record that is running.
pub stop_run-begin :
    (now : String) (found : Option String) (w : World) (old : RunRecord) (dead : Bool)
    (rounds : List Round)
    → read_run w old.run_id ≡ some old
    → run_is_active old ≡ true
    → (old.sandbox ≡ container → truthy (container_of old.container_id found) ≡ true)
    → (stop_run now found (report_first old dead ∷ rounds) w old.run_id).1
      ≡ ok (true, record old { state = running })
unfolding stop_run
stop_run-begin now found w old dead rounds e active known =
    rw (e, stop_run)
      (ground (
        arith,
        settle_run-begin now (record old { state = stopping })
            (write_run w (record old { state = stopping })) old dead rounds,
      ))
