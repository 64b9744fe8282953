-- ===== src/Examples/Runs.antt =====
-- Runs under the supervisor at concrete inputs.
use open_agent_hub.Prelude.{
  String, Option, none, some, Bool, true, false, ◌≡◌, ◌≢◌, ◌↔◌, ◌⊎◌, inl, inr, refl, arith, List,
  [], ◌∷◌, ℕ, zero, suc, ◌≤◌, ◌<◌, ◌&&◌, str_eq, if◌then◌else◌, length, get_or_default, Result, ok,
  thrown, concat, truthy, eqb,
}
use open_agent_hub.Supervisor.Record
use open_agent_hub.Supervisor.Record.{
  RunRecord, RunState, RunHealth, running, stopping, exited, failed, starting, manual_stop,
  container, timeout, oom, World, read_run, write_run, run_is_active, state_name,
}
use open_agent_hub.Supervisor.Reconcile.{RunProbe, reconcile_run}
use open_agent_hub.Supervisor.Reconcile.Laws.{IsLive, reconcile_run-active_iff}
use open_agent_hub.Supervisor.Stop.{stopped_record, settle_run, stop_run}
use open_agent_hub.Supervisor.Stop.Settling.{quiet, settle_run-quiet}
use open_agent_hub.Supervisor.Stop.Race.{report_first, stop_run-begin}
use open_agent_hub.Supervisor.Worker.{Report, Ended, complete}
use open_agent_hub.Supervisor.Worker.Endings.{complete_lem, asked_to_stop}
use open_agent_hub.Supervisor.Start.{
  ManagedRunOptions, starting_record, start_managed_run, restart_run, restart_run_starts,
}
use open_agent_hub.Supervisor.Logs.{LogFiles, rotate_logs, rotate_logs_lem}
use open_agent_hub.Examples.Data.{managed, world_of}

abbrev nobody : RunProbe
nobody = record { is_alive = λ pid. false; group_alive = λ pid. false; container = λ id. none }

reconcile_run-active_iff_example :
    (run_is_active (reconcile_run "2026-01-02" nobody (managed running (some 7))) ≡ true)
    ↔ ((run_is_active (managed running (some 7)) ≡ true) × IsLive nobody (managed running (some 7)))
reconcile_run-active_iff_example =
    reconcile_run-active_iff "2026-01-02" nobody (managed running (some 7))

found_stopping : read_run (world_of (managed stopping none)) "r-9" ≡ some (managed stopping none)
unfolding read_run open_agent_hub.Prelude.lookup
found_stopping = refl

settle_run-quiet_example :
    settle_run "2026-01-02" "r-9"
      (managed stopping none)
      (world_of (managed stopping none))
      (quiet (false ∷ true ∷ []))
    ≡ (
      write_run
          (world_of (managed stopping none))
          (stopped_record "2026-01-02" (managed stopping none)),
      (true, stopped_record "2026-01-02" (managed stopping none)),
    )
settle_run-quiet_example =
    settle_run-quiet "2026-01-02" "r-9" (managed stopping none) (managed stopping none)
      (world_of (managed stopping none)) (false ∷ true ∷ []) found_stopping refl

found_running :
    read_run (world_of (managed running (some 7))) "r-9" ≡ some (managed running (some 7))
unfolding read_run open_agent_hub.Prelude.lookup
found_running = refl

active_running : run_is_active (managed running (some 7)) ≡ true
unfolding run_is_active
active_running = refl

stop_run-begin_example :
    (stop_run "2026-01-02" none
      (report_first (managed starting (some 7)) false ∷ [])
      (world_of (managed starting (some 7)))
      "r-9").1
    ≡ ok (true, managed running (some 7))
unfolding read_run open_agent_hub.Prelude.lookup run_is_active
stop_run-begin_example =
    stop_run-begin "2026-01-02" none (world_of (managed starting (some 7)))
      (managed starting (some 7)) false [] refl refl (λ e. ground arith)

abbrev no_report : Report
no_report = record { samples = []; memory = none; cpu = none; stats_known = false }

abbrev options : ManagedRunOptions
options = record {
  run_id = "r-9";
  agent_key = "acme/weather@1.2.0";
  version = "1.2.0";
  interface_name = Record.cli;
  sandbox = Record.process;
  port = none;
  timeout_ms = none;
  restart_policy = none;
  digest = none;
}

abbrev restarted : RunRecord
restarted = record (starting_record "2026-01-02" options) {
  pid = some 8;
  restart_policy = Record.always;
}

restarts :
    (restart_run "2026-01-02" none [] (some 8) (λ w. w) (world_of (managed exited none)) options).1
    ≡ ok (restarted, 8)
unfolding restart_run read_run open_agent_hub.Prelude.lookup run_is_active start_managed_run
    starting_record
restarts = refl

restart_run_starts_example :
    (old : RunRecord) × (read_run (world_of (managed exited none)) "r-9" ≡ some old)
    × (read_run
          (restart_run "2026-01-02" none []
            (some 8)
            (λ w. w)
            (world_of (managed exited none))
            options).0
          "r-9"
        ≡ some restarted)
    × (restarted ≡ record (starting_record "2026-01-02" options) {
      pid = some 8;
      restart_policy = old.restart_policy;
    })
    × ((run_is_active old ≡ false)
        ⊎ ((b : Bool) × (last : RunRecord) × ((stop_run "2026-01-02" none []
                (world_of (managed exited none))
                "r-9").1
              ≡ ok (b, last))
            × (run_is_active last ≡ false)))
restart_run_starts_example =
    restart_run_starts "2026-01-02" none [] (some 8) (λ w. w) (world_of (managed exited none))
      options restarts

-- a log of two bytes, and one older file
abbrev two_files : LogFiles
two_files zero = some (1 ∷ 2 ∷ [])
two_files (suc zero) = some (3 ∷ [])
two_files (suc (suc k)) = none

rotate_logs_lem_example :
    (two_files zero ≡ none → rotate_logs 2 3 two_files ≡ two_files)
    × ((log : List ℕ)
        → two_files zero ≡ some log
        → (length log < 2 → rotate_logs 2 3 two_files ≡ two_files)
          × (2 ≤ length log
              → 0 < 2
              → (rotate_logs 2 3 two_files zero ≡ none)
                × ((k : ℕ)
                    → (k < 2 → rotate_logs 2 3 two_files (suc k) ≡ two_files k)
                      × (2 ≤ k → rotate_logs 2 3 two_files (suc k) ≡ two_files (suc k)))))
rotate_logs_lem_example = rotate_logs_lem 2 2 two_files

abbrev ended_badly : Ended
ended_badly = record {
  code = 137;
  timed_out = false;
  sandbox = container;
  model_provider = "openai";
  model_name = "gpt-4o-mini";
}

-- the record of a run that ended with the code 137 in a container
abbrev out_of_memory : RunRecord
out_of_memory = record (managed running (some 7)) {
  state = failed;
  ended_at = some "2026-01-02";
  exit_code = some 137;
  exit_reason = some oom;
  model_provider = some "openai";
  model_name = some "gpt-4o-mini";
}

complete_lem_example :
    (asked_to_stop (managed running (some 7)) ≡ true
      → read_run
          (complete "2026-01-02" no_report
            (world_of (managed running (some 7)))
            (managed running (some 7))
            false
            none
            ended_badly).0
          "r-9"
        ≡ some (record out_of_memory {
          state = exited;
          exit_code = some 0;
          exit_reason = some manual_stop;
        }))
    × (asked_to_stop (managed running (some 7)) ≡ false
        → read_run
            (complete "2026-01-02" no_report
              (world_of (managed running (some 7)))
              (managed running (some 7))
              false
              none
              ended_badly).0
            "r-9"
          ≡ some out_of_memory)
complete_lem_example =
    complete_lem "2026-01-02" no_report (world_of (managed running (some 7)))
      (managed running (some 7)) (managed running (some 7)) none ended_badly found_running refl
