-- ===== src/Examples/Daemon.antt =====
-- The lock and the port of the daemon at concrete inputs.
use open_agent_hub.Control.Tail.{read_log_follow, strip_newline, read_log_follow_lem}
use open_agent_hub.Prelude.{
  ◌∷◌, arith, none, In, inl, inr, [], some, Bool, true, false, ◌≡◌, refl, ℕ, eqb, not, ok,
}
use open_agent_hub.Control.Daemon
use open_agent_hub.Control.Daemon.{Machine, DaemonState, Course, spawn_daemon, ensure_daemon}
use open_agent_hub.Control.Daemon.Starting.{IsStartedUnderLock, ensure_daemon-locked}

-- process 11 is dead
abbrev alive : ℕ → Bool
alive pid = not (eqb pid 11)

-- what is seen without a daemon, and with one that is ready
abbrev nothing_there : Machine
nothing_there = record {
  state = none;
  alive = λ pid. false;
  start_stamp = λ pid. none;
  is_windows = false;
  product_version = "1.0.0";
  protocol_version = 2;
  signal = λ pid. Daemon.no_process;
  healthy = λ port. false;
  ready_state = none;
}

abbrev ready : DaemonState
ready = record {
  pid = 42;
  start_identity = "today";
  port = 7001;
  product_version = "1.0.0";
  protocol_version = 2;
  started_at = "2026-02-01";
  health = Daemon.ready;
}

abbrev up : Machine
up = record nothing_there {
  state = some ready;
  alive = λ pid. true;
  start_stamp = λ pid. some "today";
  healthy = λ port. true;
  ready_state = some ready;
}

abbrev first_start : Course
first_start = record {
  enabled = true;
  first = nothing_there;
  first_later = nothing_there;
  lock_taken = true;
  rounds = [];
  locked = nothing_there;
  locked_later = nothing_there;
  port = ok 7001;
  spawned = up;
}

starts : In (spawn_daemon 7001) (ensure_daemon first_start).0
unfolding ensure_daemon Daemon.look_first Daemon.look_found Daemon.or_start Daemon.with_lock
    Daemon.start_locked Daemon.usable Daemon.start_found Daemon.stop_again Daemon.await_start
starts = inr (inr (inl refl))

ensure_daemon-locked_example : IsStartedUnderLock first_start 7001 (ensure_daemon first_start).0
ensure_daemon-locked_example = ensure_daemon-locked first_start 7001 starts

-- a line that is written while the file is read
read_log_follow_lem_example :
    read_log_follow
      (λ bytes. "new")
      (record { identity = "1:2"; content = 65 ∷ 10 ∷ 66 ∷ [] })
      (record { identity = "1:2"; content = 65 ∷ 10 ∷ 66 ∷ 10 ∷ [] })
      (record { identity = "1:2"; content = 65 ∷ 10 ∷ 66 ∷ 10 ∷ 67 ∷ [] })
      (record { offset = 2; identity = "1:2" })
    ≡ (record { offset = 5; identity = "1:2" }, some (strip_newline "new"))
read_log_follow_lem_example =
    read_log_follow_lem (λ bytes. "new") "1:2" (65 ∷ 10 ∷ []) (66 ∷ []) (10 ∷ []) (67 ∷ [])
      (λ e. ground arith)
