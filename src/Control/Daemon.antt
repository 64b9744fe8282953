-- ===== src/Control/Daemon.antt =====
-- `ensureDaemon`, `stopDaemon` and `restartDaemon` of cli/src/lib/control-plane.ts. What the code sees
-- at a moment is a Machine; a call that waits is followed by a later one. What the code does to the
-- outside is a list of effects. Messages are shortened where they name a port or a path.
use open_agent_hub.Prelude.{
  ℕ, String, Option, none, some, Bool, true, false, ◌&&◌, ◌||◌, not, if◌then◌else◌, List, [], ◌∷◌,
  ◌++◌, leb, ltb, str_eq, is_text, get_or_default, concat, Result, ok, thrown,
}
pub mod Starting
pub mod Second

pub data DaemonHealth : Type 0 where
  starting ready stopped : DaemonHealth

pub record DaemonState : Type 0 where
  pub pid : ℕ
  pub start_identity : String
  pub port : ℕ
  pub product_version : String
  pub protocol_version : ℕ
  pub started_at : String
  pub health : DaemonHealth

-- `process.kill(pid, "SIGTERM")`: sent, or ESRCH, or another error
pub data Signal : Type 0 where
  sent no_process refused : Signal

-- What is seen at a moment: the state file, the processes and when they started, the version of the
-- product and of the protocol, the answers of waitForHealth and waitForReadyState.
pub record Machine : Type 0 where
  pub state : Option DaemonState
  pub alive : ℕ → Bool
  pub start_stamp : ℕ → Option String
  pub is_windows : Bool
  pub product_version : String
  pub protocol_version : ℕ
  pub signal : ℕ → Signal
  pub healthy : ℕ → Bool
  pub ready_state : Option DaemonState

pub data Effect : Type 0 where
  clear_state take_lock free_lock rotate_logs : Effect
  terminate spawn_daemon : ℕ → Effect

unfoldable pub identity_matches : Machine → DaemonState → Bool
identity_matches m state =
    m.alive state.pid && (m.is_windows || is_text (m.start_stamp state.pid) state.start_identity)

unfoldable pub daemon_needs_restart : Machine → DaemonState → Bool
daemon_needs_restart m state =
    ltb state.protocol_version m.protocol_version
    || not (str_eq state.product_version m.product_version)

-- for a number that is an integer
unfoldable pub valid_port : ℕ → Bool
valid_port value = leb 1 value && leb value 65535

pub data StopDaemonOutcome : Type 0 where
  stopped stale failed : StopDaemonOutcome

-- what the wait for the process ends with
unfoldable pub stop_outcome : Machine → DaemonState → StopDaemonOutcome
stop_outcome after state =
    if after.alive state.pid then StopDaemonOutcome.failed else StopDaemonOutcome.stopped

unfoldable pub signal_outcome : Machine → DaemonState → Signal → StopDaemonOutcome
signal_outcome after state sent = stop_outcome after state
signal_outcome after state no_process = stale
signal_outcome after state refused = StopDaemonOutcome.failed

unfoldable pub stop_found :
    Machine → Machine → Option DaemonState → List Effect × (StopDaemonOutcome × Option DaemonState)
stop_found m after none = ([], (StopDaemonOutcome.stopped, none))
stop_found m after (some state) =
    if identity_matches m state
    then (terminate state.pid ∷ [], (signal_outcome after state (m.signal state.pid), some state))
    else (clear_state ∷ [], (stale, some state))

-- `after` is seen when the wait ends.
unfoldable pub stop_daemon :
    Machine → Machine → List Effect × (StopDaemonOutcome × Option DaemonState)
stop_daemon m after = stop_found m after m.state

pub record EnsureResult : Type 0 where
  pub state : DaemonState
  pub started : Bool

-- The course of a start: what is seen first, and after the daemon was stopped or its health awaited;
-- whether the lock is free; the rounds of waiting for another start; what is seen under the lock,
-- and when a daemon was stopped there; the port that is chosen; and what is seen after the start.
pub record Course : Type 0 where
  pub enabled : Bool
  pub first : Machine
  pub first_later : Machine
  pub lock_taken : Bool
  pub rounds : List Machine
  pub locked : Machine
  pub locked_later : Machine
  pub port : Result ℕ
  pub spawned : Machine

-- the answer with the daemon that runs
abbrev pub running : Machine → DaemonState → EnsureResult
running m state = record { state = get_or_default m.ready_state state; started = false }

-- A daemon that is found before the lock is tried is answered, or stopped, or forgotten.
unfoldable pub look_found :
    Machine → Machine → Option DaemonState → List Effect × Option EnsureResult
look_found m later none = ([], none)
look_found m later (some existing) =
    if not (identity_matches m existing)
    then ([], none)
    else if daemon_needs_restart m existing
    then ((stop_daemon m later).0 ++ clear_state ∷ [], none)
    else if m.healthy existing.port
    then ([], some (running m existing))
    else if not (later.alive existing.pid)
    then (clear_state ∷ [], none)
    else ([], none)

unfoldable pub look_first : Machine → Machine → List Effect × Option EnsureResult
look_first m later = look_found m later m.state

-- another start is in progress
unfoldable pub await_rival : List Machine → Result EnsureResult
await_rival [] = thrown "another control plane start is in progress but never became healthy"
await_rival (m ∷ ms) =
    let rest = await_rival ms in
    elim m.state [
      | none ↦ rest
      | some rival ↦ if m.healthy rival.port then ok (running m rival) else rest
    ]

-- a daemon that matches, is current and healthy
unfoldable pub usable : Machine → Option DaemonState → Option DaemonState
usable m none = none
usable m (some again) =
    if identity_matches m again && not (daemon_needs_restart m again) && m.healthy again.port
    then some again
    else none

-- `if (again && identityMatches(again)) await stopDaemon()`
unfoldable pub stop_again : Machine → Machine → Option DaemonState → List Effect
stop_again m later none = []
stop_again m later (some again) =
    let effects = (stop_daemon m later).0 in if identity_matches m again then effects else []

unfoldable pub await_start : Machine → ℕ → Result EnsureResult
await_start m port =
    let unready = thrown "control plane is healthy but never reported a ready state" in
    if not (m.healthy port)
    then thrown "control plane failed to become healthy"
    else elim m.ready_state [
      | none ↦ unready
      | some state ↦ ok (record { state = state; started = true })
    ]

abbrev pub start_on : Machine → Result ℕ → List Effect × Result EnsureResult
start_on m (thrown e) = ([], thrown e)
start_on m (ok port) = (rotate_logs ∷ spawn_daemon port ∷ [], await_start m port)

-- what happens under the lock, and its release
unfoldable pub start_found : Course → Option DaemonState → List Effect × Result EnsureResult
start_found c (some again) = (free_lock ∷ [], ok (running c.locked again))
start_found c none =
    let (effects, result) = start_on c.spawned c.port in
    (stop_again c.locked c.locked_later c.locked.state ++ effects ++ free_lock ∷ [], result)

unfoldable pub start_locked : Course → List Effect × Result EnsureResult
start_locked c = start_found c (usable c.locked c.locked.state)

-- the lock and what follows
unfoldable pub with_lock : Course → List Effect × Result EnsureResult
with_lock c =
    let (effects, result) = start_locked c in
    if c.lock_taken then (take_lock ∷ effects, result) else ([], await_rival c.rounds)

-- the answer that was found, or what follows
unfoldable pub or_start :
    List Effect × Option EnsureResult
    → List Effect × Result EnsureResult
    → List Effect × Result EnsureResult
or_start (before, some answer) rest = (before, ok answer)
or_start (before, none) (effects, result) = (before ++ effects, result)

unfoldable pub ensure_daemon : Course → List Effect × Result EnsureResult
ensure_daemon c =
    let course = or_start (look_first c.first c.first_later) (with_lock c) in
    if c.enabled
    then course
    else ([], thrown "control plane is disabled by OPENAGENTHUB_NO_DAEMON=1")

-- A restart does not start a daemon where the old one did not stop.
unfoldable pub after_stop :
    StopDaemonOutcome → List Effect → Course → List Effect × Result EnsureResult
after_stop failed effects c =
    (effects, thrown "control plane did not stop in time; refusing to start a second daemon")
after_stop other effects c = let (more, result) = ensure_daemon c in (effects ++ more, result)

unfoldable pub restart_daemon : Machine → Machine → Course → List Effect × Result EnsureResult
restart_daemon m after c =
    let (effects, (outcome, state)) = stop_daemon m after in after_stop outcome effects c
